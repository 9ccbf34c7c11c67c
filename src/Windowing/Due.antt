-- ===== src/Windowing/Due.antt =====
-- windowing.py: which windows `due_windows` returns.
use distributed_tracing_plat.Prelude.{
  ℕ, zero, suc, ◌+◌, ◌*◌, ◌/◌, ◌≤◌, ◌<◌, ◌≡◌, ◌↔◌, refl, inl, inr, Bool-cases, List, [], ◌∷◌, map,
  Option, some, ltb, ltb→lt, length, Elem, arith,
}
use distributed_tracing_plat.Windowing.{
  second, window_index, window_bounds, DueWindow, WindowTracker, window_at, due_from, cursor,
  due_windows,
}

abbrev pub width : WindowTracker → ℕ
width t = t.window_seconds * second

-- The watermark of a window has passed.
abbrev pub IsDue : WindowTracker → ℕ → ℕ → Type 0
IsDue t now i = (window_bounds i t.window_seconds).1 + t.watermark_seconds * second ≤ now

abbrev pub indices : List DueWindow → List ℕ
indices ws = map (λ w. w.index) ws

-- n, n + 1, …, k of them.
unfoldable pub range_from : ℕ → ℕ → List ℕ
range_from n zero = []
range_from n (suc k) = n ∷ range_from (n + 1) k

mul_mono : (i j w : ℕ) → i ≤ j → i * w ≤ j * w
mul_mono i j w h = grind arith

le-mul : (i w : ℕ) → 0 < w → i ≤ i * w
le-mul i w h = grind arith

-- The windows tile the time line: each ends where the next one starts.
pub window_bounds-adjacent :
    (i window_seconds : ℕ)
    → (window_bounds i window_seconds).1 ≡ (window_bounds (i + 1) window_seconds).0
unfolding window_bounds
window_bounds-adjacent i window_seconds = omega arith

pub window_bounds_mono :
    (i j window_seconds : ℕ)
    → i ≤ j
    → (window_bounds i window_seconds).0 ≤ (window_bounds j window_seconds).0
unfolding window_bounds
window_bounds_mono i j window_seconds h = mul_mono i j (window_seconds * second) h

pub IsDue-mono : (t : WindowTracker) (now i j : ℕ) → i ≤ j → IsDue t now j → IsDue t now i
unfolding window_bounds
IsDue-mono t now i j h d = omega (arith, mul_mono i j (width t) h)

not-IsDue : (t : WindowTracker) (now i : ℕ) → 0 < t.window_seconds → now ≤ i → ¬ IsDue t now i
unfolding window_bounds
not-IsDue t now i pos h d = omega (arith, le-mul i (width t) (omega arith))

Elem-due_from :
    (fuel : ℕ) (t : WindowTracker) (now idx i : ℕ)
    → 0 < t.window_seconds
    → now < idx + fuel
    → Elem i (indices (due_from fuel t now idx)) ↔ ((idx ≤ i) × IsDue t now i)
unfolding due_from
Elem-due_from zero t now idx i pos enough =
    (λ m. absurd m, λ (le, d). absurd (not-IsDue t now i pos (omega arith) d))
Elem-due_from (suc fuel) t now idx i pos enough =
    let ih = Elem-due_from fuel t now (idx + 1) i pos (omega arith) in
    elim (Bool-cases
      (ltb now ((window_at t.window_seconds idx).end + t.watermark_seconds * second))) [
        | inl early ↦ rw early (
          λ m. absurd m,
          λ (le, d). absurd (omega (arith, ltb→lt _ _ early, IsDue-mono t now idx i le d)),
        )
        | inr due ↦ rw due (λ m. ground (arith, ih), λ (le, d). ground (arith, ih))
      ]

Elem-due_windows :
    (t : WindowTracker) (now i : ℕ)
    → 0 < t.window_seconds
    → Elem i (indices (due_windows t now).1) ↔ ((cursor t now ≤ i) × IsDue t now i)
unfolding due_windows
Elem-due_windows t now i pos = Elem-due_from (now + 1) t now (cursor t now) i pos (omega arith)

-- The windows of a call are consecutive, and each has the bounds of its index.
due_from_shape :
    (fuel : ℕ) (t : WindowTracker) (now idx : ℕ)
    → due_from fuel t now idx
      ≡ map (window_at t.window_seconds) (range_from idx (length (due_from fuel t now idx)))
unfolding due_from range_from
due_from_shape zero t now idx = refl
due_from_shape (suc fuel) t now idx = ground (arith, due_from_shape fuel t now (idx + 1))

-- For a positive window length, `due_windows` returns consecutive windows from the cursor on, each
-- with the bounds of its index; window i is among them exactly when it is not before the cursor and
-- its end plus the watermark has passed; and the cursor is all that it stores.
pub due_windows_exact :
    (t : WindowTracker) (now : ℕ)
    → 0 < t.window_seconds
    → ((due_windows t now).1
        ≡ map
            (window_at t.window_seconds)
            (range_from (cursor t now) (length (due_windows t now).1)))
      × ((i : ℕ) → Elem i (indices (due_windows t now).1) ↔ ((cursor t now ≤ i) × IsDue t now i))
      × ((due_windows t now).0 ≡ record t { next_index = some (cursor t now) })
unfolding due_windows
due_windows_exact t now pos =
    (due_from_shape (now + 1) t now (cursor t now), λ i. Elem-due_windows t now i pos, refl)

-- The cursor plays no part in the loop.
pub due_from-next_index :
    (fuel : ℕ) (t : WindowTracker) (c : Option ℕ) (now idx : ℕ)
    → due_from fuel (record t { next_index = c }) now idx ≡ due_from fuel t now idx
unfolding due_from
due_from-next_index zero t c now idx = refl
due_from-next_index (suc fuel) t c now idx = rw (due_from-next_index fuel t c now (idx + 1))

pub due_windows-next_index :
    (t : WindowTracker) (now : ℕ)
    → due_windows (record t { next_index = some (cursor t now) }) now ≡ due_windows t now
unfolding due_windows cursor
due_windows-next_index t now =
    rw (due_from-next_index (now + 1) t (some (cursor t now)) now (cursor t now))

div_bounds : (n w : ℕ) → 0 < w → (n / w * w ≤ n) × (n < n / w * w + w)
div_bounds n w pos = (grind arith, grind arith)

-- The window that holds a reading of the clock: it starts at the reading or before, and ends after it.
pub window_index-bounds :
    (now window_seconds : ℕ)
    → 0 < window_seconds
    → ((window_bounds (window_index now window_seconds) window_seconds).0 ≤ now)
      × (now < (window_bounds (window_index now window_seconds) window_seconds).1)
unfolding window_bounds window_index
window_index-bounds now window_seconds pos = div_bounds now (window_seconds * second) (omega arith)

-- Without a `mark_processed` in between, a second call returns the same windows and state.
pub due_windows_idem :
    (t : WindowTracker) (now : ℕ) → due_windows (due_windows t now).0 now ≡ due_windows t now
unfolding due_windows
due_windows_idem t now = due_windows-next_index t now
