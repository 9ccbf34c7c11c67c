-- ===== src/Windowing/Schedule.antt =====
-- windowing.py under the poll loop of main.py: which windows are processed over many polls.
use distributed_tracing_plat.Prelude.{
  ℕ, zero, suc, ◌+◌, ◌≤◌, ◌<◌, ◌≡◌, ◌↔◌, refl, sym, subst, ap, inl, inr, ⊎_elim, List, [], ◌∷◌,
  ◌++◌, map, map-append, none, some, length, ◌∙◌, Elem, Any, All, arith,
}
use native.Mathlib.Nat.{add_assoc}
use distributed_tracing_plat.Windowing.{
  window_index, window_bounds, DueWindow, WindowTracker, window_at, cursor, due_windows,
  mark_processed, mark_all, poll, run_polls, late_check_boundary,
}
use distributed_tracing_plat.Windowing.Due.{
  IsDue, indices, range_from, IsDue-mono, window_bounds-adjacent, window_bounds_mono,
  due_windows_exact, due_windows-next_index,
}

-- The tracker with its cursor at c.
abbrev pub at : WindowTracker → ℕ → WindowTracker
at t c = record t { next_index = some c }

abbrev pub windows : WindowTracker → ℕ → ℕ → List DueWindow
windows t c k = map (window_at t.window_seconds) (range_from c k)

pub Elem-range_from : (c k i : ℕ) → Elem i (range_from c k) ↔ ((c ≤ i) × (i < c + k))
unfolding range_from
Elem-range_from c zero i = (λ m. absurd m, λ h. absurd (omega arith))
Elem-range_from c (suc k) i = ground (arith, Elem-range_from (c + 1) k i)

range_from-append :
    (c k d m n : ℕ) → c + k ≡ d → k + m ≡ n → range_from c k ++ range_from d m ≡ range_from c n
unfolding range_from
range_from-append c zero d m n p q =
    let e : d ≡ c = omega arith in let e' : m ≡ n = omega arith in rw (e, e')
range_from-append c (suc k) d m zero p q = absurd (omega arith)
range_from-append c (suc k) d m (suc n) p q =
    ap (◌∷◌ c) (range_from-append (c + 1) k d m n (omega arith) (omega arith))

windows-append :
    (t : WindowTracker) (c k m : ℕ) → windows t c k ++ windows t (c + k) m ≡ windows t c (k + m)
windows-append t c k m =
    sym (map-append (window_at t.window_seconds) (range_from c k) (range_from (c + k) m))
    ∙ ap (map (window_at t.window_seconds)) (range_from-append c k (c + k) m (k + m) refl refl)

pub indices-windows :
    (t : WindowTracker) (js : List ℕ) → indices (map (window_at t.window_seconds) js) ≡ js
indices-windows t [] = refl
indices-windows t (j ∷ js) = ap (◌∷◌ j) (indices-windows t js)

mark_all-windows : (t : WindowTracker) (k c : ℕ) → mark_all (at t c) (windows t c k) ≡ at t (c + k)
unfolding mark_all mark_processed range_from
mark_all-windows t zero c = ground arith
mark_all-windows t (suc k) c = ground (arith, mark_all-windows t k (c + 1))

abbrev pub IsDueSome : WindowTracker → List ℕ → ℕ → Type 0
IsDueSome t nows i = Any (λ now. IsDue t now i) nows

-- What a run of polls from cursor c does: it processes k consecutive windows.
record Run (t : WindowTracker) (c : ℕ) (nows : List ℕ) : Type 0 where
  count : ℕ
  runs : run_polls (at t c) nows ≡ (at t (c + count), windows t c count)
  exact : (i : ℕ) → c ≤ i → (i < c + count) ↔ IsDueSome t nows i

poll_count : WindowTracker → ℕ → ℕ → ℕ
poll_count t now c = length (due_windows (at t c) now).1

module _ (t : WindowTracker) (pos : 0 < t.window_seconds) where
  poll_lem :
      (now c : ℕ)
      → (poll (at t c) now ≡ (at t (c + poll_count t now c), windows t c (poll_count t now c)))
        × ((i : ℕ) → c ≤ i → (i < c + poll_count t now c) ↔ IsDue t now i)
  unfolding poll poll_count cursor
  poll_lem now c =
      let (shape, exact, state) = due_windows_exact (at t c) now pos in
      let k : ℕ = poll_count t now c in
      let e : indices (due_windows (at t c) now).1 ≡ range_from c k =
        ap indices shape ∙ indices-windows t (range_from c k) in
      (
        cc (mark_all-windows t k c, shape, state),
        λ i h. ground (arith, rw e at (exact i), Elem-range_from c k i),
      )

  Run-of_polls : (nows : List ℕ) (c : ℕ) → Run t c nows
  unfolding run_polls range_from
  Run-of_polls [] c = record {
    count = 0;
    runs = ground arith;
    exact = λ i h. (λ l. absurd (omega arith), λ d. absurd d);
  }
  Run-of_polls (now ∷ nows) c =
      let (step, due) = poll_lem now c in
      let k : ℕ = poll_count t now c in
      let later = Run-of_polls nows (c + k) in
      let n : ℕ = k + later.count in
      record {
        count = n;
        runs =
            rw (step, later.runs)
              (cc (windows-append t c k later.count, add_assoc c k later.count));
        exact = λ i h. ground (arith, due i h, later.exact i);
      }

cursor_fresh :
    (t : WindowTracker) (now : ℕ)
    → t.next_index ≡ none
    → cursor t now ≡ window_index now t.window_seconds
unfolding cursor
cursor_fresh t now h = ground arith

due_windows_fresh :
    (t : WindowTracker) (now : ℕ)
    → t.next_index ≡ none
    → due_windows (at t (window_index now t.window_seconds)) now ≡ due_windows t now
due_windows_fresh t now h =
    subst (λ c. due_windows (at t c) now ≡ due_windows t now) (cursor_fresh t now h)
      (due_windows-next_index t now)

run_polls-fresh :
    (t : WindowTracker) (now : ℕ) (nows : List ℕ)
    → t.next_index ≡ none
    → run_polls t (now ∷ nows) ≡ run_polls (at t (window_index now t.window_seconds)) (now ∷ nows)
unfolding run_polls poll
run_polls-fresh t now nows h = rw (due_windows_fresh t now h)

-- From a fresh tracker with a positive window length, polled at any readings of the clock, the loop
-- processes k windows, consecutive from the one that holds the first reading, each once and in
-- order; the cursor stands behind them; and a window from there on is processed exactly when it was
-- due at one of the readings.
pub run_polls_exact :
    (t : WindowTracker) (now : ℕ) (nows : List ℕ)
    → 0 < t.window_seconds
    → t.next_index ≡ none
    → (k : ℕ) × (run_polls t (now ∷ nows) ≡ (
      at t (window_index now t.window_seconds + k),
      windows t (window_index now t.window_seconds) k,
    ))
      × ((i : ℕ)
          → window_index now t.window_seconds ≤ i
          → (i < window_index now t.window_seconds + k) ↔ IsDueSome t (now ∷ nows) i)
run_polls_exact t now nows pos fresh =
    let r = Run-of_polls t pos (now ∷ nows) (window_index now t.window_seconds) in
    (r.count, run_polls-fresh t now nows fresh ∙ r.runs, r.exact)

IsDueSome-mono :
    (t : WindowTracker) (i j : ℕ) (nows : List ℕ) → i ≤ j → IsDueSome t nows j → IsDueSome t nows i
IsDueSome-mono t i j [] h d = absurd d
IsDueSome-mono t i j (now ∷ nows) h d =
    ⊎_elim (λ e. inl (IsDue-mono t now i j h e)) (λ e. inr (IsDueSome-mono t i j nows h e)) d

ends-le :
    (t : WindowTracker) (k c m : ℕ)
    → c + k ≤ m
    → All (λ w. w.end ≤ (window_bounds m t.window_seconds).0) (windows t c k)
unfolding range_from
ends-le t zero c m h = tt
ends-le t (suc k) c m h = (
  omega (
    arith,
    window_bounds-adjacent c t.window_seconds,
    window_bounds_mono (c + 1) m t.window_seconds (omega arith),
  ),
  ends-le t k (c + 1) m (omega arith),
)

-- From a fresh tracker with a positive window length, after polls at any readings of the clock,
-- `late_check_boundary` is a point of time b: every processed window ends at b or before, and every
-- window from the first on that no reading made due starts at b or later.
pub late_check_boundary-run_polls :
    (t : WindowTracker) (now : ℕ) (nows : List ℕ)
    → 0 < t.window_seconds
    → t.next_index ≡ none
    → (b : ℕ) × (late_check_boundary (run_polls t (now ∷ nows)).0 ≡ some b)
      × All (λ w. w.end ≤ b) (run_polls t (now ∷ nows)).1
      × ((i : ℕ)
          → window_index now t.window_seconds ≤ i
          → ¬ IsDueSome t (now ∷ nows) i
          → b ≤ (window_bounds i t.window_seconds).0)
unfolding late_check_boundary
late_check_boundary-run_polls t now nows pos fresh =
    let (k, runs, exact) = run_polls_exact t now nows pos fresh in
    let c : ℕ = window_index now t.window_seconds in
    (
      (window_bounds (c + k) t.window_seconds).0,
      rw runs,
      rw runs (ends-le t k c (c + k) (omega arith)),
      λ i le not_due. window_bounds_mono (c + k) i t.window_seconds (ground (arith, exact i le)),
    )

window_seconds-mark_all :
    (ws : List DueWindow) (t : WindowTracker) → (mark_all t ws).window_seconds ≡ t.window_seconds
unfolding mark_all mark_processed
window_seconds-mark_all [] t = refl
window_seconds-mark_all (w ∷ ws) t =
    window_seconds-mark_all ws (mark_processed t w.index) ∙ ground arith

-- The length of a window never changes.
pub window_seconds-poll :
    (t : WindowTracker) (now : ℕ) → (poll t now).0.window_seconds ≡ t.window_seconds
unfolding poll due_windows
window_seconds-poll t now = window_seconds-mark_all (due_windows t now).1 (due_windows t now).0
