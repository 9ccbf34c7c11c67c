-- ===== src/Windowing.antt =====
-- analyzer/src/analyzer/windowing.py: epoch-aligned windows and the tracker of those that are due.
-- A point of time, a float of seconds in the source, is a number of nanoseconds since the epoch.
pub mod Due
pub mod Schedule
mod Samples
use distributed_tracing_plat.Prelude.{
  ℕ, zero, suc, ◌+◌, ◌*◌, ◌/◌, Option, none, some, List, [], ◌∷◌, ◌++◌, map, Bool, ltb, leb,
  if◌then◌else◌, arith, ◌≡◌, ◌≤◌, ◌<◌,
}
use distributed_tracing_plat.Prelude.Int.{ℤ, pos, leb_ℤ, ltb_ℤ, pos_part}

abbrev pub second : ℕ
second = 1_000_000_000

-- `int(unix_seconds // window_seconds)`
unfoldable pub window_index : ℕ → ℕ → ℕ
window_index now window_seconds = now / (window_seconds * second)

-- The start and the end of a window.
unfoldable pub window_bounds : ℕ → ℕ → ℕ × ℕ
window_bounds index window_seconds =
    let start = index * (window_seconds * second) in (start, start + window_seconds * second)

pub record DueWindow : Type 0 where
  pub index : ℕ
  pub start : ℕ
  pub end : ℕ

pub record WindowTracker : Type 0 where
  pub window_seconds : ℕ
  pub watermark_seconds : ℕ
  pub next_index : Option ℕ

pub data InitError : Type 0 where
  window_not_positive watermark_negative : InitError

pub data Result (A : Type 0) : Type 0 where
  ok : A → Result A
  raise : InitError → Result A

-- `WindowTracker(window_seconds, watermark_seconds)`
pub init : ℤ → ℤ → Result WindowTracker
init window_seconds watermark_seconds =
    if leb_ℤ window_seconds (pos 0)
    then raise window_not_positive
    else if ltb_ℤ watermark_seconds (pos 0)
    then raise watermark_negative
    else ok (record {
      window_seconds = pos_part window_seconds;
      watermark_seconds = pos_part watermark_seconds;
      next_index = none;
    })

abbrev pub window_at : ℕ → ℕ → DueWindow
window_at window_seconds idx =
    let bounds = window_bounds idx window_seconds in
    record { index = idx; start = bounds.0; end = bounds.1 }

-- The `while True` loop of `due_windows`, with fuel.
pub due_from : ℕ → WindowTracker → ℕ → ℕ → List DueWindow
due_from zero t now idx = []
due_from (suc fuel) t now idx =
    let rest = due_from fuel t now (idx + 1) in
    let window = window_at t.window_seconds idx in
    if ltb now (window.end + t.watermark_seconds * second) then [] else window ∷ rest

-- `_next_index`, set by the first call.
pub cursor : WindowTracker → ℕ → ℕ
cursor t now = elim t.next_index [ none ↦ window_index now t.window_seconds | some idx ↦ idx ]

-- Window `idx` ends after `idx` nanoseconds at the earliest, so `now + 1` rounds are enough.
pub due_windows : WindowTracker → ℕ → WindowTracker × List DueWindow
due_windows t now =
    (record t { next_index = some (cursor t now) }, due_from (now + 1) t now (cursor t now))

pub mark_processed : WindowTracker → ℕ → WindowTracker
mark_processed t index = elim t.next_index [
  | none ↦ t
  | some next ↦ if leb next index then record t { next_index = some (index + 1) } else t
]

pub late_check_boundary : WindowTracker → Option ℕ
late_check_boundary t = elim t.next_index [
  | none ↦ none
  | some next ↦ some (window_bounds next t.window_seconds).0
]

-- The body of the poll loop of `main.run`: each due window is processed and then marked.
pub mark_all : WindowTracker → List DueWindow → WindowTracker
mark_all t [] = t
mark_all t (w ∷ ws) = mark_all (mark_processed t w.index) ws

unfoldable pub poll : WindowTracker → ℕ → WindowTracker × List DueWindow
poll t now = let (t', due) = due_windows t now in (mark_all t' due, due)

-- The rounds of the poll loop at the given readings of the clock, and the windows processed.
unfoldable pub run_polls : WindowTracker → List ℕ → WindowTracker × List DueWindow
run_polls t [] = (t, [])
run_polls t (now ∷ nows) =
    let (t', due) = poll t now in let (t'', later) = run_polls t' nows in (t'', due ++ later)
