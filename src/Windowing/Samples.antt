-- ===== src/Windowing/Samples.antt =====
-- windowing.py on small inputs, and the theorems about it at such inputs.
use distributed_tracing_plat.Prelude.{
  ℕ, ◌+◌, ◌*◌, ◌≤◌, ◌<◌, ◌≡◌, ◌↔◌, refl, [], ◌∷◌, map, none, some, length, Elem, All, arith,
}
use distributed_tracing_plat.Prelude.Int.{pos, negsuc}
use distributed_tracing_plat.Windowing.{
  second, window_index, window_bounds, WindowTracker, ok, raise, window_not_positive,
  watermark_negative, init, window_at, due_from, cursor, due_windows, mark_processed, mark_all,
  poll, run_polls, late_check_boundary,
}
use distributed_tracing_plat.Windowing.Due.{IsDue, indices, range_from, due_windows_exact}
use distributed_tracing_plat.Windowing.Schedule.{
  at, windows, IsDueSome, run_polls_exact, late_check_boundary-run_polls,
}

program : Unit {0}
unfolding window_index window_bounds init due_from cursor due_windows mark_processed mark_all poll
    run_polls late_check_boundary range_from
program = tt

-- Windows of 60 seconds with a watermark of 30 seconds.
abbrev fresh : WindowTracker
fresh = record { window_seconds = 60; watermark_seconds = 30; next_index = none }

init_test :
    (init (pos 60) (pos 30) ≡ ok fresh)
    × (init (pos 0) (pos 30) ≡ raise window_not_positive)
    × (init (negsuc 4) (negsuc 0) ≡ raise window_not_positive)
    × (init (pos 60) (negsuc 0) ≡ raise watermark_negative)
unfolding program
init_test = (refl, refl, refl, refl)

-- At second 130 the cursor is set to window 2; at second 260 windows 2 is due, and 3 is not.
due_test :
    (indices (due_windows fresh (130 * second)).1 ≡ [])
    × (indices (run_polls fresh (130 * second ∷ 260 * second ∷ [])).1 ≡ 2 ∷ [])
    × ((run_polls fresh (130 * second ∷ 400 * second ∷ 260 * second ∷ [])).0 ≡ at fresh 6)
unfolding program
due_test = (refl, refl, refl)

due_windows_exact_example :
    ((due_windows (at fresh 2) (330 * second)).1
      ≡ map (window_at 60) (
          range_from
            (cursor (at fresh 2) (330 * second))
            (length (due_windows (at fresh 2) (330 * second)).1)))
    × ((i : ℕ)
        → Elem i (indices (due_windows (at fresh 2) (330 * second)).1)
          ↔ ((cursor (at fresh 2) (330 * second) ≤ i) × IsDue (at fresh 2) (330 * second) i))
    × ((due_windows (at fresh 2) (330 * second)).0 ≡ at fresh (cursor (at fresh 2) (330 * second)))
due_windows_exact_example = due_windows_exact (at fresh 2) (330 * second) (omega arith)

run_polls_exact_example :
    (k : ℕ) × (run_polls fresh (130 * second ∷ 400 * second ∷ []) ≡ (
      at fresh (window_index (130 * second) 60 + k),
      windows fresh (window_index (130 * second) 60) k,
    ))
    × ((i : ℕ)
        → window_index (130 * second) 60 ≤ i
        → (i < window_index (130 * second) 60 + k)
          ↔ IsDueSome fresh (130 * second ∷ 400 * second ∷ []) i)
run_polls_exact_example =
    run_polls_exact fresh (130 * second) (400 * second ∷ []) (omega arith) refl

late_check_boundary-run_polls_example :
    (b : ℕ) × (late_check_boundary (run_polls fresh (130 * second ∷ 400 * second ∷ [])).0 ≡ some b)
    × All (λ w. w.end ≤ b) (run_polls fresh (130 * second ∷ 400 * second ∷ [])).1
    × ((i : ℕ)
        → window_index (130 * second) 60 ≤ i
        → ¬ IsDueSome fresh (130 * second ∷ 400 * second ∷ []) i
        → b ≤ (window_bounds i 60).0)
late_check_boundary-run_polls_example =
    late_check_boundary-run_polls fresh (130 * second) (400 * second ∷ []) (omega arith) refl
