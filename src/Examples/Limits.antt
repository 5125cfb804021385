-- ===== src/Examples/Limits.antt =====
-- The theorems on the rate and concurrency limits, applied.
use nova_vei.Base.{
  ◌+◌, ◌≤◌, ◌≡◌, refl, List, [], ◌∷◌, if◌then◌else◌, ltb, pos, count, length, arith,
}
use nova_vei.Rate.Window.{trim, in_window, serve, admit, full}
use nova_vei.Rate.Window.Bounds.{serve_sliding_bound}
use nova_vei.Keylimit.{initial, acquire_concurrency, acquired, concurrency_full}
use nova_vei.Keylimit.Slots.{Inv}
use nova_vei.Keylimit.Traces.{Call, acquires, releases, run, outstanding, run-Inv, acquire_exact}

abbrev calls : List Call
calls = acquires 7 (pos 2) ∷ acquires 7 (pos 2) ∷ acquires 7 (pos 2) ∷ releases 0 ∷ []

serve_sliding_bound_example :
    count (in_window 60 100) (serve 60 2 [] [] (10 ∷ 20 ∷ 30 ∷ 90 ∷ 100 ∷ [])) ≤ 2
serve_sliding_bound_example =
    serve_sliding_bound 60 2 (10 ∷ 20 ∷ 30 ∷ 90 ∷ 100 ∷ []) 100
      (omega arith, (omega arith, (omega arith, (omega arith, (omega arith, tt)))))

refused : (admit 60 50 2 (10 ∷ 20 ∷ [])).1 ≡ full 70
unfolding admit trim
refused = refl

run-Inv_example : Inv (run calls initial)
run-Inv_example = run-Inv calls

acquire_exact_example :
    ((acquire_concurrency 7 (pos 2) (run calls initial)).1 ≡ (
      if ltb (outstanding 7 (run calls initial)) 2
      then acquired (length (run calls initial).slots)
      else concurrency_full))
    × (outstanding 7 (acquire_concurrency 7 (pos 2) (run calls initial)).0 ≡ (
        if ltb (outstanding 7 (run calls initial)) 2
        then outstanding 7 (run calls initial) + 1
        else outstanding 7 (run calls initial)))
acquire_exact_example = acquire_exact 7 (pos 2) calls (omega arith)
