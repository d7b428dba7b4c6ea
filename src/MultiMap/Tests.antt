-- ===== src/MultiMap/Tests.antt =====
-- Runs of the two-key map of src/multi_map.rs at concrete calls.
use rathole_x.Base.{ℕ, ◌+◌, ◌≡◌, refl, some, none, List, [], ◌∷◌, nat_eq}
use rathole_x.MultiMap.{new, drop_map, ok, err, Heap}
use rathole_x.MultiMap.Spec.{
  Call, call_insert, call_get1, call_get2, call_get1_mut, call_remove1, call_remove2, inserted,
  value, run, spec_run, spec_step,
}
use rathole_x.MultiMap.Refine.{Refines, run-Refines, drop_map-run}

-- A clash of the second key, a write through a borrow, a removal by each key.
abbrev sample : List (Call ℕ ℕ ℕ)
sample =
    call_insert 1 10 100
    ∷ call_insert 2 20 200
    ∷ call_insert 3 20 300
    ∷ call_get1_mut 2 (λ v. v + 5)
    ∷ call_get2 20
    ∷ call_remove2 10
    ∷ call_get1 1
    ∷ call_remove1 7
    ∷ []

sample_replies :
    (spec_run sample []).0
    ≡ inserted ok
      ∷ inserted ok
      ∷ inserted (err 3 20 300)
      ∷ value (some 200)
      ∷ value (some 205)
      ∷ value (some 100)
      ∷ value none
      ∷ value none
      ∷ []
unfolding spec_run spec_step
sample_replies = refl

run-Refines_example : Refines (run sample new) (spec_run sample [])
run-Refines_example = run-Refines sample

drop_map-run_example :
    (g : Heap ℕ ℕ ℕ) × (drop_map (run-Refines sample).after ≡ some g) × ((p : ℕ) → g.cell p ≡ none)
drop_map-run_example =
    drop_map-run sample (spec_run sample []).0 (run-Refines sample).after (run-Refines sample).runs
