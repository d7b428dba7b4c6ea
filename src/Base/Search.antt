-- ===== src/Base/Search.antt =====
-- Entries of a list changed through a key, as a table of owned objects is.
use mathlib.Core.Path.{◌≡◌}
use mathlib.Core.List.{List, [], ◌∷◌}
use mathlib.Core.Logic.{inl, inr}
use rathole_x.Base.Tests.{if◌then◌else◌, Bool-cases}
use rathole_x.Base.Eq.{HasEq, ◌==◌}
use rathole_x.Base.Lists.{All}

module _ {ℓ κ} {C : Type ℓ} {K : Type κ} ⦃e : HasEq K⦄ (key : C → K) where
  -- The first entry with the key, changed in place.
  abbrev pub change_by : K → (C → C) → List C → List C
  change_by k f [] = []
  change_by k f (c ∷ cs) = if key c == k then f c ∷ cs else c ∷ change_by k f cs

  pub All-change_by {μ} :
      (P : C → Type μ) (k : K) (f : C → C) (cs : List C)
      → ((c : C) → key c ≡ k → P c → P (f c))
      → All P cs
      → All P (change_by k f cs)
  All-change_by P k f [] keep a = tt
  All-change_by P k f (c ∷ cs) keep a = elim (Bool-cases (key c == k)) [
    | inl t ↦ rw t (keep c ((e.beq_iff (key c) k).0 t) a.0, a.1)
    | inr t ↦ rw t (a.0, All-change_by P k f cs keep a.1)
  ]
