-- ===== src/MultiMap/Spec.antt =====
-- The contract of src/multi_map.rs: a list of items, with no pointers, that each key finds.
use rathole_x.Base.{
  ◌==◌, HasEq, ◌||◌, Option, none, some, List, [], ◌∷◌, ◌++◌, if◌then◌else◌, is_some,
}
use rathole_x.MultiMap.{
  Item, Inserted, ok, err, State, ◌>>=◌, insert, get1, get2, get1_mut, get_mut2, remove1, remove2,
}
use rathole_x.MultiMap.Cells.{find_by, drop_by}

-- A call of a method of the map; a mutable borrow comes with what the caller writes.
pub data Call {ℓ} (K1 K2 V : Type ℓ) : Type ℓ where
  call_insert : K1 → K2 → V → Call K1 K2 V
  call_get1 : K1 → Call K1 K2 V
  call_get2 : K2 → Call K1 K2 V
  call_get1_mut : K1 → (V → V) → Call K1 K2 V
  call_get_mut2 : K2 → (V → V) → Call K1 K2 V
  call_remove1 : K1 → Call K1 K2 V
  call_remove2 : K2 → Call K1 K2 V

pub data Reply {ℓ} (K1 K2 V : Type ℓ) : Type ℓ where
  inserted : Inserted K1 K2 V → Reply K1 K2 V
  value : Option V → Reply K1 K2 V

module _ {ℓ} {K1 K2 V : Type ℓ} where
  abbrev pub val_of : Option (Item K1 K2 V) → Option V
  val_of none = none
  val_of (some it) = some it.val

  abbrev pub modify_by :
      {K : Type ℓ} ⦃e : HasEq K⦄
      → (Item K1 K2 V → K)
      → K
      → (V → V)
      → List (Item K1 K2 V)
      → List (Item K1 K2 V)
  modify_by key k f [] = []
  modify_by key k f (it ∷ its) =
      if key it == k then record it { val = f it.val } ∷ its else it ∷ modify_by key k f its

  abbrev pub as_value : State K1 K2 V → Option V → Option (Reply K1 K2 V × State K1 K2 V)
  as_value s v = some (value v, s)

  abbrev pub replied :
      {R : Type ℓ}
      → (R → Reply K1 K2 V)
      → R × State K1 K2 V
      → Option (Reply K1 K2 V × State K1 K2 V)
  replied f (r, s) = some (f r, s)

module _ {ℓ} {K1 K2 V : Type ℓ} ⦃e1 : HasEq K1⦄ ⦃e2 : HasEq K2⦄ where
  -- The methods as the code runs them.
  unfoldable pub step : Call K1 K2 V → State K1 K2 V → Option (Reply K1 K2 V × State K1 K2 V)
  step (call_insert k1 k2 v) s = insert k1 k2 v s >>= replied inserted
  step (call_get1 k) s = get1 k s >>= as_value s
  step (call_get2 k) s = get2 k s >>= as_value s
  step (call_get1_mut k f) s = get1_mut k f s >>= replied value
  step (call_get_mut2 k f) s = get_mut2 k f s >>= replied value
  step (call_remove1 k) s = remove1 k s >>= replied value
  step (call_remove2 k) s = remove2 k s >>= replied value

  -- What they promise.
  unfoldable pub spec_step :
      Call K1 K2 V → List (Item K1 K2 V) → Reply K1 K2 V × List (Item K1 K2 V)
  spec_step (call_insert k1 k2 v) its =
      if is_some (find_by Item.key1 k1 its) || is_some (find_by Item.key2 k2 its)
      then (inserted (err k1 k2 v), its)
      else (inserted ok, its ++ record { key1 = k1; key2 = k2; val = v } ∷ [])
  spec_step (call_get1 k) its = (value (val_of (find_by Item.key1 k its)), its)
  spec_step (call_get2 k) its = (value (val_of (find_by Item.key2 k its)), its)
  spec_step (call_get1_mut k f) its =
      (value (val_of (find_by Item.key1 k its)), modify_by Item.key1 k f its)
  spec_step (call_get_mut2 k f) its =
      (value (val_of (find_by Item.key2 k its)), modify_by Item.key2 k f its)
  spec_step (call_remove1 k) its =
      (value (val_of (find_by Item.key1 k its)), drop_by Item.key1 k its)
  spec_step (call_remove2 k) its =
      (value (val_of (find_by Item.key2 k its)), drop_by Item.key2 k its)

  unfoldable pub run :
      List (Call K1 K2 V) → State K1 K2 V → Option (List (Reply K1 K2 V) × State K1 K2 V)
  run [] s = some ([], s)
  run (c ∷ cs) s = step c s >>= λ r. run cs r.1 >>= λ rest. some (r.0 ∷ rest.0, rest.1)

  unfoldable pub spec_run :
      List (Call K1 K2 V) → List (Item K1 K2 V) → List (Reply K1 K2 V) × List (Item K1 K2 V)
  spec_run [] its = ([], its)
  spec_run (c ∷ cs) its =
      let r = spec_step c its in let rest = spec_run cs r.1 in (r.0 ∷ rest.0, rest.1)
