-- ===== src/MultiMap/Refine.antt =====
-- src/multi_map.rs implements its contract: no call reads or frees a dangling pointer, and each
-- answers as the list of items does.
use rathole_x.Base.{
  ℕ, ◌≡◌, refl, HasEq, ◌==◌, nat_eq, Option, none, some, List, [], ◌∷◌, map, Bool-cases,
  Option-cases, inl, inr, is_some,
}
use mathlib.Core.Path.{subst}
use mathlib.Core.List.{map-append}
use rathole_x.MultiMap.{Item, Heap, State, new, insert, drop_map}
use rathole_x.MultiMap.Cells.{find_by, drop_by}
use rathole_x.MultiMap.Invariant.{Cell, item, cell_key1, cell_key2, Repr}
use rathole_x.MultiMap.Remove.{cell_val, remove1-Repr, remove2-Repr, free_all-entries}
use rathole_x.MultiMap.Insert.{insert-absent}
use rathole_x.MultiMap.Write.{
  found1, found2, get1-Repr, get2-Repr, get1_mut-Repr, get_mut2-Repr, modify_cell,
}
use rathole_x.MultiMap.Spec.{
  Call, call_insert, call_get1, call_get2, call_get1_mut, call_get_mut2, call_remove1, call_remove2,
  Reply, step, spec_step, run, spec_run, val_of, modify_by,
}

-- Searching boxes is searching items.
module _ {ℓ} {K1 K2 V K : Type ℓ} ⦃e : HasEq K⦄ (field : Item K1 K2 V → K) where
  abbrev cell_by : Cell K1 K2 V → K
  cell_by c = field c.1

  val_of-map :
      (k : K) (cs : List (Cell K1 K2 V))
      → val_of (find_by field k (map item cs)) ≡ cell_val (find_by cell_by k cs)
  val_of-map k [] = refl
  val_of-map k (c ∷ cs) = elim (Bool-cases (field c.1 == k)) [
    | inl hit ↦ rw hit
    | inr miss ↦ rw miss (val_of-map k cs)
  ]

  is_some-map :
      (k : K) (cs : List (Cell K1 K2 V))
      → is_some (find_by field k (map item cs)) ≡ is_some (find_by cell_by k cs)
  is_some-map k [] = refl
  is_some-map k (c ∷ cs) = elim (Bool-cases (field c.1 == k)) [
    | inl hit ↦ rw hit
    | inr miss ↦ rw miss (is_some-map k cs)
  ]

  drop_by-map :
      (k : K) (cs : List (Cell K1 K2 V))
      → map item (drop_by cell_by k cs) ≡ drop_by field k (map item cs)
  drop_by-map k [] = refl
  drop_by-map k (c ∷ cs) = elim (Bool-cases (field c.1 == k)) [
    | inl hit ↦ rw hit
    | inr miss ↦ rw (miss, drop_by-map k cs)
  ]

  modify_by-map :
      (k : K) (f : V → V) (cs : List (Cell K1 K2 V))
      → map item (modify_cell cell_by k f cs) ≡ modify_by field k f (map item cs)
  modify_by-map k f [] = refl
  modify_by-map k f (c ∷ cs) = elim (Bool-cases (field c.1 == k)) [
    | inl hit ↦ rw hit
    | inr miss ↦ rw (miss, modify_by-map k f cs)
  ]

module _ {ℓ} {K1 K2 V : Type ℓ} ⦃e1 : HasEq K1⦄ ⦃e2 : HasEq K2⦄ where
  -- A run that does not fault, answers as wanted, and ends in boxes that hold the wanted items.
  pub record Refines {R : Type ℓ} (got : Option (R × State K1 K2 V))
      (want : R × List (Item K1 K2 V)) : Type ℓ where
    pub after : State K1 K2 V
    pub cells : List (Cell K1 K2 V)
    pub runs : got ≡ some (want.0, after)
    pub items : map item cells ≡ want.1
    pub repr : Repr after cells

  pub new-Repr : Repr {K1 = K1} {K2 = K2} {V = V} new []
  unfolding new
  new-Repr = record {
    table1 = refl;
    table2 = refl;
    live = tt;
    fresh = tt;
    boxes = tt;
    keys1 = tt;
    keys2 = tt;
    free_elsewhere = λ p _. refl;
  }

  module _ {s : State K1 K2 V} {cs : List (Cell K1 K2 V)} (r : Repr s cs) where
    insert-Refines :
        (k1 : K1) (k2 : K2) (v : V)
        → Refines (step (call_insert k1 k2 v) s) (spec_step (call_insert k1 k2 v) (map item cs))
    unfolding step spec_step insert
    insert-Refines k1 k2 v = elim (Option-cases (find_by cell_key1 k1 cs)) [
      | inr (c, e) ↦ record {
        after = s;
        cells = cs;
        runs = rw (found1 r k1, found2 r k2, is_some-map Item.key1 k1 cs, e);
        items = rw (is_some-map Item.key1 k1 cs, e);
        repr = r;
      }
      | inl n1 ↦ elim (Option-cases (find_by cell_key2 k2 cs)) [
        | inr (c, e) ↦ record {
          after = s;
          cells = cs;
          runs = rw (
            found1 r k1,
            found2 r k2,
            is_some-map Item.key1 k1 cs,
            is_some-map Item.key2 k2 cs,
            n1,
            e,
          );
          items = rw (is_some-map Item.key1 k1 cs, is_some-map Item.key2 k2 cs, n1, e);
          repr = r;
        }
        | inl n2 ↦
            let (run, r') = insert-absent r k1 k2 v n1 n2 in
            record {
              after = _;
              cells = _;
              runs = rw (run, is_some-map Item.key1 k1 cs, is_some-map Item.key2 k2 cs, n1, n2);
              items =
                  rw (is_some-map Item.key1 k1 cs, is_some-map Item.key2 k2 cs, n1, n2)
                    (map-append item cs _);
              repr = r';
            }
      ]
    ]

    step-Refines : (c : Call K1 K2 V) → Refines (step c s) (spec_step c (map item cs))
    unfolding step spec_step
    step-Refines (call_insert k1 k2 v) = insert-Refines k1 k2 v
    step-Refines (call_get1 k) = record {
      after = s;
      cells = cs;
      runs = rw (get1-Repr r k, val_of-map Item.key1 k cs);
      items = refl;
      repr = r;
    }
    step-Refines (call_get2 k) = record {
      after = s;
      cells = cs;
      runs = rw (get2-Repr r k, val_of-map Item.key2 k cs);
      items = refl;
      repr = r;
    }
    step-Refines (call_get1_mut k f) =
        let (e, r') = get1_mut-Repr r k f in
        record {
          after = _;
          cells = modify_cell cell_key1 k f cs;
          runs = rw (e, val_of-map Item.key1 k cs);
          items = modify_by-map Item.key1 k f cs;
          repr = r';
        }
    step-Refines (call_get_mut2 k f) =
        let (e, r') = get_mut2-Repr r k f in
        record {
          after = _;
          cells = modify_cell cell_key2 k f cs;
          runs = rw (e, val_of-map Item.key2 k cs);
          items = modify_by-map Item.key2 k f cs;
          repr = r';
        }
    step-Refines (call_remove1 k) =
        let (e, r') = remove1-Repr r k in
        record {
          after = _;
          cells = drop_by cell_key1 k cs;
          runs = rw (e, val_of-map Item.key1 k cs);
          items = drop_by-map Item.key1 k cs;
          repr = r';
        }
    step-Refines (call_remove2 k) =
        let (e, r') = remove2-Repr r k in
        record {
          after = _;
          cells = drop_by cell_key2 k cs;
          runs = rw (e, val_of-map Item.key2 k cs);
          items = drop_by-map Item.key2 k cs;
          repr = r';
        }

  run-Repr :
      (calls : List (Call K1 K2 V)) {s : State K1 K2 V} {cs : List (Cell K1 K2 V)}
      → Repr s cs
      → Refines (run calls s) (spec_run calls (map item cs))
  unfolding run spec_run
  run-Repr [] r = record { after = _; cells = _; runs = refl; items = refl; repr = r }
  run-Repr (c ∷ calls) {s} {cs} r =
      let one = step-Refines r c in
      let rest = run-Repr calls one.repr in
      record {
        after = rest.after;
        cells = rest.cells;
        runs = rw (one.runs, rest.runs, one.items);
        items = rw (← one.items) rest.items;
        repr = rest.repr;
      }

  drop_map-Repr :
      {s : State K1 K2 V} {cs : List (Cell K1 K2 V)}
      → Repr s cs
      → (g : Heap K1 K2 V) × (drop_map s ≡ some g) × ((p : ℕ) → g.cell p ≡ none)
  unfolding drop_map
  drop_map-Repr {s} {cs} r =
      let (g, e, gone) = free_all-entries cs s.heap r.live r.boxes r.free_elsewhere in
      (g, rw r.table2 e, gone)

  -- Any sequence of calls of the methods of `MultiMap`, from the empty map on, runs without
  -- undefined behaviour, gives the answers of the list of items, and leaves both tables pointing
  -- to the same live boxes, which hold the items of that list under distinct keys.
  pub run-Refines : (calls : List (Call K1 K2 V)) → Refines (run calls new) (spec_run calls [])
  run-Refines calls = run-Repr calls new-Repr

  -- After any sequence of calls that ends in state `s`, dropping the map frees no box twice and
  -- leaves no address allocated.
  pub drop_map-run :
      (calls : List (Call K1 K2 V)) (replies : List (Reply K1 K2 V)) (s : State K1 K2 V)
      → run calls new ≡ some (replies, s)
      → (g : Heap K1 K2 V) × (drop_map s ≡ some g) × ((p : ℕ) → g.cell p ≡ none)
  drop_map-run calls replies s h =
      let done = run-Refines calls in
      let same : done.after ≡ s = cc (done.runs, h) in
      drop_map-Repr (subst (λ t. Repr t done.cells) same done.repr)
