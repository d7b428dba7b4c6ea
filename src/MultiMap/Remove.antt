-- ===== src/MultiMap/Remove.antt =====
-- `remove1`, `remove2` and `Drop` of src/multi_map.rs under the invariant.
use rathole_x.Base.{
  ℕ, ◌≡◌, refl, sym, ap, HasEq, nat_eq, Option, none, some, List, [], ◌∷◌, All, ==-cases,
  Bool-cases, ◌==◌, Option-cases, inl, inr,
}
use rathole_x.MultiMap.{Item, Heap, State, take_out, set_cell, free_all, remove1, remove2}
use rathole_x.MultiMap.Cells.{
  find_by, drop_by, find_by-undrop_by, Unique, drop_by-agree, drop_by-none, find_by-drop_by,
  Unique-drop_by, All-drop_by, All-find_by,
}
use rathole_x.MultiMap.Invariant.{
  Cell, address, address_of, cell_key1, cell_key2, entries, Holds, Repr, take_out-entries,
  Holds-set_cell,
}

module _ {ℓ} {K1 K2 V : Type ℓ} where
  -- The value of the box that a key finds.
  abbrev pub cell_val : Option (Cell K1 K2 V) → Option V
  cell_val none = none
  cell_val (some c) = some (Item.val c.1)

  -- Both tables without a box, which is freed.
  abbrev pub unlinked : Cell K1 K2 V → List (Cell K1 K2 V) → State K1 K2 V → State K1 K2 V
  unlinked c cs s = record {
    map = record { map1 = entries cs; map2 = entries cs };
    heap = set_cell c.0 none s.heap;
  }

  abbrev pub after_remove :
      Option (Cell K1 K2 V) → List (Cell K1 K2 V) → State K1 K2 V → State K1 K2 V
  after_remove none cs s = s
  after_remove (some c) cs s = unlinked c cs s

module _ {ℓ} {K1 K2 V : Type ℓ} ⦃e1 : HasEq K1⦄ ⦃e2 : HasEq K2⦄ {s : State K1 K2 V}
    {cs : List (Cell K1 K2 V)} (r : Repr s cs) where
  unlinked-Repr :
      {K : Type ℓ} ⦃e : HasEq K⦄ (key : Cell K1 K2 V → K) (k : K) {c : Cell K1 K2 V}
      → find_by key k cs ≡ some c
      → Repr (unlinked c (drop_by key k cs) s) (drop_by key k cs)
  unlinked-Repr key k {c} h = record {
    table1 = refl;
    table2 = refl;
    live = Holds-set_cell c.0 none s.heap (drop_by key k cs) gone (All-drop_by key _ k cs r.live);
    free_elsewhere = λ p n. elsewhere p n;
    fresh = All-drop_by key _ k cs r.fresh;
    boxes = Unique-drop_by key address k cs r.boxes;
    keys1 = Unique-drop_by key cell_key1 k cs r.keys1;
    keys2 = Unique-drop_by key cell_key2 k cs r.keys2;
  }
    where
      gone : find_by address c.0 (drop_by key k cs) ≡ none
      gone =
          rw (← drop_by-agree key address k cs {c = c} r.boxes h)
            (find_by-drop_by address c.0 cs r.boxes)

      elsewhere :
          (p : ℕ)
          → find_by address p (drop_by key k cs) ≡ none
          → (set_cell c.0 none s.heap).cell p ≡ none
      elsewhere p n = elim (==-cases c.0 p) [
        | inl (t, _) ↦ rw t
        | inr (t, ne) ↦
            rw t (r.free_elsewhere p (find_by-undrop_by key address k p cs {c = c} h ne n))
      ]

  taken1 :
      (k : K1)
      → take_out s.heap Item.key1 k s.map.map1
        ≡ some (address_of (find_by cell_key1 k cs), entries (drop_by cell_key1 k cs))
  taken1 k = rw r.table1 (take_out-entries s.heap Item.key1 k cs r.live)

  taken2 :
      (k : K2)
      → take_out s.heap Item.key2 k s.map.map2
        ≡ some (address_of (find_by cell_key2 k cs), entries (drop_by cell_key2 k cs))
  taken2 k = rw r.table2 (take_out-entries s.heap Item.key2 k cs r.live)

  -- The box that `remove1` finds goes from both tables and is freed once, after its last use.
  pub remove1-Repr :
      (k : K1)
      → let found = find_by cell_key1 k cs in
        let cs' = drop_by cell_key1 k cs in
        (remove1 k s ≡ some (cell_val found, after_remove found cs' s))
        × Repr (after_remove found cs' s) cs'
  unfolding remove1
  remove1-Repr k = elim (Option-cases (find_by cell_key1 k cs)) [
    | inl e ↦
        rw (e, drop_by-none cell_key1 k cs e)
          (
            rw (taken1 k, e, drop_by-none cell_key1 k cs e)
                (ap (λ t. some (none, record s { map = record { map1 = t; map2 = s.map.map2 } }))
                  (sym r.table1)),
            r,
          )
    | inr (c, e) ↦ rw e (
      rw (
        taken1 k,
        e,
        All-find_by cell_key1 (Holds s.heap) k cs r.live e,
        taken2 (Item.key2 c.1),
        drop_by-agree cell_key1 cell_key2 k cs r.keys2 e,
      ),
      unlinked-Repr cell_key1 k e,
    )
  ]

  -- So does the box that `remove2` finds.
  pub remove2-Repr :
      (k : K2)
      → let found = find_by cell_key2 k cs in
        let cs' = drop_by cell_key2 k cs in
        (remove2 k s ≡ some (cell_val found, after_remove found cs' s))
        × Repr (after_remove found cs' s) cs'
  unfolding remove2
  remove2-Repr k = elim (Option-cases (find_by cell_key2 k cs)) [
    | inl e ↦
        rw (e, drop_by-none cell_key2 k cs e)
          (
            rw (taken2 k, e, drop_by-none cell_key2 k cs e)
                (ap (λ t. some (none, record s { map = record { map1 = s.map.map1; map2 = t } }))
                  (sym r.table2)),
            r,
          )
    | inr (c, e) ↦ rw e (
      rw (
        taken2 k,
        e,
        All-find_by cell_key2 (Holds s.heap) k cs r.live e,
        taken1 (Item.key1 c.1),
        drop_by-agree cell_key2 cell_key1 k cs r.keys1 e,
      ),
      unlinked-Repr cell_key2 k e,
    )
  ]

-- Freeing what the table holds frees every box, and none twice.
module _ {ℓ} {K1 K2 V : Type ℓ} where
  pub free_all-entries :
      (cs : List (Cell K1 K2 V)) (h : Heap K1 K2 V)
      → All (Holds h) cs
      → Unique address cs
      → ((p : ℕ) → find_by address p cs ≡ none → h.cell p ≡ none)
      → (g : Heap K1 K2 V) × (free_all (entries cs) h ≡ some g) × ((p : ℕ) → g.cell p ≡ none)
  unfolding free_all
  free_all-entries [] h a u n = (h, refl, λ p. n p refl)
  free_all-entries (c ∷ cs) h a u n =
      let (g, e, gone) =
        free_all-entries cs (set_cell c.0 none h) (Holds-set_cell c.0 none h cs u.0 a.1) u.1
          elsewhere in
      (g, rw a.0 e, gone)
    where
      elsewhere : (p : ℕ) → find_by address p cs ≡ none → (set_cell c.0 none h).cell p ≡ none
      elsewhere p m = elim (Bool-cases (c.0 == p)) [ inl t ↦ rw t | inr t ↦ rw t (n p (rw t m)) ]
