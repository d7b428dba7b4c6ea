-- ===== src/MultiMap/Insert.antt =====
-- `insert` of src/multi_map.rs under the invariant.
use rathole_x.Base.{
  ℕ, suc, eq_self, ◌<◌, ◌≡◌, refl, HasEq, nat_eq, none, some, List, [], ◌∷◌, ◌++◌, arith, All,
  All-append,
}
use rathole_x.MultiMap.{Item, Heap, State, set_cell, insert, put, ok}
use rathole_x.MultiMap.Cells.{find_by, find_by-snoc_none, Unique-snoc}
use rathole_x.MultiMap.Invariant.{
  Cell, address, cell_key1, cell_key2, entries, entries-snoc, Holds, Repr, put_key-entries,
  Holds-set_cell, find_by-next,
}
use rathole_x.MultiMap.Write.{found1, found2}

fresh-suc {ℓ} :
    {K1 K2 V : Type ℓ} (n : ℕ) (cs : List (Cell K1 K2 V))
    → All (λ c. c.0 < n) cs
    → All (λ c. c.0 < suc n) cs
fresh-suc n [] a = tt
fresh-suc n (c ∷ cs) a = (omega arith, fresh-suc n cs a.1)

module _ {ℓ} {K1 K2 V : Type ℓ} ⦃e1 : HasEq K1⦄ ⦃e2 : HasEq K2⦄ {s : State K1 K2 V}
    {cs : List (Cell K1 K2 V)} (r : Repr s cs) where
  -- The box that the next call of `Box::new` gives.
  abbrev pub boxed : K1 → K2 → V → Cell K1 K2 V
  boxed k1 k2 v = (s.heap.next, record { key1 = k1; key2 = k2; val = v })

  abbrev heap' : K1 → K2 → V → Heap K1 K2 V
  heap' k1 k2 v = record (set_cell s.heap.next (some ((boxed k1 k2 v).1)) s.heap) {
    next = suc s.heap.next;
  }

  abbrev pub after_insert : K1 → K2 → V → State K1 K2 V
  after_insert k1 k2 v = record {
    map = record {
      map1 = entries (cs ++ boxed k1 k2 v ∷ []);
      map2 = entries (cs ++ boxed k1 k2 v ∷ []);
    };
    heap = heap' k1 k2 v;
  }

  module _ (k1 : K1) (k2 : K2) (v : V) where
    live' : All (Holds (heap' k1 k2 v)) cs
    live' =
        Holds-set_cell s.heap.next (some ((boxed k1 k2 v).1)) s.heap cs
          (find_by-next s.heap.next cs r.fresh) r.live

    put-entries :
        {K : Type ℓ} ⦃e : HasEq K⦄ (field : Item K1 K2 V → K)
        → find_by (λ (c : Cell K1 K2 V). field c.1) (field ((boxed k1 k2 v).1)) cs ≡ none
        → put (heap' k1 k2 v) field (record { key = s.heap.next; raw = s.heap.next }) (entries cs)
          ≡ some (entries (cs ++ boxed k1 k2 v ∷ []))
    unfolding put
    put-entries field n = rw (
      eq_self s.heap.next,
      put_key-entries (heap' k1 k2 v) field (field ((boxed k1 k2 v).1))
          (record { key = s.heap.next; raw = s.heap.next }) cs live' n,
      entries-snoc (boxed k1 k2 v) cs,
    )

    pub insert-absent :
        find_by cell_key1 k1 cs ≡ none
        → find_by cell_key2 k2 cs ≡ none
        → (insert k1 k2 v s ≡ some (ok, after_insert k1 k2 v))
          × Repr (after_insert k1 k2 v) (cs ++ boxed k1 k2 v ∷ [])
    unfolding insert
    insert-absent n1 n2 = (
      rw (
        found1 r k1,
        found2 r k2,
        n1,
        n2,
        r.table1,
        r.table2,
        put-entries Item.key1 n1,
        put-entries Item.key2 n2,
      ),
      record {
        table1 = refl;
        table2 = refl;
        live = All-append (Holds (heap' k1 k2 v)) cs (boxed k1 k2 v ∷ []) live' (ground arith, tt);
        free_elsewhere = λ p n.
            let (m, t) = find_by-snoc_none address p (boxed k1 k2 v) cs n in
            rw t (r.free_elsewhere p m);
        fresh =
            All-append _ cs (boxed k1 k2 v ∷ []) (fresh-suc s.heap.next cs r.fresh)
              (omega arith, tt);
        boxes =
            Unique-snoc address (boxed k1 k2 v) cs r.boxes (find_by-next s.heap.next cs r.fresh);
        keys1 = Unique-snoc cell_key1 (boxed k1 k2 v) cs r.keys1 n1;
        keys2 = Unique-snoc cell_key2 (boxed k1 k2 v) cs r.keys2 n2;
      },
    )
