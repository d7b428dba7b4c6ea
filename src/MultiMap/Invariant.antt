-- ===== src/MultiMap/Invariant.antt =====
-- The invariant of src/multi_map.rs, and what the tables do under it.
use rathole_x.Base.{
  ℕ, ◌<◌, ◌≡◌, refl, ap, HasEq, ◌==◌, nat_eq, Option, none, some, List, [], ◌∷◌, ◌++◌, arith, All,
  Bool-cases, inl, inr,
}
use rathole_x.MultiMap.{Item, Heap, Entry, State, find, take_out, put_key, set_cell}
use rathole_x.MultiMap.Cells.{find_by, drop_by, Unique}

-- A live box: its address and its content.
abbrev pub Cell {ℓ} : (K1 K2 V : Type ℓ) → Type ℓ
Cell K1 K2 V = ℕ × Item K1 K2 V

module _ {ℓ} {K1 K2 V : Type ℓ} where
  abbrev pub address : Cell K1 K2 V → ℕ
  address c = c.0

  abbrev pub item : Cell K1 K2 V → Item K1 K2 V
  item c = c.1

  abbrev pub cell_key1 : Cell K1 K2 V → K1
  cell_key1 c = Item.key1 c.1

  abbrev pub cell_key2 : Cell K1 K2 V → K2
  cell_key2 c = Item.key2 c.1

  abbrev pub entries : List (Cell K1 K2 V) → List Entry
  entries [] = []
  entries (c ∷ cs) = record { key = c.0; raw = c.0 } ∷ entries cs

  abbrev pub address_of : Option (Cell K1 K2 V) → Option ℕ
  address_of none = none
  address_of (some c) = some c.0

  abbrev pub Holds : Heap K1 K2 V → Cell K1 K2 V → Type ℓ
  Holds h c = h.cell c.0 ≡ some c.1

  -- Both tables point to the same live boxes, each box under its own keys, no key and no
  -- box twice, and no other address is allocated.
  pub record Repr ⦃e1 : HasEq K1⦄ ⦃e2 : HasEq K2⦄ (s : State K1 K2 V) (cs : List (Cell K1 K2 V))
      : Type ℓ where
    pub table1 : s.map.map1 ≡ entries cs
    pub table2 : s.map.map2 ≡ entries cs
    pub live : All (Holds s.heap) cs
    pub free_elsewhere : (p : ℕ) → find_by address p cs ≡ none → s.heap.cell p ≡ none
    pub fresh : All (λ c. c.0 < s.heap.next) cs
    pub boxes : Unique address cs
    pub keys1 : Unique cell_key1 cs
    pub keys2 : Unique cell_key2 cs

module _ {ℓ} {K1 K2 V K : Type ℓ} ⦃e : HasEq K⦄ (h : Heap K1 K2 V) (field : Item K1 K2 V → K) where
  abbrev by_field : Cell K1 K2 V → K
  by_field c = field c.1

  -- A look-up reads live boxes only, and finds what the boxes hold.
  pub find-entries :
      (k : K) (cs : List (Cell K1 K2 V))
      → All (Holds h) cs
      → find h field k (entries cs) ≡ some (address_of (find_by by_field k cs))
  unfolding find
  find-entries k [] a = refl
  find-entries k (c ∷ cs) a = elim (Bool-cases (field c.1 == k)) [
    | inl hit ↦ rw (a.0, hit)
    | inr miss ↦ rw (a.0, miss) (find-entries k cs a.1)
  ]

  pub take_out-entries :
      (k : K) (cs : List (Cell K1 K2 V))
      → All (Holds h) cs
      → take_out h field k (entries cs)
        ≡ some (address_of (find_by by_field k cs), entries (drop_by by_field k cs))
  unfolding take_out
  take_out-entries k [] a = refl
  take_out-entries k (c ∷ cs) a = elim (Bool-cases (field c.1 == k)) [
    | inl hit ↦ rw (a.0, hit)
    | inr miss ↦ rw (a.0, miss, take_out-entries k cs a.1)
  ]

  pub put_key-entries :
      (k : K) (y : Entry) (cs : List (Cell K1 K2 V))
      → All (Holds h) cs
      → find_by by_field k cs ≡ none
      → put_key h field k y (entries cs) ≡ some (entries cs ++ y ∷ [])
  unfolding put_key
  put_key-entries k y [] a n = refl
  put_key-entries k y (c ∷ cs) a n = elim (Bool-cases (field c.1 == k)) [
    | inl hit ↦ let bad : some c ≡ none = rw hit at n in cc
    | inr miss ↦
        let rest : find_by by_field k cs ≡ none = rw miss at n in
        rw (a.0, miss, put_key-entries k y cs a.1 rest)
  ]

module _ {ℓ} {K1 K2 V : Type ℓ} where
  pub entries-snoc :
      (c : Cell K1 K2 V) (cs : List (Cell K1 K2 V))
      → entries (cs ++ c ∷ []) ≡ entries cs ++ record { key = c.0; raw = c.0 } ∷ []
  entries-snoc c [] = refl
  entries-snoc c (d ∷ cs) = ap (◌∷◌ (record { key = d.0; raw = d.0 })) (entries-snoc c cs)

  -- A write at an address that no box of the list has keeps the boxes.
  pub Holds-set_cell :
      (p : ℕ) (o : Option (Item K1 K2 V)) (h : Heap K1 K2 V) (cs : List (Cell K1 K2 V))
      → find_by address p cs ≡ none
      → All (Holds h) cs
      → All (Holds (set_cell p o h)) cs
  Holds-set_cell p o h [] n a = tt
  Holds-set_cell p o h (c ∷ cs) n a = ground (arith, Holds-set_cell p o h cs)

  -- The next address is new.
  pub find_by-next :
      (n : ℕ) (cs : List (Cell K1 K2 V)) → All (λ c. c.0 < n) cs → find_by address n cs ≡ none
  find_by-next n [] a = refl
  find_by-next n (c ∷ cs) a = ground (arith, find_by-next n cs a.1)
