-- ===== src/MultiMap/Write.antt =====
-- The readers and the mutable borrows of src/multi_map.rs under the invariant.
use mathlib.Core.Path.{subst}
use rathole_x.Base.{
  ℕ, ◌<◌, ◌≡◌, refl, HasEq, ◌==◌, nat_eq, Option, none, some, List, [], ◌∷◌, arith, All,
  Option-cases, Bool-cases, inl, inr, if◌then◌else◌, ◌≢◌,
}
use rathole_x.MultiMap.{Item, Heap, State, set_cell, get1, get2, get1_mut, get_mut2, find}
use rathole_x.MultiMap.Cells.{find_by, find_by-ne, find_by-none, find_by-some, Unique, All-find_by}
use rathole_x.MultiMap.Invariant.{
  Cell, address, address_of, cell_key1, cell_key2, entries, Holds, Repr, find-entries,
  Holds-set_cell,
}
use rathole_x.MultiMap.Remove.{cell_val}

module _ {ℓ} {K1 K2 V : Type ℓ} where
  abbrev pub written : (V → V) → Cell K1 K2 V → Cell K1 K2 V
  written f c = (c.0, record (c.1) { val = f (Item.val c.1) })

module _ {ℓ} {K1 K2 V K : Type ℓ} ⦃e : HasEq K⦄ (key : Cell K1 K2 V → K) (k : K) (f : V → V) where
  abbrev pub modify_cell : List (Cell K1 K2 V) → List (Cell K1 K2 V)
  modify_cell [] = []
  modify_cell (c ∷ cs) = if key c == k then written f c ∷ cs else c ∷ modify_cell cs

  entries-modify : (cs : List (Cell K1 K2 V)) → entries (modify_cell cs) ≡ entries cs
  entries-modify [] = refl
  entries-modify (c ∷ cs) = elim (Bool-cases (key c == k)) [
    | inl hit ↦ rw hit
    | inr miss ↦ rw (miss, entries-modify cs)
  ]

  modify-none : (cs : List (Cell K1 K2 V)) → find_by key k cs ≡ none → modify_cell cs ≡ cs
  modify-none [] h = refl
  modify-none (c ∷ cs) h = ground (arith, modify-none cs)

  fresh-modify :
      (n : ℕ) (cs : List (Cell K1 K2 V))
      → All (λ c. c.0 < n) cs
      → All (λ c. c.0 < n) (modify_cell cs)
  fresh-modify n [] a = tt
  fresh-modify n (c ∷ cs) a = ground (arith, fresh-modify n cs a.1)

  live-modify :
      (h : Heap K1 K2 V) (cs : List (Cell K1 K2 V)) {c : Cell K1 K2 V}
      → Unique address cs
      → All (Holds h) cs
      → find_by key k cs ≡ some c
      → All (Holds (set_cell c.0 (some ((written f c).1)) h)) (modify_cell cs)
  live-modify h [] u a e = cc
  live-modify h (x ∷ cs) {c} u a e = elim (find_by-some key k x cs {c = c} e) [
    | inl (hit, p) ↦ rw hit (
        subst (λ y. All (Holds (set_cell y.0 (some ((written f y).1)) h)) (written f x ∷ cs)) p
          (ground arith, Holds-set_cell x.0 (some ((written f x).1)) h cs u.0 a.1))
    | inr (miss, r) ↦
        let n : c.0 ≢ x.0 = find_by-ne key address k x.0 cs {c = c} u.0 r in
        rw miss (ground arith, live-modify h cs {c = c} u.1 a.1 r)
  ]

module _ {ℓ μ} {K1 K2 V K : Type ℓ} {L : Type μ} ⦃e : HasEq K⦄ ⦃d : HasEq L⦄
    (key : Cell K1 K2 V → K) (k : K) (f : V → V) (other : Cell K1 K2 V → L)
    (same : (c : Cell K1 K2 V) → other (written f c) ≡ other c) where
  modify-find_none :
      (l : L) (cs : List (Cell K1 K2 V))
      → find_by other l cs ≡ none
      → find_by other l (modify_cell key k f cs) ≡ none
  modify-find_none l [] h = refl
  modify-find_none l (c ∷ cs) h = elim (Bool-cases (key c == k)) [
    | inl hit ↦ let (n, rest) = find_by-none other l c cs h in rw (hit, same c, n) rest
    | inr miss ↦
        let (n, rest) = find_by-none other l c cs h in rw (miss, n) (modify-find_none l cs rest)
  ]

  find_none-modify :
      (l : L) (cs : List (Cell K1 K2 V))
      → find_by other l (modify_cell key k f cs) ≡ none
      → find_by other l cs ≡ none
  find_none-modify l [] h = refl
  find_none-modify l (c ∷ cs) h = elim (Bool-cases (key c == k)) [
    | inl hit ↦
        let h' : find_by other l (written f c ∷ cs) ≡ none = rw hit at h in
        let (n, rest) = find_by-none other l (written f c) cs h' in rw (← same c, n) rest
    | inr miss ↦
        let h' : find_by other l (c ∷ modify_cell key k f cs) ≡ none = rw miss at h in
        let (n, rest) = find_by-none other l c (modify_cell key k f cs) h' in
        rw n (find_none-modify l cs rest)
  ]

  modify-Unique :
      (cs : List (Cell K1 K2 V)) → Unique other cs → Unique other (modify_cell key k f cs)
  modify-Unique [] u = tt
  modify-Unique (c ∷ cs) u = elim (Bool-cases (key c == k)) [
    | inl hit ↦ rw (hit, same c) u
    | inr miss ↦ rw miss (modify-find_none (other c) cs u.0, modify-Unique cs u.1)
  ]

module _ {ℓ} {K1 K2 V : Type ℓ} ⦃e1 : HasEq K1⦄ ⦃e2 : HasEq K2⦄ {s : State K1 K2 V}
    {cs : List (Cell K1 K2 V)} (r : Repr s cs) where
  pub found1 :
      (k : K1) → find s.heap Item.key1 k s.map.map1 ≡ some (address_of (find_by cell_key1 k cs))
  found1 k = rw r.table1 (find-entries s.heap Item.key1 k cs r.live)

  pub found2 :
      (k : K2) → find s.heap Item.key2 k s.map.map2 ≡ some (address_of (find_by cell_key2 k cs))
  found2 k = rw r.table2 (find-entries s.heap Item.key2 k cs r.live)

  pub get1-Repr : (k : K1) → get1 k s ≡ some (cell_val (find_by cell_key1 k cs))
  unfolding get1
  get1-Repr k = elim (Option-cases (find_by cell_key1 k cs)) [
    | inl e ↦ rw (found1 k, e)
    | inr (c, e) ↦ rw (found1 k, e, All-find_by cell_key1 (Holds s.heap) k cs r.live e)
  ]

  pub get2-Repr : (k : K2) → get2 k s ≡ some (cell_val (find_by cell_key2 k cs))
  unfolding get2
  get2-Repr k = elim (Option-cases (find_by cell_key2 k cs)) [
    | inl e ↦ rw (found2 k, e)
    | inr (c, e) ↦ rw (found2 k, e, All-find_by cell_key2 (Holds s.heap) k cs r.live e)
  ]

  abbrev pub after_write : (V → V) → Option (Cell K1 K2 V) → State K1 K2 V
  after_write f none = s
  after_write f (some c) = record s { heap = set_cell c.0 (some ((written f c).1)) s.heap }

  written-Repr :
      {K : Type ℓ} ⦃e : HasEq K⦄ (key : Cell K1 K2 V → K) (k : K) (f : V → V)
      → Repr (after_write f (find_by key k cs)) (modify_cell key k f cs)
  written-Repr key k f = elim (Option-cases (find_by key k cs)) [
    | inl e ↦ rw (e, modify-none key k f cs e) r
    | inr (c, e) ↦ rw e (record {
      table1 = rw (entries-modify key k f cs) r.table1;
      table2 = rw (entries-modify key k f cs) r.table2;
      live = live-modify key k f s.heap cs r.boxes r.live e;
      free_elsewhere = λ p n.
          let m = find_none-modify key k f address (λ c. refl) p cs n in
          let ne : c.0 ≢ p = find_by-ne key address k p cs {c = c} m e in
          ground (arith, r.free_elsewhere p m);
      fresh = fresh-modify key k f s.heap.next cs r.fresh;
      boxes = modify-Unique key k f address (λ c. refl) cs r.boxes;
      keys1 = modify-Unique key k f cell_key1 (λ c. refl) cs r.keys1;
      keys2 = modify-Unique key k f cell_key2 (λ c. refl) cs r.keys2;
    })
  ]

  -- A write through the borrow changes the value of the box that the key finds, and nothing else.
  pub get1_mut-Repr :
      (k : K1) (f : V → V)
      → let found = find_by cell_key1 k cs in
        (get1_mut k f s ≡ some (cell_val found, after_write f found))
        × Repr (after_write f found) (modify_cell cell_key1 k f cs)
  unfolding get1_mut
  get1_mut-Repr k f = (
    elim (Option-cases (find_by cell_key1 k cs)) [
      | inl e ↦ rw (found1 k, e)
      | inr (c, e) ↦ rw (found1 k, e, All-find_by cell_key1 (Holds s.heap) k cs r.live e)
    ],
    written-Repr cell_key1 k f,
  )

  pub get_mut2-Repr :
      (k : K2) (f : V → V)
      → let found = find_by cell_key2 k cs in
        (get_mut2 k f s ≡ some (cell_val found, after_write f found))
        × Repr (after_write f found) (modify_cell cell_key2 k f cs)
  unfolding get_mut2
  get_mut2-Repr k f = (
    elim (Option-cases (find_by cell_key2 k cs)) [
      | inl e ↦ rw (found2 k, e)
      | inr (c, e) ↦ rw (found2 k, e, All-find_by cell_key2 (Holds s.heap) k cs r.live e)
    ],
    written-Repr cell_key2 k f,
  )
