-- ===== src/MultiMap/Cells.antt =====
-- The boxes that the tables of src/multi_map.rs own: addresses with their items, in table order,
-- searched by any key of theirs, the address included.
use rathole_x.Base.{
  true, ◌⊎◌, inl, inr, false, Bool-cases, ◌≡◌, refl, ap, inl, inr, ◌≢◌, ◌==◌, HasEq, Option, none,
  some, List, [], ◌∷◌, ◌++◌, if◌then◌else◌, arith, All,
}

module _ {ℓ κ} {C : Type ℓ} {K : Type κ} ⦃e : HasEq K⦄ (key : C → K) where
  abbrev pub find_by : K → List C → Option C
  find_by k [] = none
  find_by k (c ∷ cs) = if key c == k then some c else find_by k cs

  abbrev pub drop_by : K → List C → List C
  drop_by k [] = []
  drop_by k (c ∷ cs) = if key c == k then cs else c ∷ drop_by k cs

  -- No two entries share a key.
  abbrev pub Unique : List C → Type ℓ
  Unique [] = Unit
  Unique (c ∷ cs) = (find_by (key c) cs ≡ none) × Unique cs

  pub find_by-snoc :
      (k : K) (c : C) (cs : List C)
      → find_by k cs ≡ none
      → (key c == k) ≡ false
      → find_by k (cs ++ c ∷ []) ≡ none
  find_by-snoc k c [] h n = ground arith
  find_by-snoc k c (d ∷ cs) h n = ground (arith, find_by-snoc k c cs)

  pub find_by-snoc_none :
      (k : K) (c : C) (cs : List C)
      → find_by k (cs ++ c ∷ []) ≡ none
      → (find_by k cs ≡ none) × ((key c == k) ≡ false)
  find_by-snoc_none k c [] h = ground arith
  find_by-snoc_none k c (d ∷ cs) h = ground (arith, find_by-snoc_none k c cs)

  pub Unique-snoc :
      (c : C) (cs : List C) → Unique cs → find_by (key c) cs ≡ none → Unique (cs ++ c ∷ [])
  Unique-snoc c [] u h = (refl, tt)
  Unique-snoc c (d ∷ cs) u h = (
    find_by-snoc (key d) c cs u.0
        (ground (arith, e.beq_iff (key c) (key d), e.beq_iff (key d) (key c))),
    Unique-snoc c cs u.1 (ground (arith, e.beq_iff (key d) (key c))),
  )

  -- A key that is found belongs to the entry that is found.
  pub find_by-key : (k : K) (cs : List C) {c : C} → find_by k cs ≡ some c → key c ≡ k
  find_by-key k [] h = cc
  find_by-key k (d ∷ cs) {c} h = ground (arith, e.beq_iff (key d) k, find_by-key k cs {c = c})

  pub find_by-drop_by : (k : K) (cs : List C) → Unique cs → find_by k (drop_by k cs) ≡ none
  find_by-drop_by k [] u = refl
  find_by-drop_by k (c ∷ cs) u = ground (arith, e.beq_iff (key c) k, find_by-drop_by k cs u.1)

  pub find_by-none :
      (k : K) (c : C) (cs : List C)
      → find_by k (c ∷ cs) ≡ none
      → ((key c == k) ≡ false) × (find_by k cs ≡ none)
  find_by-none k c cs h = ground arith

  pub find_by-some :
      (k : K) (x : C) (cs : List C) {c : C}
      → find_by k (x ∷ cs) ≡ some c
      → ((key x == k) ≡ true) × (x ≡ c) ⊎ ((key x == k) ≡ false) × (find_by k cs ≡ some c)
  find_by-some k x cs h = ground arith

  pub drop_by-none : (k : K) (cs : List C) → find_by k cs ≡ none → drop_by k cs ≡ cs
  drop_by-none k [] h = refl
  drop_by-none k (c ∷ cs) h = ground (arith, drop_by-none k cs)

  pub All-drop_by {μ} : (P : C → Type μ) (k : K) (cs : List C) → All P cs → All P (drop_by k cs)
  All-drop_by P k [] a = tt
  All-drop_by P k (c ∷ cs) a = ground (arith, All-drop_by P k cs a.1)

  pub All-find_by {μ} :
      (P : C → Type μ) (k : K) (cs : List C) {c : C} → All P cs → find_by k cs ≡ some c → P c
  All-find_by P k [] a h = absurd (cc)
  All-find_by P k (d ∷ cs) {c} a h = ground (arith, All-find_by P k cs {c = c} a.1)

-- Two keys of the same entries.
module _ {ℓ κ μ} {C : Type ℓ} {K : Type κ} {L : Type μ} ⦃e : HasEq K⦄ ⦃d : HasEq L⦄ (key : C → K)
    (other : C → L) where
  pub find_by-ne :
      (k : K) (l : L) (cs : List C) {c : C}
      → find_by other l cs ≡ none
      → find_by key k cs ≡ some c
      → other c ≢ l
  find_by-ne k l [] n h = cc
  find_by-ne k l (x ∷ cs) {c} n h = elim (Bool-cases (key x == k)) [
    | inl hit ↦ let e : some x ≡ some c = rw hit at h in ground (arith, d.beq_iff (other x) l)
    | inr miss ↦
        let e : find_by key k cs ≡ some c = rw miss at h in
        find_by-ne k l cs {c = c} (ground (arith, d.beq_iff (other x) l)) e
  ]

  -- What one key drops, the other key of the entry drops.
  pub drop_by-agree :
      (k : K) (cs : List C) {c : C}
      → Unique other cs
      → find_by key k cs ≡ some c
      → drop_by other (other c) cs ≡ drop_by key k cs
  drop_by-agree k [] u h = cc
  drop_by-agree k (x ∷ cs) {c} u h = elim (Bool-cases (key x == k)) [
    | inl hit ↦
        let e : some x ≡ some c = rw hit at h in
        rw hit (ground (arith, d.beq_iff (other x) (other c)))
    | inr miss ↦
        let e : find_by key k cs ≡ some c = rw miss at h in
        let n : other c ≢ other x = find_by-ne k (other x) cs {c = c} u.0 e in
        let t : (other x == other c) ≡ false = ground (arith, d.beq_iff (other x) (other c)) in
        rw (miss, t) (ap (◌∷◌ x) (drop_by-agree k cs {c = c} u.1 e))
  ]

  pub find_by-drop_by-none :
      (k : K) (l : L) (cs : List C)
      → find_by other l cs ≡ none
      → find_by other l (drop_by key k cs) ≡ none
  find_by-drop_by-none k l [] h = refl
  find_by-drop_by-none k l (x ∷ cs) h = ground (arith, find_by-drop_by-none k l cs)

  pub find_by-undrop_by :
      (k : K) (l : L) (cs : List C) {c : C}
      → find_by key k cs ≡ some c
      → other c ≢ l
      → find_by other l (drop_by key k cs) ≡ none
      → find_by other l cs ≡ none
  find_by-undrop_by k l [] h n e = cc
  find_by-undrop_by k l (x ∷ cs) {c} h n e = elim (find_by-some key k x cs {c = c} h) [
    | inl (hit, p) ↦
        let rest : find_by other l cs ≡ none = rw hit at e in
        let m : other x ≢ l = rw p n in ground (arith, d.beq_iff (other x) l)
    | inr (miss, r) ↦
        let e' : find_by other l (x ∷ drop_by key k cs) ≡ none = rw miss at e in
        let (t, rest) = find_by-none other l x (drop_by key k cs) e' in
        rw t (find_by-undrop_by k l cs {c = c} r n rest)
  ]

  pub Unique-drop_by : (k : K) (cs : List C) → Unique other cs → Unique other (drop_by key k cs)
  Unique-drop_by k [] u = tt
  Unique-drop_by k (x ∷ cs) u =
      ground (arith, Unique-drop_by k cs u.1, find_by-drop_by-none k (other x) cs u.0)
