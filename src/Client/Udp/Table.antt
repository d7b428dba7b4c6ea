-- ===== src/Client/Udp/Table.antt =====
-- The table that the forwarders of src/client.rs stand for, and how the steps of its loops change it.
use mathlib.Core.Path.{subst}
use rathole_x.Base.{
  HasEq, ℕ, suc, ◌≡◌, refl, sym, ◌≢◌, ◌⊎◌, ◌<◌, inl, inr, true, false, none, some, List, [], ◌∷◌,
  if◌then◌else◌, nat_eq, All, arith, ◌==◌, ==-cases, Bool-cases, eq_self,
}
use rathole_x.Base.Dict.{Dict, get, IsMap}
use rathole_x.Base.Net.{SocketAddr, socket_addr_eq}
use rathole_x.Base.Search.{change_by}
use rathole_x.MultiMap.Cells.{find_by, drop_by}
use rathole_x.Client.Udp.{Forwarder}

module _ {K V : Type 0} ⦃e : HasEq K⦄ (key : Forwarder → K) (val : Forwarder → V) where
  abbrev pub index : List Forwarder → Dict K V
  index [] = []
  index (f ∷ fs) = (key f, val f) ∷ index fs

  -- A change that keeps the two fields keeps the table.
  pub index-change_by :
      (i : ℕ) (change : Forwarder → Forwarder) (fs : List Forwarder)
      → ((f : Forwarder) → (key (change f) ≡ key f) × (val (change f) ≡ val f))
      → index (change_by Forwarder.ident i change fs) ≡ index fs
  index-change_by i change [] keep = refl
  index-change_by i change (f ∷ fs) keep = elim (Bool-cases (f.ident == i)) [
    | inl t ↦ rw (t, (keep f).0, (keep f).1) refl
    | inr t ↦ rw (t, index-change_by i change fs keep) refl
  ]

  index-drop_by-none :
      (k : K) (i : ℕ) (fs : List Forwarder)
      → get k (index fs) ≡ none
      → get k (index (drop_by Forwarder.ident i fs)) ≡ none
  unfolding get
  index-drop_by-none k i [] h = refl
  index-drop_by-none k i (f ∷ fs) h = elim (Bool-cases (key f == k)) [
    | inl t ↦ let bad : some (val f) ≡ none = rw t at h in cc
    | inr t ↦
        let later : get k (index fs) ≡ none = rw t at h in
        elim (Bool-cases (f.ident == i)) [
          | inl u ↦ rw u later
          | inr u ↦ rw (u, t) (index-drop_by-none k i fs later)
        ]
  ]

  pub IsMap-drop_by :
      (i : ℕ) (fs : List Forwarder)
      → IsMap (index fs)
      → IsMap (index (drop_by Forwarder.ident i fs))
  IsMap-drop_by i [] u = tt
  IsMap-drop_by i (f ∷ fs) u = elim (Bool-cases (f.ident == i)) [
    | inl t ↦ rw t u.1
    | inr t ↦ rw t (index-drop_by-none (key f) i fs u.0, IsMap-drop_by i fs u.1)
  ]

  -- An entry that is found stands in the table.
  pub find_by-index :
      (i : ℕ) (fs : List Forwarder) {f : Forwarder}
      → find_by Forwarder.ident i fs ≡ some f
      → get (key f) (index fs) ≢ none
  unfolding get
  find_by-index i [] h n = cc
  find_by-index i (g ∷ fs) {f} h n = elim (Bool-cases (g.ident == i)) [
    | inl t ↦
        let same : some g ≡ some f = rw t at h in
        let e : g ≡ f = cc in
        let n' : get (key g) (index (g ∷ fs)) ≡ none =
          subst (λ x. get (key x) (index (g ∷ fs)) ≡ none) (sym e) n in
        let bad : some (val g) ≡ none = rw (eq_self (key g)) at n' in cc
    | inr t ↦ elim (Bool-cases (key g == key f)) [
      | inl u ↦ let bad : some (val g) ≡ none = rw u at n in cc
      | inr u ↦ find_by-index i fs {f = f} (rw t at h) (rw u at n)
    ]
  ]

abbrev pub table : List Forwarder → Dict SocketAddr ℕ
table = index Forwarder.from Forwarder.ident

abbrev pub numbers : List Forwarder → Dict ℕ SocketAddr
numbers = index Forwarder.ident Forwarder.from

-- Numbers in use are below the next one.
abbrev pub Below : ℕ → Forwarder → Type 0
Below n f = f.ident < n

pub All-Below-suc : (n : ℕ) (fs : List Forwarder) → All (Below n) fs → All (Below (suc n)) fs
All-Below-suc n [] a = tt
All-Below-suc n (f ∷ fs) a = (omega (arith, a.0), All-Below-suc n fs a.1)

pub numbers_fresh : (n : ℕ) (fs : List Forwarder) → All (Below n) fs → get n (numbers fs) ≡ none
unfolding get
numbers_fresh n [] a = refl
numbers_fresh n (f ∷ fs) a =
    let t : (f.ident == n) ≡ false = ground (arith, a.0) in rw t (numbers_fresh n fs a.1)

-- Another forwarder, or one of visitor `a`.
abbrev pub IsOf : ℕ → SocketAddr → Forwarder → Type 0
IsOf i a f = (f.ident ≢ i) ⊎ (f.from ≡ a)

numbers-none-IsOf :
    (i : ℕ) (a : SocketAddr) (fs : List Forwarder) → get i (numbers fs) ≡ none → All (IsOf i a) fs
unfolding get
numbers-none-IsOf i a [] h = tt
numbers-none-IsOf i a (f ∷ fs) h = elim (==-cases f.ident i) [
  | inl (t, _) ↦ let bad : some f.from ≡ none = rw t at h in cc
  | inr (t, d) ↦ (inl d, numbers-none-IsOf i a fs (rw t at h))
]

-- The number that the table gives for a visitor is that visitor's forwarder's alone.
pub get-table-IsOf :
    (i : ℕ) (a : SocketAddr) (fs : List Forwarder)
    → IsMap (numbers fs)
    → get a (table fs) ≡ some i
    → All (IsOf i a) fs
unfolding get
get-table-IsOf i a [] u h = cc
get-table-IsOf i a (f ∷ fs) u h = elim (==-cases f.from a) [
  | inl (t, e) ↦
      let same : some f.ident ≡ some i = rw t at h in
      let q : f.ident ≡ i = cc in (inr e, numbers-none-IsOf i a fs (rw (← q) u.0))
  | inr (t, _) ↦ elim (==-cases f.ident i) [
    | inl (_, q) ↦
        let later : get a (table fs) ≡ some i = rw t at h in
        absurd (table-numbers i a fs later (rw (← q) u.0))
    | inr (_, d) ↦ (inl d, get-table-IsOf i a fs u.1 (rw t at h))
  ]
]
  where
    table-numbers :
        (i : ℕ) (a : SocketAddr) (fs : List Forwarder)
        → get a (table fs) ≡ some i
        → get i (numbers fs) ≡ none
        → ⊥
    table-numbers i a [] h n = cc
    table-numbers i a (f ∷ fs) h n = elim (Bool-cases (f.ident == i)) [
      | inl t ↦ let bad : some f.from ≡ none = rw t at n in cc
      | inr t ↦ elim (Bool-cases (f.from == a)) [
        | inl u ↦
            let same : some f.ident ≡ some i = rw u at h in
            let q : f.ident ≡ i = cc in
            let bad : true ≡ false = rw (← q, eq_self f.ident) at t in cc
        | inr u ↦ table-numbers i a fs (rw u at h) (rw t at n)
      ]
    ]

-- The table without a visitor whose forwarder is dropped by its number.
pub get-table-drop_by :
    (i : ℕ) (fs : List Forwarder) {f : Forwarder}
    → IsMap (table fs)
    → find_by Forwarder.ident i fs ≡ some f
    → (a : SocketAddr)
    → get a (table (drop_by Forwarder.ident i fs))
      ≡ (if f.from == a then none else get a (table fs))
unfolding get
get-table-drop_by i [] u h a = cc
get-table-drop_by i (g ∷ fs) {f} u h a = elim (Bool-cases (g.ident == i)) [
  | inl t ↦
      let same : some g ≡ some f = rw t at h in
      let e : g ≡ f = cc in rw (t, ← e) (by_addr (==-cases g.from a))
  | inr t ↦
      let later : find_by Forwarder.ident i fs ≡ some f = rw t at h in
      let ih = get-table-drop_by i fs {f = f} u.1 later a in
      rw (t, ih)
        (by_visitor f (==-cases g.from a) (==-cases f.from a)
          (find_by-index Forwarder.from Forwarder.ident i fs {f = f} later))
]
  where
    by_addr :
        ((((g.from == a) ≡ true) × (g.from ≡ a)) ⊎ (((g.from == a) ≡ false) × (g.from ≢ a)))
        → get a (table fs)
          ≡ (if g.from == a then none else if g.from == a then some g.ident else get a (table fs))
    by_addr (inl (t, e)) = rw (t, ← e) u.0
    by_addr (inr (t, d)) = rw t refl

    by_visitor :
        (f : Forwarder)
        → ((((g.from == a) ≡ true) × (g.from ≡ a)) ⊎ (((g.from == a) ≡ false) × (g.from ≢ a)))
        → ((((f.from == a) ≡ true) × (f.from ≡ a)) ⊎ (((f.from == a) ≡ false) × (f.from ≢ a)))
        → get f.from (table fs) ≢ none
        → (if g.from == a then some g.ident else if f.from == a then none else get a (table fs))
          ≡ (if f.from == a then none else if g.from == a then some g.ident else get a (table fs))
    by_visitor f (inl (t, e)) (inl (v, q)) present = absurd (present (rw (q, ← e) u.0))
    by_visitor f (inl (t, e)) (inr (v, d)) present = rw (t, v) refl
    by_visitor f (inr (t, d)) (inl (v, q)) present = rw (t, v) refl
    by_visitor f (inr (t, d)) (inr (v, q)) present = rw (t, v) refl
