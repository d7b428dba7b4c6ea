-- ===== src/MultiMap.antt =====
-- src/multi_map.rs: a hash map that indexes an item by two keys, over raw pointers. Each item is a
-- box on an explicit heap; both tables hold keys that point into the box and the address of the
-- box. `none` is undefined behaviour: a read through a freed pointer, or a second free.
pub mod Cells
pub mod Spec
pub mod Invariant
pub mod Remove
pub mod Insert
pub mod Write
pub mod Refine
pub mod Tests
use rathole_x.Base.{
  ℕ, suc, ◌==◌, HasEq, Bool, true, false, ◌||◌, Option, none, some, List, [], ◌∷◌, if◌then◌else◌,
  is_some, nat_eq, map,
}

-- The boxed tuple `(K1, K2, V)`.
pub record Item {ℓ} (K1 K2 V : Type ℓ) : Type ℓ where
  pub key1 : K1
  pub key2 : K2
  pub val : V

pub record Heap {ℓ} (K1 K2 V : Type ℓ) : Type ℓ where
  pub next : ℕ
  pub cell : ℕ → Option (Item K1 K2 V)

-- One entry of a table: `Key`, the pointer that is hashed and compared, and `RawItem`.
pub record Entry : Type 0 where
  pub key : ℕ
  pub raw : ℕ

pub record MultiMap : Type 0 where
  pub map1 : List Entry
  pub map2 : List Entry

infixl 5 ◌>>=◌
abbrev pub ◌>>=◌ {ℓ κ} : {A : Type ℓ} {B : Type κ} → Option A → (A → Option B) → Option B
none >>= f = none
some a >>= f = f a

abbrev pub push_front {ℓ} : {A : Type ℓ} → Entry → Option (A × List Entry) → Option (A × List Entry)
push_front e none = none
push_front e (some (r, es)) = some (r, e ∷ es)

-- The tables are `HashMap`s whose keys are compared by what they point to.
module _ {ℓ} {K1 K2 V K : Type ℓ} ⦃e : HasEq K⦄ (h : Heap K1 K2 V) (field : Item K1 K2 V → K) where
  -- `HashMap::get`
  pub find : K → List Entry → Option (Option ℕ)
  find k [] = some none
  find k (x ∷ es) = elim (h.cell x.key) [
    | none ↦ none
    | some it ↦ if field it == k then some (some x.raw) else find k es
  ]

  -- `HashMap::remove`
  pub take_out : K → List Entry → Option (Option ℕ × List Entry)
  take_out k [] = some (none, [])
  take_out k (x ∷ es) = elim (h.cell x.key) [
    | none ↦ none
    | some it ↦ if field it == k then some (some x.raw, es) else push_front x (take_out k es)
  ]

  -- `HashMap::insert`: an equal key keeps its place and gets the new value.
  pub put_key : K → Entry → List Entry → Option (List Entry)
  put_key k y [] = some (y ∷ [])
  put_key k y (x ∷ es) = elim (h.cell x.key) [
    | none ↦ none
    | some it ↦
        if field it == k
        then some (record { key = x.key; raw = y.raw } ∷ es)
        else (put_key k y es >>= λ rest. some (x ∷ rest))
  ]

  pub put : Entry → List Entry → Option (List Entry)
  unfolding put_key
  put y es = h.cell y.key >>= λ it. put_key (field it) y es

module _ {ℓ} {K1 K2 V : Type ℓ} where
  abbrev pub set_cell : ℕ → Option (Item K1 K2 V) → Heap K1 K2 V → Heap K1 K2 V
  set_cell p c h = record h { cell = λ q. if p == q then c else h.cell q }

  -- `Box::new` and `Box::into_raw`
  pub alloc : Item K1 K2 V → Heap K1 K2 V → ℕ × Heap K1 K2 V
  alloc it h = (h.next, record (set_cell h.next (some it) h) { next = suc h.next })

  -- `drop(Box::from_raw(p))`
  pub free : ℕ → Heap K1 K2 V → Option (Heap K1 K2 V)
  free p h = h.cell p >>= λ _. some (set_cell p none h)

pub record State {ℓ} (K1 K2 V : Type ℓ) : Type ℓ where
  pub map : MultiMap
  pub heap : Heap K1 K2 V

pub data Inserted {ℓ} (K1 K2 V : Type ℓ) : Type ℓ where
  ok : Inserted K1 K2 V
  err : K1 → K2 → V → Inserted K1 K2 V

module _ {ℓ} {K1 K2 V : Type ℓ} where
  -- `MultiMap::new`, over a heap with no box of its own.
  pub new : State K1 K2 V
  new = record {
    map = record { map1 = []; map2 = [] };
    heap = record { next = 0; cell = λ _. none };
  }

module _ {ℓ} {K1 K2 V : Type ℓ} ⦃e1 : HasEq K1⦄ ⦃e2 : HasEq K2⦄ where
  pub insert : K1 → K2 → V → State K1 K2 V → Option (Inserted K1 K2 V × State K1 K2 V)
  unfolding alloc
  insert k1 k2 v s = do
    in1 ← find s.heap Item.key1 k1 s.map.map1
    in2 ← find s.heap Item.key2 k2 s.map.map2
    let (p, h) = alloc (record { key1 = k1; key2 = k2; val = v }) s.heap
    let stored = do
      map1 ← put h Item.key1 (record { key = p; raw = p }) s.map.map1
      map2 ← put h Item.key2 (record { key = p; raw = p }) s.map.map2
      some (ok, record { map = record { map1 = map1; map2 = map2 }; heap = h })
    if is_some in1 || is_some in2 then some (err k1 k2 v, s) else stored

  -- What the two readers do with the pointer that the table gives.
  abbrev pub deref : State K1 K2 V → Option ℕ → Option (Option V)
  deref s none = some none
  deref s (some p) = s.heap.cell p >>= λ it. some (some it.val)

  pub get1 : K1 → State K1 K2 V → Option (Option V)
  get1 k s = find s.heap Item.key1 k s.map.map1 >>= deref s

  pub get2 : K2 → State K1 K2 V → Option (Option V)
  get2 k s = find s.heap Item.key2 k s.map.map2 >>= deref s

  -- `get1_mut` and `get_mut2` lend `&mut item.2`; the caller's write through it is `f`.
  abbrev pub write_val : (V → V) → State K1 K2 V → Option ℕ → Option (Option V × State K1 K2 V)
  write_val f s none = some (none, s)
  write_val f s (some p) = s.heap.cell p >>= λ it.
      some
        (some it.val, record s { heap = set_cell p (some (record it { val = f it.val })) s.heap })

  pub get1_mut : K1 → (V → V) → State K1 K2 V → Option (Option V × State K1 K2 V)
  get1_mut k f s = find s.heap Item.key1 k s.map.map1 >>= write_val f s

  pub get_mut2 : K2 → (V → V) → State K1 K2 V → Option (Option V × State K1 K2 V)
  get_mut2 k f s = find s.heap Item.key2 k s.map.map2 >>= write_val f s

  abbrev pub unlink2 : State K1 K2 V → Option ℕ × List Entry → Option (Option V × State K1 K2 V)
  unlink2 s (none, map1) = some (none, record s { map = record { map1 = map1; map2 = s.map.map2 } })
  unlink2 s (some p, map1) = do
    it ← s.heap.cell p
    out ← take_out s.heap Item.key2 it.key2 s.map.map2
    h ← free p s.heap
    some (some it.val, record { map = record { map1 = map1; map2 = out.1 }; heap = h })

  pub remove1 : K1 → State K1 K2 V → Option (Option V × State K1 K2 V)
  unfolding free
  remove1 k s = take_out s.heap Item.key1 k s.map.map1 >>= unlink2 s

  abbrev pub unlink1 : State K1 K2 V → Option ℕ × List Entry → Option (Option V × State K1 K2 V)
  unlink1 s (none, map2) = some (none, record s { map = record { map1 = s.map.map1; map2 = map2 } })
  unlink1 s (some p, map2) = do
    it ← s.heap.cell p
    out ← take_out s.heap Item.key1 it.key1 s.map.map1
    h ← free p s.heap
    some (some it.val, record { map = record { map1 = out.1; map2 = map2 }; heap = h })

  pub remove2 : K2 → State K1 K2 V → Option (Option V × State K1 K2 V)
  unfolding free
  remove2 k s = take_out s.heap Item.key2 k s.map.map2 >>= unlink1 s

module _ {ℓ} {K1 K2 V : Type ℓ} where
  -- `drain().for_each(drop(Box::from_raw(..)))`
  pub free_all : List Entry → Heap K1 K2 V → Option (Heap K1 K2 V)
  unfolding free
  free_all [] h = some h
  free_all (x ∷ es) h = free x.raw h >>= free_all es

  -- `Drop::drop`
  pub drop_map : State K1 K2 V → Option (Heap K1 K2 V)
  unfolding free_all
  drop_map s = free_all s.map.map2 s.heap
