-- ===== src/ConfigEdit/Sample.antt =====
-- A model of what src/config_edit.rs uses of the toml_edit crate: tables are association lists.
use rathole_x.Base.{
  List, [], ◌∷◌, is_some, ◌||◌, ℕ, ◌≡◌, refl, Option, none, some, [], ◌∷◌, ◌++◌, Text, text_eq,
  ◌==◌, ==-cases, Bool, true, false, if◌then◌else◌, inl, inr, ◌≢◌, sym, ◌∙◌,
}
use rathole_x.ConfigEdit.Toml.{Toml, map_value, contains}

mutual
  pub data Item : Type 0 where
    text : Text → Item
    flag : Bool → Item
    number : ℕ → Item
    table : Fields → Item

  pub data Fields : Type 0 where
    nil : Fields
    field : Text → Item → Fields → Fields

abbrev pub get : Text → Fields → Option Item
get k nil = none
get k (field j x t) = if j == k then some x else get k t

abbrev pub insert : Text → Item → Fields → Fields
insert k x nil = field k x nil
insert k x (field j y t) = if j == k then field k x t else field j y (insert k x t)

pub get-insert :
    (k j : Text) (x : Item) (t : Fields)
    → get j (insert k x t) ≡ (if k == j then some x else get j t)
get-insert k j x nil = refl
get-insert k j x (field i y t) = elim (==-cases i k) [
  | inl (p, e) ↦ rw (p, e) (by_test (k == j))
  | inr (p, d) ↦ rw p (elim (==-cases i j) [
    | inl (q, e) ↦ rw (q, differs d e) refl
    | inr (q, _) ↦ rw q (get-insert k j x t)
  ])
]
  where
    by_test :
        (b : Bool)
        → (if b then some x else get j t) ≡ (if b then some x else if b then some y else get j t)
    by_test true = refl
    by_test false = refl

    differs : i ≢ k → i ≡ j → (k == j) ≡ false
    differs d e = elim (==-cases k j) [ inl (_, f) ↦ absurd (d (e ∙ sym f)) | inr (r, _) ↦ r ]

abbrev pub remove : Text → Fields → Fields
remove k nil = nil
remove k (field j x t) = if j == k then remove k t else field j x (remove k t)

pub get-remove : (k j : Text) (t : Fields) → get j (remove k t) ≡ (if k == j then none else get j t)
get-remove k j nil = by_test (k == j)
  where
    by_test : (b : Bool) → ◌≡◌ {A = Option Item} none (if b then none else none)
    by_test true = refl
    by_test false = refl
get-remove k j (field i x t) = elim (==-cases i k) [
  | inl (p, e) ↦ rw (p, e) (get-remove k j t ∙ by_test (k == j))
  | inr (p, d) ↦ rw p (elim (==-cases i j) [
    | inl (q, e) ↦ rw (q, differs d e) refl
    | inr (q, _) ↦ rw q (get-remove k j t)
  ])
]
  where
    by_test :
        (b : Bool)
        → (if b then none else get j t) ≡ (if b then none else if b then some x else get j t)
    by_test true = refl
    by_test false = refl

    differs : i ≢ k → i ≡ j → (k == j) ≡ false
    differs d e = elim (==-cases k j) [ inl (_, f) ↦ absurd (d (e ∙ sym f)) | inr (r, _) ↦ r ]

abbrev pub names : Fields → List Text
names nil = []
names (field k _ t) = k ∷ names t

pub contains-names : (k : Text) (t : Fields) → contains k (names t) ≡ is_some (get k t)
contains-names k nil = refl
contains-names k (field j x t) = by_test (j == k) (contains-names k t)
  where
    by_test :
        (b : Bool)
        → contains k (names t) ≡ is_some (get k t)
        → (b || contains k (names t)) ≡ is_some (if b then some x else get k t)
    by_test true h = refl
    by_test false h = h

abbrev pub as_text : Item → Option Text
as_text (text s) = some s
as_text (flag _) = none
as_text (number _) = none
as_text (table _) = none

abbrev pub as_table : Item → Option Fields
as_table (text _) = none
as_table (flag _) = none
as_table (number _) = none
as_table (table t) = some t

abbrev pub with_table : Item → Fields → Item
with_table (text s) u = text s
with_table (flag b) u = flag b
with_table (number n) u = number n
with_table (table _) u = table u

pub same_value : {A : Type 0} (o : Option A) → o ≡ map_value (λ a. a) o
same_value none = refl
same_value (some a) = refl

pub as_table-with_table :
    (x : Item) (t u : Fields) → as_table x ≡ some t → as_table (with_table x u) ≡ some u
as_table-with_table (text s) t u h = cc
as_table-with_table (flag b) t u h = cc
as_table-with_table (number n) t u h = cc
as_table-with_table (table t') t u h = refl

-- The names of a table, each on a line.
abbrev pub print_names : Fields → Text
print_names nil = []
print_names (field k _ t) = k ++ 10 ∷ print_names t

-- The crate with a parser that finds one document.
abbrev pub sample_toml : Fields → Toml
sample_toml doc = record {
  Table = Fields;
  Item = Item;
  empty = nil;
  lookup = get;
  put = insert;
  update = insert;
  delete = remove;
  names = names;
  text = text;
  flag = flag;
  number = number;
  table = table;
  as_text = as_text;
  as_table = as_table;
  as_plain_table = as_table;
  with_table = with_table;
  print = print_names;
  parse = λ _. some doc;
  stored = λ t x. x;
  kept = λ t u. u;
  lookup-empty = λ k. refl;
  lookup-put = λ k j x t. get-insert k j x t;
  lookup-update = λ k j x y t h. get-insert k j x t;
  lookup-delete = get-remove;
  contains-names = contains-names;
  as_text-text = λ s. refl;
  as_table-table = λ t. refl;
  as_table-with_table = as_table-with_table;
  as_text-stored = λ t x. refl;
  as_table-stored = λ t x. same_value (as_table x);
  lookup-kept = λ t u k. same_value (get k u);
}
