-- ===== src/ConfigEdit/Toml.antt =====
-- What src/config_edit.rs uses of the toml_edit crate: documents, tables and items.
use rathole_x.Base.{
  List, [], ◌∷◌, false, true, ◌||◌, is_some, ℕ, ◌≡◌, refl, ap, ◌∙◌, Bool, true, false, Option, none,
  some, if◌then◌else◌, Text, text_eq, ◌==◌,
}

abbrev pub with_value {ℓ κ} : {A : Type ℓ} {B : Type κ} → Option A → (A → Option B) → Option B
with_value none f = none
with_value (some a) f = f a

abbrev pub map_value : {A B : Type 0} → (A → B) → Option A → Option B
map_value f none = none
map_value f (some a) = some (f a)

abbrev pub contains : Text → List Text → Bool
contains k [] = false
contains k (j ∷ js) = j == k || contains k js

-- A `DocumentMut` is its root table, and a table stands for a `TableLike`. `insert` is
-- `TableLike::insert`; an inline table keeps what it is given in inline form, which `stored` and
-- `kept` say. `update` writes through the reference of `get_mut`, and `with_table` through that of
-- `as_table_like_mut`. `names` are the keys that `iter` gives.
pub record Toml : Type 1 where
  pub Table : Type 0
  pub Item : Type 0
  pub empty : Table
  pub lookup : Text → Table → Option Item
  pub put : Text → Item → Table → Table
  pub update : Text → Item → Table → Table
  pub delete : Text → Table → Table
  pub names : Table → List Text
  pub text : Text → Item
  pub flag : Bool → Item
  pub number : ℕ → Item
  pub table : Table → Item
  pub as_text : Item → Option Text
  pub as_table : Item → Option Table
  -- `Item::as_table`, which an inline table is not.
  pub as_plain_table : Item → Option Table
  pub with_table : Item → Table → Item
  pub print : Table → Text
  pub parse : Text → Option Table
  pub stored : Table → Item → Item
  pub kept : Table → Table → Table
  pub lookup-empty : (k : Text) → lookup k empty ≡ none
  pub lookup-put :
      (k j : Text) (x : Item) (t : Table)
      → lookup j (put k x t) ≡ (if k == j then some (stored t x) else lookup j t)
  pub lookup-update :
      (k j : Text) (x y : Item) (t : Table)
      → lookup k t ≡ some y
      → lookup j (update k x t) ≡ (if k == j then some x else lookup j t)
  pub lookup-delete :
      (k j : Text) (t : Table) → lookup j (delete k t) ≡ (if k == j then none else lookup j t)
  pub contains-names : (k : Text) (t : Table) → contains k (names t) ≡ is_some (lookup k t)
  pub as_text-text : (s : Text) → as_text (text s) ≡ some s
  pub as_table-table : (t : Table) → as_table (table t) ≡ some t
  pub as_table-with_table :
      (x : Item) (t u : Table) → as_table x ≡ some t → as_table (with_table x u) ≡ some u
  pub as_text-stored : (t : Table) (x : Item) → as_text (stored t x) ≡ as_text x
  pub as_table-stored :
      (t : Table) (x : Item) → as_table (stored t x) ≡ map_value (kept t) (as_table x)
  pub lookup-kept :
      (t u : Table) (k : Text) → lookup k (kept t u) ≡ map_value (stored t) (lookup k u)

module _ (toml : Toml) where
  -- The text of a key of a table.
  abbrev pub text_in : Text → toml.Table → Option Text
  text_in k t = with_value (toml.lookup k t) toml.as_text

  pub text_in-put :
      (k j s : Text) (t : toml.Table)
      → text_in j (toml.put k (toml.text s) t) ≡ (if k == j then some s else text_in j t)
  text_in-put k j s t =
      ap (λ o. with_value o toml.as_text) (toml.lookup-put k j (toml.text s) t) ∙ by_test (k == j)
    where
      by_test :
          (b : Bool)
          → with_value
              (if b then some (toml.stored t (toml.text s)) else toml.lookup j t)
              toml.as_text
            ≡ (if b then some s else text_in j t)
      by_test true = toml.as_text-stored t (toml.text s) ∙ toml.as_text-text s
      by_test false = refl

  pub text_in-kept : (t u : toml.Table) (k : Text) → text_in k (toml.kept t u) ≡ text_in k u
  text_in-kept t u k =
      ap (λ o. with_value o toml.as_text) (toml.lookup-kept t u k) ∙ by_value (toml.lookup k u)
    where
      by_value :
          (o : Option toml.Item)
          → with_value (map_value (toml.stored t) o) toml.as_text ≡ with_value o toml.as_text
      by_value none = refl
      by_value (some x) = toml.as_text-stored t x
