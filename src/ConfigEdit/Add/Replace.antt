-- ===== src/ConfigEdit/Add/Replace.antt =====
-- Writing the services of a side back into a document of src/config_edit.rs.
use mathlib.Core.Path.{subst}
use rathole_x.Base.{
  ◌≡◌, inl, inr, refl, ap, ◌∙◌, Bool, true, false, Option, some, if◌then◌else◌, Text, text_eq,
  codes, ◌==◌, eq_self, Bool-cases,
}
use rathole_x.ConfigEdit.{Side, client, server, key, side_beq}
use rathole_x.ConfigEdit.Toml.{Toml, with_value}
use rathole_x.ConfigEdit.Add.{services, service_at}

key-same : (a b : Side) → (key a == key b) ≡ side_beq a b
key-same client client = refl
key-same client server = refl
key-same server client = refl
key-same server server = refl

pub side_beq-eq : (a b : Side) → side_beq a b ≡ true → a ≡ b
side_beq-eq client client h = refl
side_beq-eq client server h = cc
side_beq-eq server client h = cc
side_beq-eq server server h = refl

chosen : {A : Type 0} (b : Bool) (x y : A) → b ≡ true → (if b then x else y) ≡ x
chosen true x y h = refl
chosen false x y h = cc

module _ (toml : Toml) where
  -- The tables of a side, from the item of its section.
  abbrev within : Option toml.Item → Option toml.Table
  within o =
      with_value (with_value o toml.as_table)
        (λ section. with_value (toml.lookup (codes "services") section) toml.as_table)

  module _ (side : Side) (doc fields entries entries' : toml.Table) (section item : toml.Item)
      (h1 : toml.lookup (key side) doc ≡ some section) (h2 : toml.as_table section ≡ some fields)
      (h3 : toml.lookup (codes "services") fields ≡ some item)
      (h4 : toml.as_table item ≡ some entries) where
    abbrev pub inner : toml.Table
    inner = toml.update (codes "services") (toml.with_table item entries') fields

    abbrev pub after : toml.Table
    after = toml.update (key side) (toml.with_table section inner) doc

    services-before : services toml side doc ≡ some entries
    services-before = rw (h1, h2, h3, h4) refl

    services-after : services toml side after ≡ some entries'
    services-after =
        ap within (
          toml.lookup-update (key side) (key side) (toml.with_table section inner) section doc h1
          ∙ chosen (key side == key side) _ _ (eq_self (key side)))
        ∙ ap (λ o. with_value o (λ s. with_value (toml.lookup (codes "services") s) toml.as_table))
            (toml.as_table-with_table section fields inner h2)
        ∙ ap (λ o. with_value o toml.as_table)
            (toml.lookup-update (codes "services") (codes "services")
              (toml.with_table item entries') item fields h3)
        ∙ toml.as_table-with_table item entries entries' h4

    services-other :
        (other : Side)
        → side_beq side other ≡ false
        → services toml other after ≡ services toml other doc
    services-other other d = ap within (
        toml.lookup-update (key side) (key other) (toml.with_table section inner) section doc h1
        ∙ rw (key-same side other, d) refl)

    pub service_at-replaced :
        (other : Side) (j : Text)
        → service_at toml other j after
          ≡ (if side_beq side other then toml.lookup j entries' else service_at toml other j doc)
    service_at-replaced other j = elim (Bool-cases (side_beq side other)) [
      | inl t ↦
          let e : side ≡ other = side_beq-eq side other t in
          rw t (
            subst (λ o. service_at toml o j after ≡ toml.lookup j entries') e
              (rw services-after refl))
      | inr d ↦ rw d (ap (λ o. with_value o (toml.lookup j)) (services-other other d))
    ]

    pub service_at-before : (j : Text) → service_at toml side j doc ≡ toml.lookup j entries
    service_at-before j = rw services-before refl
