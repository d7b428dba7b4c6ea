-- ===== src/ConfigEdit/Add/Insert.antt =====
-- What inserting services does to a document of src/config_edit.rs.
use mathlib.Core.Path.{subst}
use rathole_x.Base.{
  ◌≡◌, inl, inr, refl, sym, ap, ◌∙◌, Bool, true, false, ◌&&◌, ◌||◌, Option, some, List, [], ◌∷◌,
  if◌then◌else◌, Text, text_eq, codes, ◌==◌, eq_self, All, Bool-cases,
}
use rathole_x.ConfigEdit.{
  Side, client, server, key, side_beq, not_a_table, done, or_refuse, >>=-eq-done, or_refuse-eq-done,
}
use rathole_x.ConfigEdit.Toml.{Toml, with_value, text_in, text_in-kept}
use rathole_x.ConfigEdit.Spec.{PendingService}
use rathole_x.ConfigEdit.Add.Replace.{side_beq-eq, service_at-replaced, service_at-before}
use rathole_x.ConfigEdit.Add.{service_at, insert_pending, insert_all, is_pending, among}

module _ (toml : Toml) where
  put-at :
      (side : Side) (k : Text) (x : toml.Item) (doc entries r : toml.Table)
      → ((j : Text) → service_at toml side j doc ≡ toml.lookup j entries)
      → ((other : Side) (j : Text)
          → service_at toml other j r ≡ (
              if side_beq side other
              then toml.lookup j (toml.put k x entries)
              else service_at toml other j doc))
      → (other : Side) (j : Text)
      → service_at toml other j r ≡ (
          if side_beq side other && k == j
          then some (toml.stored entries x)
          else service_at toml other j doc)
  put-at side k x doc entries r before after other j = elim (Bool-cases (side_beq side other)) [
    | inl t ↦
        let now : service_at toml other j r ≡ toml.lookup j (toml.put k x entries) =
          rw t at (after other j) in
        let was : service_at toml other j doc ≡ toml.lookup j entries =
          subst (λ o. service_at toml o j doc ≡ toml.lookup j entries) (side_beq-eq side other t)
            (before j) in
        rw (t, was) (now ∙ toml.lookup-put k j x entries)
    | inr d ↦ rw d (rw d at (after other j))
  ]

  -- The service is there under its name, and every other service is as before.
  pub service_at-insert_pending :
      (p : PendingService toml) (doc : toml.Table) {r : toml.Table}
      → insert_pending toml p doc ≡ done r
      → (t : toml.Table) × ((side : Side) (name : Text)
          → service_at toml side name r ≡ (
              if is_pending toml side name p
              then some (toml.stored t (toml.table p.entry))
              else service_at toml side name doc))
  service_at-insert_pending p doc {r} h =
      let (section, a, h1) =
        >>=-eq-done (or_refuse (not_a_table p.side) (toml.lookup (key p.side) doc)) _ h in
      let (fields, b, h2) =
        >>=-eq-done (or_refuse (not_a_table p.side) (toml.as_table section)) _ h1 in
      let (item, c, h3) =
        >>=-eq-done (or_refuse (not_a_table p.side) (toml.lookup (codes "services") fields)) _ h2 in
      let (entries, d, h4) =
        >>=-eq-done (or_refuse (not_a_table p.side) (toml.as_table item)) _ h3 in
      let q1 = or_refuse-eq-done (not_a_table p.side) _ a in
      let q2 = or_refuse-eq-done (not_a_table p.side) _ b in
      let q3 = or_refuse-eq-done (not_a_table p.side) _ c in
      let q4 = or_refuse-eq-done (not_a_table p.side) _ d in
      let entries' = toml.put p.name (toml.table p.entry) entries in
      (
        entries,
        λ side name.
            ap (service_at toml side name) (sym (same h4))
            ∙ put-at p.side p.name (toml.table p.entry) doc entries _
                (service_at-before toml p.side doc fields entries entries' section item q1 q2 q3 q4)
                (service_at-replaced toml p.side doc fields entries entries' section item q1 q2 q3
                  q4)
                side name,
      )
    where
      same : {a b : toml.Table} → done a ≡ done b → a ≡ b
      same h = cc

  -- The text of a field of a service.
  abbrev pub field_at : Side → Text → Text → toml.Table → Option Text
  field_at side name k doc =
      with_value (with_value (service_at toml side name doc) toml.as_table) (text_in toml k)

  field-stored :
      (t entry : toml.Table) (k : Text)
      → with_value
          (with_value (some (toml.stored t (toml.table entry))) toml.as_table)
          (text_in toml k)
        ≡ text_in toml k entry
  field-stored t entry k =
      rw (toml.as_table-stored t (toml.table entry), toml.as_table-table entry)
        (text_in-kept toml t entry k)

  is_pending_self : (p : PendingService toml) → is_pending toml p.side p.name p ≡ true
  is_pending_self p = by_side p.side
    where
      by_side : (side : Side) → (side_beq side side && p.name == p.name) ≡ true
      by_side client = eq_self p.name
      by_side server = eq_self p.name

  -- No two services of a batch have one side and name.
  abbrev pub Apart : List (PendingService toml) → Type 0
  Apart [] = Unit
  Apart (p ∷ ps) = (among toml p.side p.name ps ≡ false) × Apart ps

  -- The services stand in the document, with the fields of their entries.
  abbrev pub Stands : toml.Table → PendingService toml → Type 0
  Stands doc p = (k : Text) → field_at p.side p.name k doc ≡ text_in toml k p.entry

  pub service_at-insert_all :
      (ps : List (PendingService toml)) (doc : toml.Table) {r : toml.Table}
      → insert_all toml ps doc ≡ done r
      → (side : Side) (name : Text) → among toml side name ps ≡ false
      → service_at toml side name r ≡ service_at toml side name doc
  service_at-insert_all [] doc h side name q = ap (service_at toml side name) (sym (same h))
    where
      same : {a b : toml.Table} → done a ≡ done b → a ≡ b
      same h = cc
  service_at-insert_all (p ∷ ps) doc h side name q =
      let (next, one, later) = >>=-eq-done (insert_pending toml p doc) (insert_all toml ps) h in
      let (t, found) = service_at-insert_pending p doc one in
      let (a, b) = neither (is_pending toml side name p) (among toml side name ps) q in
      service_at-insert_all ps next later side name b ∙ found side name ∙ rw a refl
    where
      neither : (a b : Bool) → (a || b) ≡ false → (a ≡ false) × (b ≡ false)
      neither true b h = cc
      neither false b h = (refl, h)

  pub insert_all-Stands :
      (ps : List (PendingService toml)) (doc : toml.Table) {r : toml.Table}
      → Apart ps
      → insert_all toml ps doc ≡ done r
      → All (Stands r) ps
  insert_all-Stands [] doc a h = tt
  insert_all-Stands (p ∷ ps) doc {r} a h =
      let (next, one, later) = >>=-eq-done (insert_pending toml p doc) (insert_all toml ps) h in
      let (t, found) = service_at-insert_pending p doc one in
      let there : service_at toml p.side p.name r ≡ some (toml.stored t (toml.table p.entry)) =
        service_at-insert_all ps next later p.side p.name a.0
        ∙ found p.side p.name
        ∙ rw (is_pending_self p) refl in
      (
        λ k.
            ap (λ o. with_value (with_value o toml.as_table) (text_in toml k)) there
            ∙ field-stored t p.entry k,
        insert_all-Stands ps next a.1 later,
      )
