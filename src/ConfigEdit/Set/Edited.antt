-- ===== src/ConfigEdit/Set/Edited.antt =====
-- The document behind `run_set` of src/config_edit.rs.
use mathlib.Core.Path.{subst}
use rathole_x.Base.{
  ◌≡◌, refl, sym, ap, ◌∙◌, Bool, true, false, Option, none, some, Text, text_eq, codes,
}
use rathole_x.ConfigEdit.{
  Side, client, server, key, not_a_table, new_section_needs_address, Outcome, done, ◌>>=◌,
  or_refuse, >>=-eq-done, or_refuse-eq-done,
}
use rathole_x.ConfigEdit.Toml.{Toml, with_value, text_in}
use rathole_x.ConfigEdit.Add.{File, services}
use rathole_x.ConfigEdit.Add.Checks.{Kept}
use rathole_x.ConfigEdit.Args.{SetArgs}
use rathole_x.ConfigEdit.Set.{
  edit_section, new_section, address_arg, with_section, set_section, resolve_side,
}
use rathole_x.ConfigEdit.Set.Kept.{
  Says, edit_section-services, edit_section-remote_addr, edit_section-bind_addr,
  edit_section-default_token,
}

abbrev pub opposite : Side → Side
opposite client = server
opposite server = client

-- Whether `--client` or `--server` was given, they name the side.
abbrev pub Flagged : Bool → Bool → Side → Type 0
Flagged true _ side = side ≡ client
Flagged false true side = side ≡ server
Flagged false false side = Unit

done-eq {ℓ} : {A : Type ℓ} {a b : A} → done a ≡ done b → a ≡ b
done-eq h = cc

pub resolve_side-Flagged :
    (toml : Toml) (c s : Bool) (file : File) (side : Side)
    → resolve_side toml c s file ≡ done side
    → Flagged c s side
resolve_side-Flagged toml true false file side h = sym (done-eq h)
resolve_side-Flagged toml false true file side h = sym (done-eq h)
resolve_side-Flagged toml true true file side h = cc
resolve_side-Flagged toml false false file side h = tt

module _ (toml : Toml) where
  -- The text of a field of a section.
  abbrev pub setting : Side → Text → toml.Table → Option Text
  setting side k doc =
      with_value (with_value (toml.lookup (key side) doc) toml.as_table) (text_in toml k)

  abbrev services_of : Option toml.Item → Option toml.Table
  services_of o =
      with_value (with_value o toml.as_table)
        (λ section. with_value (toml.lookup (codes "services") section) toml.as_table)

  -- The document after the fields of a section were set.
  pub record IsEdited (a : SetArgs) (side : Side) (before doc : toml.Table) : Type 0 where
    pub same_section :
        toml.lookup (key (opposite side)) doc ≡ toml.lookup (key (opposite side)) before
    pub same_services : Kept (services toml side before) (services toml side doc)
    pub remote_addr : Says a.remote_addr (setting side (codes "remote_addr") doc)
    pub bind_addr : Says a.bind_addr (setting side (codes "bind_addr") doc)
    pub default_token : Says a.default_token (setting side (codes "default_token") doc)

  update-opposite :
      (side : Side) (x y : toml.Item) (t : toml.Table)
      → toml.lookup (key side) t ≡ some y
      → toml.lookup (key (opposite side)) (toml.update (key side) x t)
        ≡ toml.lookup (key (opposite side)) t
  update-opposite client x y t h = toml.lookup-update (codes "client") (codes "server") x y t h
  update-opposite server x y t h = toml.lookup-update (codes "server") (codes "client") x y t h

  update-own :
      (side : Side) (x y : toml.Item) (t : toml.Table)
      → toml.lookup (key side) t ≡ some y
      → toml.lookup (key side) (toml.update (key side) x t) ≡ some x
  update-own client x y t h = toml.lookup-update (codes "client") (codes "client") x y t h
  update-own server x y t h = toml.lookup-update (codes "server") (codes "server") x y t h

  put-opposite :
      (side : Side) (x : toml.Item) (t : toml.Table)
      → toml.lookup (key (opposite side)) (toml.put (key side) x t)
        ≡ toml.lookup (key (opposite side)) t
  put-opposite client x t = toml.lookup-put (codes "client") (codes "server") x t
  put-opposite server x t = toml.lookup-put (codes "server") (codes "client") x t

  kept-refl {ℓ} : {A : Type ℓ} (o p : Option A) → p ≡ o → Kept o p
  kept-refl none p h = tt
  kept-refl (some x) p h = h

  -- A side whose section is missing has no services.
  pub record IsStarted (side : Side) (before doc : toml.Table) : Type 0 where
    pub same_section :
        toml.lookup (key (opposite side)) doc ≡ toml.lookup (key (opposite side)) before
    pub same_services : Kept (services toml side before) (services toml side doc)

  pub with_section-IsStarted :
      (side : Side) (a : SetArgs) (before : toml.Table) {doc : toml.Table}
      → with_section toml side a before ≡ done doc
      → IsStarted side before doc
  with_section-IsStarted side a before {doc} = by_item (toml.lookup (key side) before) refl
    where
      made : Option toml.Item → Outcome toml.Table
      made (some _) = done before
      made none =
          or_refuse (new_section_needs_address side) (address_arg toml side a) >>= λ address.
          done (toml.put (key side) (toml.table (new_section toml side address)) before)

      by_item :
          (o : Option toml.Item)
          → toml.lookup (key side) before ≡ o
          → made o ≡ done doc
          → IsStarted side before doc
      by_item (some x) q h =
          subst (IsStarted side before) (done-eq h)
            (record { same_section = refl; same_services = kept-refl _ _ refl })
      by_item none q h =
          let (address, given, e) =
            >>=-eq-done (or_refuse (new_section_needs_address side) (address_arg toml side a)) _
              h in
          subst (IsStarted side before) (done-eq e) (record {
            same_section = put-opposite side (toml.table (new_section toml side address)) before;
            same_services =
                subst
                  (λ o. Kept (services_of o) (
                    services toml side
                      (toml.put (key side) (toml.table (new_section toml side address)) before)))
                  (sym q) tt;
          })

  pub set_section-IsEdited :
      (private_key : Text) (side : Side) (a : SetArgs) (before start : toml.Table)
      {doc : toml.Table}
      → IsStarted side before start
      → set_section toml private_key side a start ≡ done doc
      → IsEdited a side before doc
  set_section-IsEdited private_key side a before start {doc} i h =
      let (item, s1, h1) =
        >>=-eq-done (or_refuse (not_a_table side) (toml.lookup (key side) start)) _ h in
      let (section, s2, h2) =
        >>=-eq-done (or_refuse (not_a_table side) (toml.as_table item)) _ h1 in
      let (section', s3, h3) = >>=-eq-done (edit_section toml private_key a section) _ h2 in
      let here = or_refuse-eq-done (not_a_table side) _ s1 in
      let fields = or_refuse-eq-done (not_a_table side) _ s2 in
      let x = toml.with_table item section' in
      let read : with_value (toml.lookup (key side) (toml.update (key side) x start)) toml.as_table
          ≡ some section' =
        ap (λ o. with_value o toml.as_table) (update-own side x item start here)
        ∙ toml.as_table-with_table item section section' fields in
      let was : with_value (toml.lookup (key side) start) toml.as_table ≡ some section =
        ap (λ o. with_value o toml.as_table) here ∙ fields in
      let services_in : Option toml.Table → Option toml.Table =
        (λ o. with_value o (λ t. with_value (toml.lookup (codes "services") t) toml.as_table)) in
      let same : services toml side (toml.update (key side) x start) ≡ services toml side start =
        ap services_in read
        ∙ ap (λ o. with_value o toml.as_table)
            (edit_section-services toml private_key a section section' s3)
        ∙ sym (ap services_in was) in
      subst (IsEdited a side before) (done-eq h3) (record {
        same_section = update-opposite side x item start here ∙ i.same_section;
        same_services = kept-then (services toml side before) i.same_services same;
        remote_addr =
            subst (Says a.remote_addr)
              (sym (ap (λ o. with_value o (text_in toml (codes "remote_addr"))) read))
              (edit_section-remote_addr toml private_key a section section' s3);
        bind_addr =
            subst (Says a.bind_addr)
              (sym (ap (λ o. with_value o (text_in toml (codes "bind_addr"))) read))
              (edit_section-bind_addr toml private_key a section section' s3);
        default_token =
            subst (Says a.default_token)
              (sym (ap (λ o. with_value o (text_in toml (codes "default_token"))) read))
              (edit_section-default_token toml private_key a section section' s3);
      })
    where
      kept-then : (o : Option toml.Table) {p q : Option toml.Table} → Kept o p → q ≡ p → Kept o q
      kept-then none k e = tt
      kept-then (some x) k e = e ∙ k
