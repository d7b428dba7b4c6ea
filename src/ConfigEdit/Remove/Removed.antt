-- ===== src/ConfigEdit/Remove/Removed.antt =====
-- What `run_remove` of src/config_edit.rs does to the configuration file.
use mathlib.Core.Path.{subst}
use rathole_x.Base.{
  ◌≡◌, inl, inr, refl, sym, ap, ◌∙◌, Bool, true, false, ◌&&◌, Option, none, some, if◌then◌else◌,
  is_some, Text, text_eq, codes, ◌==◌, Bool-cases,
}
use rathole_x.ConfigEdit.{Side, client, server, key, side_beq, Outcome, refused, done, ◌>>=◌}
use rathole_x.ConfigEdit.Toml.{Toml, with_value, contains}
use rathole_x.ConfigEdit.Add.{File, missing, content, locked, services, service_at, load_document}
use rathole_x.ConfigEdit.Add.Replace.{side_beq-eq, service_at-replaced, service_at-before}
use rathole_x.ConfigEdit.Remove.{
  listed, find_listed, taken_out, out_of_services, out_of_fields, out_of_section, removed_from,
  save_document, remove_first, remove_loaded, with_side, run_remove,
}

module _ (toml : Toml) where
  -- A document in which the service of a side is gone, and every other is as before.
  abbrev pub IsWithout : Side → Text → toml.Table → toml.Table → Type 0
  IsWithout side name before doc =
      (other : Side) (j : Text)
      → service_at toml other j doc
        ≡ (if side_beq side other && name == j then none else service_at toml other j before)

  delete-at :
      (side : Side) (k : Text) (before entries doc : toml.Table)
      → ((j : Text) → service_at toml side j before ≡ toml.lookup j entries)
      → ((other : Side) (j : Text)
          → service_at toml other j doc ≡ (
              if side_beq side other
              then toml.lookup j (toml.delete k entries)
              else service_at toml other j before))
      → IsWithout side k before doc
  delete-at side k before entries doc was now other j = elim (Bool-cases (side_beq side other)) [
    | inl t ↦
        let there : service_at toml other j doc ≡ toml.lookup j (toml.delete k entries) =
          rw t at (now other j) in
        let here : service_at toml other j before ≡ toml.lookup j entries =
          subst (λ o. service_at toml o j before ≡ toml.lookup j entries) (side_beq-eq side other t)
            (was j) in
        rw (t, here) (there ∙ toml.lookup-delete k j entries)
    | inr d ↦ rw d (rw d at (now other j))
  ]

  -- What the attempt on a side came to.
  abbrev Tried : Side → Text → toml.Table → Option toml.Table → Type 0
  Tried side name before none = is_some (service_at toml side name before) ≡ false
  Tried side name before (some doc) =
      (is_some (service_at toml side name before) ≡ true) × IsWithout side name before doc

  module _ (side : Side) (name : Text) (before : toml.Table) where
    Tried-services :
        (section item : toml.Item) (fields : toml.Table) (o : Option toml.Table)
        → toml.lookup (key side) before ≡ some section
        → toml.as_table section ≡ some fields
        → toml.lookup (codes "services") fields ≡ some item
        → toml.as_table item ≡ o
        → Tried side name before
            (with_value o (taken_out toml side name before section fields item))
    Tried-services section item fields none h1 h2 h3 h4 = rw (h1, h2, h3, h4) refl
    Tried-services section item fields (some entries) h1 h2 h3 h4 =
        by_test (is_some (toml.lookup name entries)) refl
      where
        entries' : toml.Table
        entries' = toml.delete name entries

        same : service_at toml side name before ≡ toml.lookup name entries
        same =
            service_at-before toml side before fields entries entries' section item h1 h2 h3 h4 name

        by_test :
            (b : Bool)
            → is_some (toml.lookup name entries) ≡ b
            → Tried side name before (
                if b
                then some (
                    toml.update
                      (key side)
                      (toml.with_table section
                        (toml.update (codes "services") (toml.with_table item entries') fields))
                      before)
                else none)
        by_test false q = ap is_some same ∙ q
        by_test true q = (
          ap is_some same ∙ q,
          delete-at side name before entries _
              (service_at-before toml side before fields entries entries' section item h1 h2 h3 h4)
              (service_at-replaced toml side before fields entries entries' section item h1 h2 h3
                h4),
        )

    Tried-fields :
        (section : toml.Item) (fields : toml.Table) (o : Option toml.Item)
        → toml.lookup (key side) before ≡ some section
        → toml.as_table section ≡ some fields
        → toml.lookup (codes "services") fields ≡ o
        → Tried side name before
            (with_value o (out_of_services toml side name before section fields))
    Tried-fields section fields none h1 h2 h3 = rw (h1, h2, h3) refl
    Tried-fields section fields (some item) h1 h2 h3 =
        Tried-services section item fields (toml.as_table item) h1 h2 h3 refl

    Tried-section :
        (section : toml.Item) (o : Option toml.Table)
        → toml.lookup (key side) before ≡ some section
        → toml.as_table section ≡ o
        → Tried side name before (with_value o (out_of_fields toml side name before section))
    Tried-section section none h1 h2 = rw (h1, h2) refl
    Tried-section section (some fields) h1 h2 =
        Tried-fields section fields (toml.lookup (codes "services") fields) h1 h2 refl

    Tried-document :
        (o : Option toml.Item)
        → toml.lookup (key side) before ≡ o
        → Tried side name before (with_value o (out_of_section toml side name before))
    Tried-document none h1 = rw h1 refl
    Tried-document (some section) h1 = Tried-section section (toml.as_table section) h1 refl

    tried : Tried side name before (removed_from toml side name before)
    tried = Tried-document (toml.lookup (key side) before) refl

  listed-service :
      (side : Side) (name : Text) (doc : toml.Table)
      → contains name (listed toml (services toml side doc))
        ≡ is_some (service_at toml side name doc)
  listed-service side name doc = by_services (services toml side doc)
    where
      by_services :
          (o : Option toml.Table)
          → contains name (listed toml o) ≡ is_some (with_value o (toml.lookup name))
      by_services none = refl
      by_services (some t) = toml.contains-names name t

  -- The file after a service was taken out.
  pub record IsRemoved (name : Text) (file : File) (side : Side) (after : File) : Type 0 where
    pub before : toml.Table
    pub doc : toml.Table
    pub loaded : load_document toml file ≡ done before
    pub written : after ≡ content (toml.print doc)
    pub listed_first : find_listed toml name before ≡ some side
    pub without : IsWithout side name before doc

  abbrev pub Ran : Text → File → Outcome (Option Side) × File → Type 0
  Ran name file (refused e, after) = after ≡ file
  Ran name file (done none, after) = ⊥
  Ran name file (done (some side), after) = IsRemoved name file side after

  saved-Ran :
      (writable : Bool) (name : Text) (file : File) (side : Side) (before doc : toml.Table)
      → load_document toml file ≡ done before
      → find_listed toml name before ≡ some side
      → IsWithout side name before doc
      → (o : Option Side) → o ≡ some side
      → Ran name file (with_side toml (done o) (save_document toml writable doc file) file)
  saved-Ran false name file side before doc l f w o q = refl
  saved-Ran true name file side before doc l f w none q = cc
  saved-Ran true name file side before doc l f w (some s) q =
      subst (λ x. IsRemoved name file x (content (toml.print doc))) (sym (same q))
        (record {
          before = before;
          doc = doc;
          loaded = l;
          written = refl;
          listed_first = f;
          without = w;
        })
    where
      same : {a b : Side} → some a ≡ some b → a ≡ b
      same q = cc

  first-Ran :
      (writable : Bool) (name : Text) (file : File) (before : toml.Table)
      → load_document toml file ≡ done before
      → (a b : Option toml.Table) → Tried client name before a
      → Tried server name before b
      → Ran name file (
          with_side toml
            (done (find_listed toml name before))
            (remove_first toml writable file a b)
            file)
  first-Ran writable name file before l (some doc) b (there, w) s =
      let f : find_listed toml name before ≡ some client =
        rw (listed-service client name before, there) refl in
      saved-Ran writable name file client before doc l f w (find_listed toml name before) f
  first-Ran writable name file before l none (some doc) c (there, w) =
      let f : find_listed toml name before ≡ some server =
        rw (listed-service client name before, listed-service server name before, c, there) refl in
      saved-Ran writable name file server before doc l f w (find_listed toml name before) f
  first-Ran writable name file before l none none c s = refl

  loaded-Ran :
      (writable : Bool) (name : Text) (file : File) (o : Outcome toml.Table)
      → load_document toml file ≡ o
      → Ran name file (
          with_side toml
            (o >>= λ doc. done (find_listed toml name doc))
            (remove_loaded toml writable name file o)
            file)
  loaded-Ran writable name file (refused e) h = refl
  loaded-Ran writable name file (done before) h =
      first-Ran writable name file before h (removed_from toml client name before)
        (removed_from toml server name before) (tried client name before) (tried server name before)

  -- Removing a service either reports an error and leaves the file as it was, or writes a document without
  -- it: the service is that of the side that is reported, the first one on which a service of the name
  -- is listed, and every other service, one of the same name on the other side included, is as before.
  pub run_remove-Ran :
      (writable : Bool) (name : Text) (file : File)
      → Ran name file (run_remove toml writable name file)
  unfolding run_remove
  run_remove-Ran writable name missing = refl
  run_remove-Ran writable name (content s) =
      loaded-Ran writable name (content s) (load_document toml (content s)) refl
  run_remove-Ran writable name locked =
      loaded-Ran writable name locked (load_document toml locked) refl
