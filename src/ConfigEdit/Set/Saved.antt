-- ===== src/ConfigEdit/Set/Saved.antt =====
-- What `run_set` of src/config_edit.rs does to the configuration file.
use mathlib.Core.Path.{subst}
use rathole_x.Base.{◌≡◌, refl, ◌∙◌, [], ◌∷◌, ◌++◌, Bool, true, false, not, Option, Text, text_eq}
use rathole_x.Config
use rathole_x.ConfigEdit.{
  Side, client, server, no_fields, Outcome, refused, done, refuse_if, >>=-eq-done,
  ensure_role_allows,
}
use rathole_x.ConfigEdit.Toml.{Toml}
use rathole_x.ConfigEdit.Add.{
  content, Disk, has_section, load_document, is_missing, text_of, save_with_skeleton, write_valid,
}
use rathole_x.ConfigEdit.Add.Comments.{IgnoresComments, validate-text_of}
use rathole_x.ConfigEdit.Args.{SetArgs, any_field, check_side, check_values}
use rathole_x.ConfigEdit.Set.{
  with_section, set_section, resolve_side, plan_set, told, save_set, run_set,
}
use rathole_x.ConfigEdit.Set.Edited.{
  Flagged, resolve_side-Flagged, IsEdited, with_section-IsStarted, set_section-IsEdited,
}

module _ (toml : Toml) where
  module _ (socket_addr proxy_url : Text → Bool) (private_key : Text)
      (parse_config : Text → Option Config.Config) where
    -- The file after the fields of a section were set.
    pub record IsUpdated (a : SetArgs) (disk : Disk) (side : Side) (after : Disk) : Type 0 where
      pub before : toml.Table
      pub doc : toml.Table
      pub loaded : load_document toml disk.file ≡ done before
      pub text : Text
      pub text_of_doc : text ≡ text_of toml (is_missing toml disk.file) doc
      pub file : after.file ≡ content text
      pub writes : after.writes ≡ disk.writes ++ text ∷ []
      pub valid : Config.validate parse_config text ≡ Config.ok tt
      pub flagged : Flagged a.client_flag a.server_flag side
      pub allowed :
          ensure_role_allows (has_section toml client before) (has_section toml server before) side
          ≡ done tt
      pub edited : IsEdited toml a side before doc

    abbrev pub Ran : SetArgs → Disk → Outcome Side × Disk → Type 0
    Ran a disk (refused e, after) = after ≡ disk
    Ran a disk (done side, after) = IsUpdated a disk side after

    save-Ran :
        (writable : Bool) (a : SetArgs) (disk : Disk) (side : Side) (before doc : toml.Table)
        → IgnoresComments toml parse_config
        → load_document toml disk.file ≡ done before
        → Flagged a.client_flag a.server_flag side
        → ensure_role_allows (has_section toml client before) (has_section toml server before) side
          ≡ done tt
        → IsEdited toml a side before doc
        → Ran a disk (
            told toml socket_addr proxy_url private_key parse_config side
              (save_with_skeleton toml parse_config writable doc disk))
    save-Ran writable a disk side before doc ignores loaded flagged allowed edited =
        by_check writable (Config.validate parse_config (toml.print doc)) refl
      where
        by_check :
            (b : Bool) (v : Config.Result (Unit {0}))
            → Config.validate parse_config (toml.print doc) ≡ v
            → Ran a disk (
                told toml socket_addr proxy_url private_key parse_config side (
                  write_valid toml parse_config b
                    (text_of toml (is_missing toml disk.file) doc)
                    v
                    disk))
        by_check b (Config.err e) q = refl
        by_check false (Config.ok _) q = refl
        by_check true (Config.ok u) q = record {
          before = before;
          doc = doc;
          loaded = loaded;
          text = text_of toml (is_missing toml disk.file) doc;
          text_of_doc = refl;
          file = refl;
          writes = refl;
          valid = validate-text_of toml parse_config (is_missing toml disk.file) doc ignores ∙ q;
          flagged = flagged;
          allowed = allowed;
          edited = edited;
        }

    plan-Ran :
        (writable : Bool) (a : SetArgs) (disk : Disk) (o : Outcome (Side × toml.Table))
        → IgnoresComments toml parse_config
        → plan_set toml socket_addr proxy_url private_key a disk.file ≡ o
        → Ran a disk (save_set toml socket_addr proxy_url private_key parse_config writable disk o)
    plan-Ran writable a disk (refused e) ignores h = refl
    plan-Ran writable a disk (done (side, doc)) ignores h =
        let (chosen, s1, h1) =
          >>=-eq-done (resolve_side toml a.client_flag a.server_flag disk.file) _ h in
        let (_, s2, h2) = >>=-eq-done (refuse_if (not (any_field a)) no_fields) _ h1 in
        let (_, s3, h3) = >>=-eq-done (check_side chosen a) _ h2 in
        let (_, s4, h4) = >>=-eq-done (check_values socket_addr proxy_url a) _ h3 in
        let (before, loaded, h5) = >>=-eq-done (load_document toml disk.file) _ h4 in
        let (u, allowed, h6) =
          >>=-eq-done
            (ensure_role_allows (has_section toml client before) (has_section toml server before)
              chosen)
            _ h5 in
        let (start, s5, h7) = >>=-eq-done (with_section toml chosen a before) _ h6 in
        let (final, s6, h8) = >>=-eq-done (set_section toml private_key chosen a start) _ h7 in
        let same : chosen ≡ side = pair-side h8 in
        let same_doc : final ≡ doc = pair-doc h8 in
        save-Ran writable a disk side before doc ignores loaded
          (subst (Flagged a.client_flag a.server_flag) same
            (resolve_side-Flagged toml a.client_flag a.server_flag disk.file chosen s1))
          (subst
            (λ s.
              ensure_role_allows (has_section toml client before) (has_section toml server before) s
              ≡ done tt)
            same allowed)
          (subst (λ s. IsEdited toml a s before doc) same
            (subst (IsEdited toml a chosen before) same_doc (
              set_section-IsEdited toml private_key chosen a before start
                (with_section-IsStarted toml chosen a before s5) s6)))
      where
        pair-side :
            {s r : Side} {t u : toml.Table}
            → ◌≡◌ {A = Outcome (Side × toml.Table)} (done (s, t)) (done (r, u))
            → s ≡ r
        pair-side h = cc

        pair-doc :
            {s r : Side} {t u : toml.Table}
            → ◌≡◌ {A = Outcome (Side × toml.Table)} (done (s, t)) (done (r, u))
            → t ≡ u
        pair-doc h = cc

    -- Setting the fields of a section either reports an error and writes nothing, or writes exactly one
    -- text, which the runtime's validation accepts and which is the document, behind the skeleton if
    -- there was no file. The section that is set is on the side of the flag if one was given and of
    -- the role that the file declares: the section has the addresses and the default token that were
    -- asked for, its services and the other section are unchanged. The TOML parser
    -- ignores comments and empty lines before a document.
    pub run_set-Ran :
        (writable : Bool) (a : SetArgs) (disk : Disk)
        → IgnoresComments toml parse_config
        → Ran a disk (run_set toml socket_addr proxy_url private_key parse_config writable a disk)
    unfolding run_set
    run_set-Ran writable a disk ignores =
        plan-Ran writable a disk (plan_set toml socket_addr proxy_url private_key a disk.file)
          ignores refl
