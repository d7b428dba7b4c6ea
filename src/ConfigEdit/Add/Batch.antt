-- ===== src/ConfigEdit/Add/Batch.antt =====
-- What `run_add_batch` of src/config_edit.rs does to the configuration file.
use mathlib.Core.Path.{subst}
use rathole_x.Base.{
  ℕ, suc, ◌+◌, ◌≡◌, ◌≢◌, refl, ap, ◌∙◌, Bool, true, false, Option, some, List, [], ◌∷◌, ◌++◌, Text,
  text_eq, codes, All, All-append, length, length-append, arith,
}
use rathole_x.Config
use rathole_x.ConfigEdit.{Side, client, server, Outcome, refused, done, >>=-eq-done}
use rathole_x.ConfigEdit.Toml.{Toml}
use rathole_x.ConfigEdit.Spec.{PendingService, parse_spec, valid_host_port}
use rathole_x.ConfigEdit.Spec.Entry.{IsReady, address_key, spec_to_pending-IsReady}
use rathole_x.ConfigEdit.Spec.Sound.{parse_spec-IsSpec}
use rathole_x.ConfigEdit.Add.{
  File, content, Disk, Added, service_at, load_document, insert_all, check_batch, check_role,
  with_server_section, check_exists, added, all_added, is_missing, text_of, checked, parse_all,
  plan, or_default, save_with_skeleton, write_valid, reported, save, run_add_batch,
}
use rathole_x.ConfigEdit.Add.Comments.{IgnoresComments, validate-text_of}
use rathole_x.ConfigEdit.Add.Insert.{field_at, Stands, service_at-insert_all, insert_all-Stands}
use rathole_x.ConfigEdit.Add.Checks.{
  Kept, all-kept, check_batch-Apart, check_exists-among, with_server_section-kept,
}

module _ (toml : Toml) where
  module _ (socket_addr : Text → Bool) (fresh : ℕ → Text) where
    parse_all-IsReady :
        (side : Side) (n : ℕ) (specs : List Text) {ps : List (PendingService toml)}
        → parse_all toml socket_addr fresh side n specs ≡ done ps
        → All (IsReady toml socket_addr) ps × (length ps ≡ length specs)
    parse_all-IsReady side n [] {ps} h =
        subst (λ qs. All (IsReady toml socket_addr) qs × (length qs ≡ 0)) (same h) (tt, refl)
      where
        same : {a b : List (PendingService toml)} → done a ≡ done b → a ≡ b
        same h = cc
    parse_all-IsReady side n (spec ∷ specs) {ps} h =
        let (s, parsed, h1) = >>=-eq-done (parse_spec socket_addr spec side) _ h in
        let (qs, rest, h2) =
          >>=-eq-done (parse_all toml socket_addr fresh side (suc n) specs) _ h1 in
        let (ready, counted) = parse_all-IsReady side (suc n) specs rest in
        subst (λ qs. All (IsReady toml socket_addr) qs × (length qs ≡ suc (length specs))) (same h2)
          (
            (
              spec_to_pending-IsReady toml socket_addr s side (fresh n)
                  (parse_spec-IsSpec socket_addr spec side s parsed),
              ready,
            ),
            ap suc counted,
          )
      where
        same : {a b : List (PendingService toml)} → done a ≡ done b → a ≡ b
        same h = cc

    -- A service that was reported as added stands in the document, with a valid address and a token.
    pub record IsServed (doc : toml.Table) (a : Added) : Type 0 where
      pub named : a.name ≢ []
      pub address : Text
      pub has_address : field_at toml a.side a.name (address_key a.side) doc ≡ some address
      pub address_valid : valid_host_port socket_addr address ≡ true
      pub token : Text
      pub has_token : field_at toml a.side a.name (codes "token") doc ≡ some token

    all-IsServed :
        (doc : toml.Table) (ps : List (PendingService toml))
        → All (IsReady toml socket_addr) ps
        → All (Stands toml doc) ps
        → All (IsServed doc) (all_added toml ps)
    all-IsServed doc [] a b = tt
    all-IsServed doc (p ∷ ps) a b = (one a.0 b.0, all-IsServed doc ps a.1 b.1)
      where
        one : IsReady toml socket_addr p → Stands toml doc p → IsServed doc (added toml p)
        one r s = record {
          named = r.named;
          address = r.address;
          has_address = s (address_key p.side) ∙ r.has_address;
          address_valid = r.address_valid;
          token = r.token;
          has_token = s (codes "token") ∙ r.has_token;
        }

    length-all_added : (ps : List (PendingService toml)) → length (all_added toml ps) ≡ length ps
    length-all_added [] = refl
    length-all_added (p ∷ ps) = ap suc (length-all_added ps)

    record IsPlanned (client_specs server_specs : List Text) (file : File)
        (ps : List (PendingService toml)) (doc : toml.Table) : Type 0 where
      pub before : toml.Table
      pub loaded : load_document toml file ≡ done before
      pub ready : All (IsReady toml socket_addr) ps
      pub counted : length ps ≡ length client_specs + length server_specs
      pub stand : All (Stands toml doc) ps
      pub kept :
          (side : Side) (name : Text)
          → Kept (service_at toml side name before) (service_at toml side name doc)

    final-eq :
        {ps qs : List (PendingService toml)} {a b : toml.Table}
        → ◌≡◌ {A = Outcome (List (PendingService toml) × toml.Table)} (done (ps, a)) (done (qs, b))
        → (ps ≡ qs) × (a ≡ b)
    final-eq h = (cc, cc)

    checked-IsPlanned :
        (client_specs server_specs : List Text) (file : File) (all ps : List (PendingService toml))
        {doc : toml.Table}
        → All (IsReady toml socket_addr) all
        → length all ≡ length client_specs + length server_specs
        → checked toml all file ≡ done (ps, doc)
        → IsPlanned client_specs server_specs file ps doc
    checked-IsPlanned client_specs server_specs file all ps {doc} ready counted h =
        let (_, distinct, h1) = >>=-eq-done (check_batch toml [] all) _ h in
        let (_, role, h2) =
          >>=-eq-done (check_role toml all (or_default toml (load_document toml file))) _ h1 in
        let (before, loaded, h3) = >>=-eq-done (load_document toml file) _ h2 in
        let (_, absent, h4) =
          >>=-eq-done (check_exists toml all (with_server_section toml all before)) _ h3 in
        let (final, inserted, h5) =
          >>=-eq-done (insert_all toml all (with_server_section toml all before)) _ h4 in
        let apart = (check_batch-Apart toml [] all distinct).1 in
        let (same_services, same_doc) = final-eq h5 in
        subst (λ qs. IsPlanned client_specs server_specs file qs doc) same_services
          (subst (IsPlanned client_specs server_specs file all) same_doc (record {
            before = before;
            loaded = loaded;
            ready = ready;
            counted = counted;
            stand = insert_all-Stands toml all (with_server_section toml all before) apart inserted;
            kept = λ side name.
                all-kept toml (service_at toml side name before) (service_at toml side name final)
                  (λ x there.
                    let still = with_server_section-kept toml all before side name x there in
                    service_at-insert_all toml all (with_server_section toml all before) inserted
                      side name
                      (check_exists-among toml all (with_server_section toml all before) absent side
                        name x still)
                    ∙ still);
          }))

    plan-IsPlanned :
        (client_specs server_specs : List Text) (file : File) (ps : List (PendingService toml))
        {doc : toml.Table}
        → plan toml socket_addr fresh client_specs server_specs file ≡ done (ps, doc)
        → IsPlanned client_specs server_specs file ps doc
    plan-IsPlanned client_specs server_specs file ps h =
        let (clients, a, h1) =
          >>=-eq-done (parse_all toml socket_addr fresh client 0 client_specs) _ h in
        let (servers, b, h2) =
          >>=-eq-done (parse_all toml socket_addr fresh server (length client_specs) server_specs) _
            h1 in
        let (ready_c, count_c) = parse_all-IsReady client 0 client_specs a in
        let (ready_s, count_s) = parse_all-IsReady server (length client_specs) server_specs b in
        checked-IsPlanned client_specs server_specs file (clients ++ servers) ps
          (All-append (IsReady toml socket_addr) clients servers ready_c ready_s)
          (omega (arith, length-append clients servers, count_c, count_s)) h2

    module _ (parse_config : Text → Option Config.Config) where
      -- The file after a batch was added: one valid text, with every service that was reported and every
      -- one that was there.
      pub record IsAdded (client_specs server_specs : List Text) (disk : Disk) (out : List Added)
          (after : Disk) : Type 0 where
        pub before : toml.Table
        pub doc : toml.Table
        pub loaded : load_document toml disk.file ≡ done before
        pub text : Text
        pub text_of_doc : text ≡ text_of toml (is_missing toml disk.file) doc
        pub file : after.file ≡ content text
        pub writes : after.writes ≡ disk.writes ++ text ∷ []
        pub valid : Config.validate parse_config text ≡ Config.ok tt
        pub counted : length out ≡ length client_specs + length server_specs
        pub served : All (IsServed doc) out
        pub kept :
            (side : Side) (name : Text)
            → Kept (service_at toml side name before) (service_at toml side name doc)

      -- The two ends of `run_add_batch`.
      abbrev pub Ran : List Text → List Text → Disk → Outcome (List Added) × Disk → Type 0
      Ran client_specs server_specs disk (refused e, after) = after ≡ disk
      Ran client_specs server_specs disk (done out, after) =
          IsAdded client_specs server_specs disk out after

      save-Ran :
          (client_specs server_specs : List Text) (writable : Bool) (disk : Disk)
          (ps : List (PendingService toml)) (doc : toml.Table)
          → IgnoresComments toml parse_config
          → IsPlanned client_specs server_specs disk.file ps doc
          → Ran client_specs server_specs disk (
              reported toml parse_config
                (all_added toml ps)
                (save_with_skeleton toml parse_config writable doc disk))
      save-Ran client_specs server_specs writable disk ps doc ignores i =
          by_check writable (Config.validate parse_config (toml.print doc)) refl
        where
          by_check :
              (b : Bool) (v : Config.Result (Unit {0}))
              → Config.validate parse_config (toml.print doc) ≡ v
              → Ran client_specs server_specs disk (
                  reported toml parse_config (all_added toml ps) (
                    write_valid toml parse_config b
                      (text_of toml (is_missing toml disk.file) doc)
                      v
                      disk))
          by_check b (Config.err e) q = refl
          by_check false (Config.ok _) q = refl
          by_check true (Config.ok u) q = record {
            before = i.before;
            doc = doc;
            loaded = i.loaded;
            text = text_of toml (is_missing toml disk.file) doc;
            text_of_doc = refl;
            file = refl;
            writes = refl;
            valid = validate-text_of toml parse_config (is_missing toml disk.file) doc ignores ∙ q;
            counted = length-all_added ps ∙ i.counted;
            served = all-IsServed doc ps i.ready i.stand;
            kept = i.kept;
          }

      -- Adding a batch of services either reports an error and writes nothing, or writes exactly one text, which
      -- the runtime's validation accepts and which is the document, behind the skeleton if there was no
      -- file: as many services are reported as specifications were given, each stands in the document
      -- under a name that is not empty with a valid address of its side and a token, and every service
      -- that was in the file before is still there unchanged. The TOML parser ignores comments and
      -- empty lines before a document.
      pub run_add_batch-Ran :
          (writable : Bool) (client_specs server_specs : List Text) (disk : Disk)
          → IgnoresComments toml parse_config
          → Ran client_specs server_specs disk (
              run_add_batch toml parse_config socket_addr fresh writable client_specs server_specs
                disk)
      unfolding run_add_batch
      run_add_batch-Ran writable client_specs server_specs disk ignores =
          by_plan (plan toml socket_addr fresh client_specs server_specs disk.file) refl
        where
          by_plan :
              (o : Outcome (List (PendingService toml) × toml.Table))
              → plan toml socket_addr fresh client_specs server_specs disk.file ≡ o
              → Ran client_specs server_specs disk (save toml parse_config writable disk o)
          by_plan (refused e) q = refl
          by_plan (done (ps, doc)) q =
              save-Ran client_specs server_specs writable disk ps doc ignores
                (plan-IsPlanned client_specs server_specs disk.file ps q)
