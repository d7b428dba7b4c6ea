-- ===== src/ConfigEdit/Set.antt =====
-- `run_set` of src/config_edit.rs and its arguments in src/cli.rs: the global fields of a section.
-- `proxy_url` says whether a text parses as a URL, and `private_key` is the key that is generated.
pub mod Kept
pub mod Edited
pub mod Saved
pub mod Tests
use rathole_x.Base.{
  ℕ, ◌≡◌, refl, Bool, true, false, not, ◌&&◌, ◌||◌, Option, none, some, List, [], ◌∷◌,
  if◌then◌else◌, is_some, is_none, leb, Text, text_eq, codes,
}
use rathole_x.Config
use rathole_x.ConfigEdit.{
  Side, client, server, key, Error, both_sections, side_flags_exclusive, side_required, no_fields,
  wrong_side, invalid_address, invalid_proxy, new_section_needs_address, number_too_large,
  transport_not_a_table, not_a_table, Outcome, refused, done, ◌>>=◌, ◌>>◌, refuse_if, or_refuse,
  ensure_role_allows,
}
use rathole_x.ConfigEdit.Toml.{Toml, with_value}
use rathole_x.ConfigEdit.Spec.{valid_host_port}
use rathole_x.ConfigEdit.Add.{
  File, Disk, has_section, load_document, is_missing, save_with_skeleton,
}
use rathole_x.ConfigEdit.Args.{
  TransportTypeArg, tcp, tls, noise, websocket, transport_key, SetArgs, side_of_sections,
  tls_requested, tcp_requested, transport_requested, any_field, check_side, check_text,
  check_values, transport_type,
}

module _ (toml : Toml) where
  abbrev pub put_text : Text → Option Text → toml.Table → toml.Table
  put_text k none t = t
  put_text k (some s) t = toml.put k (toml.text s) t

  abbrev pub put_flag : Text → Option Bool → toml.Table → toml.Table
  put_flag k none t = t
  put_flag k (some b) t = toml.put k (toml.flag b) t

  -- `i64::try_from` of a `u64`.
  abbrev pub put_number : Text → Option ℕ → toml.Table → Outcome toml.Table
  put_number k none t = done t
  put_number k (some n) t =
      if leb n 9223372036854775807
      then done (toml.put k (toml.number n) t)
      else refused number_too_large

  abbrev pub ensured : Text → Option toml.Item → toml.Table → toml.Table
  ensured k none parent = toml.put k (toml.table toml.empty) parent
  ensured k (some _) parent = parent

  -- `ensure_table`, and what is done to the table.
  abbrev pub in_table : Text → (toml.Table → Outcome toml.Table) → toml.Table → Outcome toml.Table
  in_table k edit parent =
      let there = ensured k (toml.lookup k parent) parent in
      or_refuse transport_not_a_table (toml.lookup k there) >>= λ item.
      or_refuse transport_not_a_table (toml.as_plain_table item) >>= λ t.
      edit t >>= λ t'. done (toml.update k (toml.with_table item t') there)

  abbrev pub when : Bool → (toml.Table → Outcome toml.Table) → toml.Table → Outcome toml.Table
  when true edit t = edit t
  when false edit t = done t

  abbrev pub put_type : Option TransportTypeArg → toml.Table → toml.Table
  put_type none t =
      if is_none (toml.lookup (codes "type") t)
      then toml.put (codes "type") (toml.text (codes "tcp")) t
      else t
  put_type (some kind) t = toml.put (codes "type") (toml.text (transport_key kind)) t

  abbrev pub edit_tls : SetArgs → toml.Table → Outcome toml.Table
  edit_tls a t = done (
      put_text (codes "pkcs12_password") a.pkcs12_password (
        put_text (codes "pkcs12") a.pkcs12 (
          put_text (codes "hostname") a.hostname
            (put_text (codes "trusted_root") a.trusted_root t))))

  abbrev pub edit_tcp : SetArgs → toml.Table → Outcome toml.Table
  edit_tcp a t =
      put_number (codes "keepalive_secs") a.keepalive_secs (put_flag (codes "nodelay") a.nodelay t)
      >>= λ t1. put_number (codes "keepalive_interval") a.keepalive_interval t1 >>= λ t2.
          done (put_text (codes "proxy") a.proxy t2)

  -- The transport table.
  abbrev pub edit_transport : Text → SetArgs → toml.Table → Outcome toml.Table
  edit_transport private_key a t =
      when a.noise_flag
        (in_table (codes "noise")
          (λ n. done (toml.put (codes "local_private_key") (toml.text private_key) n)))
        (put_type (transport_type a) t)
      >>= λ t1.
          when (is_some a.noise_key)
            (in_table (codes "noise")
              (λ n. done (put_text (codes "remote_public_key") a.noise_key n)))
            t1
          >>= λ t2. when (tls_requested a) (in_table (codes "tls") (edit_tls a)) t2 >>= λ t3.
              when (is_some a.ws_tls)
                (in_table (codes "websocket") (λ n. done (put_flag (codes "tls") a.ws_tls n))) t3
              >>= λ t4. when (tcp_requested a) (in_table (codes "tcp") (edit_tcp a)) t4

  -- The section.
  abbrev pub edit_section : Text → SetArgs → toml.Table → Outcome toml.Table
  edit_section private_key a t =
      put_number (codes "heartbeat_timeout") a.heartbeat_timeout (
        put_flag (codes "prefer_ipv6") a.prefer_ipv6 (
          put_text (codes "default_token") a.default_token (
            put_text (codes "bind_addr") a.bind_addr
              (put_text (codes "remote_addr") a.remote_addr t))))
      >>= λ t1. put_number (codes "retry_interval") a.retry_interval t1 >>= λ t2.
          put_number (codes "heartbeat_interval") a.heartbeat_interval t2 >>= λ t3.
          when (transport_requested a) (in_table (codes "transport") (edit_transport private_key a))
            t3

  abbrev pub new_section : Side → Text → toml.Table
  new_section side address =
      toml.put (codes "services") (toml.table toml.empty)
        (toml.put (address_field side) (toml.text address) toml.empty)
    where
      address_field : Side → Text
      address_field client = codes "remote_addr"
      address_field server = codes "bind_addr"

  abbrev pub address_arg : Side → SetArgs → Option Text
  address_arg client a = a.remote_addr
  address_arg server a = a.bind_addr

  -- A section that is missing is created, with its address.
  abbrev pub with_section : Side → SetArgs → toml.Table → Outcome toml.Table
  with_section side a doc = by_item (toml.lookup (key side) doc)
    where
      by_item : Option toml.Item → Outcome toml.Table
      by_item (some _) = done doc
      by_item none = or_refuse (new_section_needs_address side) (address_arg side a) >>= λ address.
          done (toml.put (key side) (toml.table (new_section side address)) doc)

  abbrev pub set_section : Text → Side → SetArgs → toml.Table → Outcome toml.Table
  set_section private_key side a doc =
      or_refuse (not_a_table side) (toml.lookup (key side) doc) >>= λ item.
      or_refuse (not_a_table side) (toml.as_table item) >>= λ section.
      edit_section private_key a section >>= λ section'.
      done (toml.update (key side) (toml.with_table item section') doc)

  abbrev pub side_of_file : Outcome toml.Table → Outcome Side
  side_of_file (refused _) = refused side_required
  side_of_file (done doc) =
      side_of_sections (has_section toml client doc) (has_section toml server doc)

  abbrev pub resolve_side : Bool → Bool → File → Outcome Side
  resolve_side true false file = done client
  resolve_side false true file = done server
  resolve_side true true file = refused side_flags_exclusive
  resolve_side false false file = side_of_file (load_document toml file)

  module _ (socket_addr proxy_url : Text → Bool) (private_key : Text) where
    -- Up to the save.
    abbrev pub plan_set : SetArgs → File → Outcome (Side × toml.Table)
    plan_set a file = resolve_side a.client_flag a.server_flag file >>= λ side.
        refuse_if (not (any_field a)) no_fields >>= λ _. check_side side a >>= λ _.
        check_values socket_addr proxy_url a >>= λ _. load_document toml file >>= λ doc.
        ensure_role_allows (has_section toml client doc) (has_section toml server doc) side >>= λ _.
        with_section side a doc >>= λ doc1.
        set_section private_key side a doc1 >>= λ doc2. done (side, doc2)

    module _ (parse_config : Text → Option Config.Config) where
      abbrev pub told : Side → Outcome (Unit {0}) × Disk → Outcome Side × Disk
      told side (refused e, file) = (refused e, file)
      told side (done _, file) = (done side, file)

      abbrev pub save_set : Bool → Disk → Outcome (Side × toml.Table) → Outcome Side × Disk
      save_set writable disk (refused e) = (refused e, disk)
      save_set writable disk (done (side, doc)) =
          told side (save_with_skeleton toml parse_config writable doc disk)

      -- The side that was set, and the file.
      unfoldable pub run_set : Bool → SetArgs → Disk → Outcome Side × Disk
      run_set writable a disk = save_set writable disk (plan_set a disk.file)
