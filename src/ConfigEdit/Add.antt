-- ===== src/ConfigEdit/Add.antt =====
-- `run_add_batch` of src/config_edit.rs: all services of the command line are added to the document,
-- which is checked as the runtime would and saved once. The file and what was written to it are a
-- state; a document is a table of the toml_edit crate, `parse_config` is `toml::from_str`, and `fresh`
-- the tokens that are generated.
pub mod Replace
pub mod Insert
pub mod Checks
pub mod Comments
pub mod Batch
pub mod Tests
use rathole_x.Base.{
  ℕ, suc, ◌+◌, ◌≡◌, refl, Bool, true, false, not, ◌&&◌, ◌||◌, Option, none, some, List, [], ◌∷◌,
  ◌++◌, if◌then◌else◌, is_some, is_none, length, Text, text_eq, codes, ◌==◌,
}
use rathole_x.Config
use rathole_x.ConfigEdit.{
  Side, client, server, key, side_beq, Error, duplicate, exists, remote_addr_not_set, not_a_table,
  unreadable, unwritable, invalid_config, Outcome, refused, done, ◌>>=◌, ◌>>◌, refuse_if, or_refuse,
  ensure_role_allows,
}
use rathole_x.ConfigEdit.Toml.{Toml, with_value}
use rathole_x.ConfigEdit.Skeleton.{config_skeleton}
use rathole_x.ConfigEdit.Spec.{parse_spec, PendingService, spec_to_pending}

-- The configuration file: not there, there with a text, or there and not readable.
pub data File : Type 0 where
  missing : File
  content : Text → File
  locked : File

-- The configuration file, and what has been written to it, in order.
pub record Disk : Type 0 where
  pub file : File
  pub writes : List Text

-- `write_atomic`, where it succeeds.
abbrev pub write_atomic : Text → Disk → Disk
write_atomic s disk = record { file = content s; writes = disk.writes ++ s ∷ [] }

-- What is reported of a service that was added.
pub record Added : Type 0 where
  pub side : Side
  pub name : Text
  pub generated : Option Text

abbrev pub default_server_bind_addr : Text
default_server_bind_addr = codes "0.0.0.0:2333"

module _ (toml : Toml) where
  abbrev pub services : Side → toml.Table → Option toml.Table
  services side doc =
      with_value (with_value (toml.lookup (key side) doc) toml.as_table)
        (λ section. with_value (toml.lookup (codes "services") section) toml.as_table)

  abbrev pub service_at : Side → Text → toml.Table → Option toml.Item
  service_at side name doc = with_value (services side doc) (toml.lookup name)

  abbrev pub service_exists : toml.Table → Side → Text → Bool
  service_exists doc side name = is_some (service_at side name doc)

  abbrev pub has_section : Side → toml.Table → Bool
  has_section side doc = is_some (toml.lookup (key side) doc)

  -- `ensure_client_remote_set`
  abbrev pub client_remote_set : toml.Table → Bool
  client_remote_set doc = is_some (
      with_value (with_value (toml.lookup (codes "client") doc) toml.as_table)
        (toml.lookup (codes "remote_addr")))

  -- `load_document`: a missing file is an empty document.
  abbrev pub load_document : File → Outcome toml.Table
  load_document missing = done toml.empty
  load_document (content s) = or_refuse unreadable (toml.parse s)
  load_document locked = refused unreadable

  abbrev pub or_default : Outcome toml.Table → toml.Table
  or_default (refused _) = toml.empty
  or_default (done doc) = doc

  abbrev pub insert_pending : PendingService toml → toml.Table → Outcome toml.Table
  insert_pending p doc =
      or_refuse (not_a_table p.side) (toml.lookup (key p.side) doc) >>= λ section.
      or_refuse (not_a_table p.side) (toml.as_table section) >>= λ fields.
      or_refuse (not_a_table p.side) (toml.lookup (codes "services") fields) >>= λ item.
      or_refuse (not_a_table p.side) (toml.as_table item) >>= λ entries. done (
        toml.update (key p.side)
          (toml.with_table section (
            toml.update (codes "services")
              (toml.with_table item (toml.put p.name (toml.table p.entry) entries)) fields))
          doc)

  abbrev pub insert_all : List (PendingService toml) → toml.Table → Outcome toml.Table
  insert_all [] doc = done doc
  insert_all (p ∷ ps) doc = insert_pending p doc >>= insert_all ps

  abbrev pub is_pending : Side → Text → PendingService toml → Bool
  is_pending side name p = side_beq p.side side && p.name == name

  abbrev pub among : Side → Text → List (PendingService toml) → Bool
  among side name [] = false
  among side name (p ∷ ps) = is_pending side name p || among side name ps

  -- The loop over the set `seen`.
  abbrev pub check_batch :
      List (PendingService toml) → List (PendingService toml) → Outcome (Unit {0})
  check_batch seen [] = done tt
  check_batch seen (p ∷ ps) =
      refuse_if (among p.side p.name seen) (duplicate p.side p.name) >> check_batch (p ∷ seen) ps

  abbrev pub any_of : Side → List (PendingService toml) → Bool
  any_of side [] = false
  any_of side (p ∷ ps) = side_beq p.side side || any_of side ps

  -- What the document must have before anything touches the disk.
  abbrev pub check_role : List (PendingService toml) → toml.Table → Outcome (Unit {0})
  check_role ps doc =
      (if any_of client ps
        then ensure_role_allows (has_section client doc) (has_section server doc) client
          >> refuse_if (not (client_remote_set doc)) remote_addr_not_set
        else done tt)
      >> (if any_of server ps
          then ensure_role_allows (has_section client doc) (has_section server doc) server
          else done tt)

  abbrev pub new_server_section : toml.Table
  new_server_section =
      toml.put (codes "services") (toml.table toml.empty)
        (toml.put (codes "bind_addr") (toml.text default_server_bind_addr) toml.empty)

  abbrev pub with_server_section : List (PendingService toml) → toml.Table → toml.Table
  with_server_section ps doc =
      if any_of server ps && not (has_section server doc)
      then toml.put (codes "server") (toml.table new_server_section) doc
      else doc

  abbrev pub check_exists : List (PendingService toml) → toml.Table → Outcome (Unit {0})
  check_exists [] doc = done tt
  check_exists (p ∷ ps) doc =
      refuse_if (service_exists doc p.side p.name) (exists p.side p.name) >> check_exists ps doc

  abbrev pub added : PendingService toml → Added
  added p = record { side = p.side; name = p.name; generated = p.generated_token }

  abbrev pub all_added : List (PendingService toml) → List Added
  all_added [] = []
  all_added (p ∷ ps) = added p ∷ all_added ps

  abbrev pub is_missing : File → Bool
  is_missing missing = true
  is_missing (content _) = false
  is_missing locked = false

  -- The text that is written; the skeleton stands before the document of a new file.
  abbrev pub text_of : Bool → toml.Table → Text
  text_of true doc = config_skeleton ++ 10 ∷ toml.print doc
  text_of false doc = toml.print doc

  abbrev pub edited :
      List (PendingService toml) → toml.Table → Outcome (List (PendingService toml) × toml.Table)
  edited ps doc = check_exists ps doc >>= λ _. insert_all ps doc >>= λ final. done (ps, final)

  -- The batch, from the check for duplicates to the last insertion.
  abbrev pub checked :
      List (PendingService toml) → File → Outcome (List (PendingService toml) × toml.Table)
  checked ps file = check_batch [] ps >>= λ _.
      check_role ps (or_default (load_document file)) >>= λ _.
      load_document file >>= λ doc. edited ps (with_server_section ps doc)

  module _ (socket_addr : Text → Bool) (fresh : ℕ → Text) where
    abbrev pub parse_all : Side → ℕ → List Text → Outcome (List (PendingService toml))
    parse_all side n [] = done []
    parse_all side n (spec ∷ specs) = parse_spec socket_addr spec side >>= λ s.
        parse_all side (suc n) specs >>= λ ps. done (spec_to_pending toml s side (fresh n) ∷ ps)

    -- Up to the save.
    abbrev pub plan :
        List Text → List Text → File → Outcome (List (PendingService toml) × toml.Table)
    plan client_specs server_specs file = parse_all client 0 client_specs >>= λ clients.
        parse_all server (length client_specs) server_specs >>= λ servers.
        checked (clients ++ servers) file

  module _ (parse_config : Text → Option Config.Config) where
    abbrev pub write_valid :
        Bool → Text → Config.Result (Unit {0}) → Disk → Outcome (Unit {0}) × Disk
    write_valid writable s (Config.err _) disk = (refused invalid_config, disk)
    write_valid true s (Config.ok _) disk = (done tt, write_atomic s disk)
    write_valid false s (Config.ok _) disk = (refused unwritable, disk)

    -- `save_with_skeleton`; whether `write_atomic` succeeds is the system's.
    abbrev pub save_with_skeleton : Bool → toml.Table → Disk → Outcome (Unit {0}) × Disk
    save_with_skeleton writable doc disk =
        write_valid writable (text_of (is_missing disk.file) doc)
          (Config.validate parse_config (toml.print doc)) disk

    abbrev pub reported : List Added → Outcome (Unit {0}) × Disk → Outcome (List Added) × Disk
    reported names (refused e, disk) = (refused e, disk)
    reported names (done _, disk) = (done names, disk)

    abbrev pub save :
        Bool
        → Disk
        → Outcome (List (PendingService toml) × toml.Table)
        → Outcome (List Added) × Disk
    save writable disk (refused e) = (refused e, disk)
    save writable disk (done (ps, doc)) =
        reported (all_added ps) (save_with_skeleton writable doc disk)

    unfoldable pub run_add_batch :
        (Text → Bool)
        → (ℕ → Text)
        → Bool
        → List Text
        → List Text
        → Disk
        → Outcome (List Added) × Disk
    run_add_batch socket_addr fresh writable client_specs server_specs disk =
        save writable disk (plan socket_addr fresh client_specs server_specs disk.file)
