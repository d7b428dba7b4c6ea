-- ===== src/ConfigEdit/Remove.antt =====
-- `run_remove` of src/config_edit.rs: a service is taken out of the configuration file.
pub mod Removed
pub mod Tests
use rathole_x.Base.{
  ℕ, ◌≡◌, refl, Bool, true, false, Option, none, some, List, [], ◌∷◌, if◌then◌else◌, is_some, Text,
  text_eq, codes,
}
use rathole_x.ConfigEdit.{
  Side, client, server, key, Error, no_file, no_service, unwritable, Outcome, refused, done, ◌>>=◌,
  or_refuse,
}
use rathole_x.ConfigEdit.Toml.{Toml, with_value, contains}
use rathole_x.ConfigEdit.Add.{File, missing, content, locked, services, load_document}

module _ (toml : Toml) where
  -- The names that `list_services` gives for a side.
  abbrev pub listed : Option toml.Table → List Text
  listed none = []
  listed (some t) = toml.names t

  abbrev pub first_listed : Bool → Bool → Option Side
  first_listed true _ = some client
  first_listed false true = some server
  first_listed false false = none

  -- The side of the first service of the name in `list_services`.
  abbrev pub find_listed : Text → toml.Table → Option Side
  find_listed name doc =
      first_listed (contains name (listed (services toml client doc)))
        (contains name (listed (services toml server doc)))

  abbrev pub listed_side : Text → File → Outcome (Option Side)
  listed_side name missing = done none
  listed_side name (content s) =
      load_document toml (content s) >>= λ doc. done (find_listed name doc)
  listed_side name locked = load_document toml locked >>= λ doc. done (find_listed name doc)

  -- The document without the service, if the side has it.
  module _ (side : Side) (name : Text) (doc : toml.Table) where
    abbrev pub taken_out : toml.Item → toml.Table → toml.Item → toml.Table → Option toml.Table
    taken_out section fields item entries =
        if is_some (toml.lookup name entries)
        then some (
            toml.update (key side)
              (toml.with_table section (
                toml.update (codes "services") (toml.with_table item (toml.delete name entries))
                  fields))
              doc)
        else none

    abbrev pub out_of_services : toml.Item → toml.Table → toml.Item → Option toml.Table
    out_of_services section fields item =
        with_value (toml.as_table item) (taken_out section fields item)

    abbrev pub out_of_fields : toml.Item → toml.Table → Option toml.Table
    out_of_fields section fields =
        with_value (toml.lookup (codes "services") fields) (out_of_services section fields)

    abbrev pub out_of_section : toml.Item → Option toml.Table
    out_of_section section = with_value (toml.as_table section) (out_of_fields section)

    abbrev pub removed_from : Option toml.Table
    removed_from = with_value (toml.lookup (key side) doc) out_of_section

  abbrev pub save_document : Bool → toml.Table → File → Outcome (Unit {0}) × File
  save_document true doc file = (done tt, content (toml.print doc))
  save_document false doc file = (refused unwritable, file)

  -- The loop over the two sides.
  abbrev pub remove_first :
      Bool → File → Option toml.Table → Option toml.Table → Outcome (Unit {0}) × File
  remove_first writable file (some doc) _ = save_document writable doc file
  remove_first writable file none (some doc) = save_document writable doc file
  remove_first writable file none none = (refused no_service, file)

  abbrev pub remove_loaded : Bool → Text → File → Outcome toml.Table → Outcome (Unit {0}) × File
  remove_loaded writable name file (refused e) = (refused e, file)
  remove_loaded writable name file (done doc) =
      remove_first writable file (removed_from client name doc) (removed_from server name doc)

  -- `remove_service`
  abbrev pub remove_service : Bool → Text → File → Outcome (Unit {0}) × File
  remove_service writable name missing = (refused no_file, missing)
  remove_service writable name (content s) =
      remove_loaded writable name (content s) (load_document toml (content s))
  remove_service writable name locked =
      remove_loaded writable name locked (load_document toml locked)

  abbrev pub with_side :
      Outcome (Option Side) → Outcome (Unit {0}) × File → File → Outcome (Option Side) × File
  with_side (refused e) r file = (refused e, file)
  with_side (done side) (refused e, after) file = (refused e, after)
  with_side (done side) (done _, after) file = (done side, after)

  -- The side that is reported, and the file.
  unfoldable pub run_remove : Bool → Text → File → Outcome (Option Side) × File
  run_remove writable name file =
      with_side (listed_side name file) (remove_service writable name file) file
