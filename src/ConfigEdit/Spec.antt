-- ===== src/ConfigEdit/Spec.antt =====
-- `parse_spec` of src/config_edit.rs, a service in one argument of the command line: entries
-- `key:value` between semicolons; and the entry of the document that it becomes.
pub mod Sound
pub mod Entry
use mathlib.Core.Path.{subst}
use rathole_x.Base.{
  ℕ, ◌≡◌, ◌≢◌, refl, sym, ap, ◌∙◌, Bool, true, false, not, ◌&&◌, ◌||◌, Option, none, some, List, [],
  ◌∷◌, ◌++◌, if◌then◌else◌, is_some, is_none, Text, text_eq, codes, ◌==◌, Bool-cases, inl, inr,
}
use rathole_x.Base.Parse.{rsplit_once, parse_u16}
use rathole_x.Base.Trim.{trim, split, split_once}
use rathole_x.ConfigEdit.{
  Side, client, server, key, side_beq, Error, invalid_entry, invalid_type, server_key_gone,
  unknown_key, invalid_address, missing_name, missing_local, missing_bind, Outcome, refused, done,
  ◌>>=◌, ◌>>◌, refuse_if, or_refuse, >>=-eq-done, refuse_if-eq-done,
}
use rathole_x.ConfigEdit.Toml.{Toml, text_in, text_in-put}

pub record ServiceSpec : Type 0 where
  pub name : Text
  pub local_addr : Option Text
  pub bind_addr : Option Text
  pub token : Option Text
  pub udp : Bool

abbrev pub default_spec : ServiceSpec
default_spec = record { name = []; local_addr = none; bind_addr = none; token = none; udp = false }

abbrev pub is_empty : Text → Bool
is_empty [] = true
is_empty (_ ∷ _) = false

abbrev pub host_and_port : Option (Text × Text) → Bool
host_and_port none = false
host_and_port (some (host, port)) = not (is_empty host) && is_some (parse_u16 port)

abbrev pub take_type : Text → ServiceSpec → Outcome ServiceSpec
take_type val out =
    if val == codes "tcp"
    then done out
    else if val == codes "udp"
    then done (record out { udp = true })
    else refused (invalid_type val)

abbrev pub spec_key : Side → Text
spec_key client = codes "local"
spec_key server = codes "bind"

abbrev pub missing_address : Side → ServiceSpec → Outcome ServiceSpec
missing_address client out = refuse_if (is_none out.local_addr) missing_local >> done out
missing_address server out = refuse_if (is_none out.bind_addr) missing_bind >> done out

module _ (socket_addr : Text → Bool) where
  -- `validate_host_port`; `socket_addr` says whether a text parses as a `SocketAddr`.
  unfoldable pub valid_host_port : Text → Bool
  valid_host_port addr = socket_addr addr || host_and_port (rsplit_once b':' addr)

  abbrev pub take_address : Side → Text → ServiceSpec → Outcome ServiceSpec
  take_address client val out =
      if valid_host_port val
      then done (record out { local_addr = some val })
      else refused (invalid_address val)
  take_address server val out =
      if valid_host_port val
      then done (record out { bind_addr = some val })
      else refused (invalid_address val)

  -- The `match key`.
  abbrev pub take_key : Side → Text → Text → ServiceSpec → Outcome ServiceSpec
  take_key side k val out =
      if k == codes "name"
      then done (record out { name = val })
      else if k == codes "token"
      then done (record out { token = some val })
      else if k == codes "type"
      then take_type val out
      else if k == codes "server" || k == codes "remote"
      then refused server_key_gone
      else if k == spec_key side
      then take_address side val out
      else refused (unknown_key k)

  abbrev pub take_entry : Side → Option (Text × Text) → Text → ServiceSpec → Outcome ServiceSpec
  take_entry side none pair out = refused (invalid_entry pair)
  take_entry side (some (k, val)) pair out = take_key side (trim k) (trim val) out

  abbrev pub take_pair : Side → Text → ServiceSpec → Outcome ServiceSpec
  take_pair side [] out = done out
  take_pair side (c ∷ pair) out = take_entry side (split_once b':' (c ∷ pair)) (c ∷ pair) out

  -- The loop over the entries.
  abbrev pub take_pairs : Side → List Text → ServiceSpec → Outcome ServiceSpec
  take_pairs side [] out = done out
  take_pairs side (pair ∷ pairs) out =
      take_pair side (trim pair) out >>= λ next. take_pairs side pairs next

  unfoldable pub parse_spec : Text → Side → Outcome ServiceSpec
  parse_spec spec side = take_pairs side (split b';' spec) default_spec >>= λ out.
      refuse_if (is_empty out.name) missing_name >> missing_address side out

-- A service that is ready to be written.
pub record PendingService (toml : Toml) : Type 0 where
  pub side : Side
  pub name : Text
  pub entry : toml.Table
  pub generated_token : Option Text

module _ (toml : Toml) where
  abbrev pub put_text : Text → Option Text → toml.Table → toml.Table
  put_text k none t = t
  put_text k (some s) t = toml.put k (toml.text s) t

  abbrev pub token_or : Option Text → Text → Text
  token_or none fresh = fresh
  token_or (some t) fresh = t

  -- `spec_to_pending`; `fresh` is what `generate_token` gives.
  unfoldable pub spec_to_pending : ServiceSpec → Side → Text → PendingService toml
  spec_to_pending spec side fresh = record {
    side = side;
    name = spec.name;
    entry = toml.put (codes "token") (toml.text (token_or spec.token fresh)) (
        put_text (codes "bind_addr") spec.bind_addr (
          put_text (codes "local_addr") spec.local_addr
            (put_text (codes "type") (if spec.udp then some (codes "udp") else none) toml.empty)));
    generated_token = if is_none spec.token then some fresh else none;
  }
