-- ===== src/ConfigEdit.antt =====
-- src/config_edit.rs: which side a configuration file is for, the specifications of services on the
-- command line, and adding a batch of them to the file in one save. Documents are the toml_edit crate,
-- reading a socket address is the standard library, and a generated token is random: parameters.
pub mod Toml
pub mod Skeleton
pub mod Spec
pub mod Add
pub mod Args
pub mod Set
pub mod Remove
pub mod Sample
use rathole_x.Base.{
  ℕ, Bool, true, false, not, ◌&&◌, ◌||◌, Option, none, some, List, [], ◌∷◌, ◌++◌, if◌then◌else◌,
  is_some, Text, codes, leb, ◌==◌, nat_eq, ◌≡◌, refl,
}

pub data Side : Type 0 where
  client : Side
  server : Side

-- `ServiceSide::key` and `ServiceRole::key`
abbrev pub key : Side → Text
key client = codes "client"
key server = codes "server"

abbrev pub side_beq : Side → Side → Bool
side_beq client client = true
side_beq client server = false
side_beq server client = false
side_beq server server = true

-- Why a command stops.
pub data Error : Type 0 where
  both_addresses both_sections no_section client_only server_only : Error
  invalid_entry : Text → Error
  invalid_type : Text → Error
  server_key_gone : Error
  unknown_key : Text → Error
  invalid_address : Text → Error
  missing_name missing_local missing_bind : Error
  duplicate : Side → Text → Error
  exists : Side → Text → Error
  remote_addr_not_set : Error
  not_a_table : Side → Error
  unreadable unwritable invalid_config : Error
  side_flags_exclusive side_required no_fields : Error
  wrong_side : Text → Error
  invalid_proxy : Text → Error
  new_section_needs_address : Side → Error
  number_too_large : Error
  transport_not_a_table : Error
  no_file no_service : Error

pub data Outcome {ℓ} (A : Type ℓ) : Type ℓ where
  refused : Error → Outcome A
  done : A → Outcome A

infixl 5 ◌>>=◌ ◌>>◌
abbrev pub ◌>>=◌ {ℓ κ} : {A : Type ℓ} {B : Type κ} → Outcome A → (A → Outcome B) → Outcome B
refused e >>= _ = refused e
done a >>= go = go a

abbrev pub ◌>>◌ {ℓ} : {B : Type ℓ} → Outcome (Unit {0}) → Outcome B → Outcome B
check >> go = check >>= λ _. go

abbrev pub refuse_if : Bool → Error → Outcome (Unit {0})
refuse_if true e = refused e
refuse_if false e = done tt

abbrev pub or_refuse {ℓ} : {A : Type ℓ} → Error → Option A → Outcome A
or_refuse e none = refused e
or_refuse e (some a) = done a

-- A computation that came to a result: its parts did.
pub >>=-eq-done {ℓ κ} :
    {A : Type ℓ} {B : Type κ} (m : Outcome A) (go : A → Outcome B) {b : B}
    → ◌≡◌ (m >>= go) (done b)
    → (a : A) × (m ≡ done a) × (go a ≡ done b)
>>=-eq-done (refused e) go h = cc
>>=-eq-done (done a) go h = (a, refl, h)

pub or_refuse-eq-done {ℓ} :
    {A : Type ℓ} (e : Error) (o : Option A) {a : A} → or_refuse e o ≡ done a → o ≡ some a
or_refuse-eq-done e none h = cc
or_refuse-eq-done e (some a) h = cc

pub refuse_if-eq-done : (b : Bool) (e : Error) {u : Unit {0}} → refuse_if b e ≡ done u → b ≡ false
refuse_if-eq-done true e h = cc
refuse_if-eq-done false e h = refl

-- `detect_role`, from whether the document has the sections.
unfoldable pub detect_role : Bool → Bool → Outcome Side
detect_role true false = done client
detect_role false true = done server
detect_role true true = refused both_sections
detect_role false false = refused no_section

abbrev pub allows : Side → Side → Outcome (Unit {0})
allows client client = done tt
allows client server = refused client_only
allows server client = refused server_only
allows server server = done tt

-- `ensure_role_allows`
unfoldable pub ensure_role_allows : Bool → Bool → Side → Outcome (Unit {0})
unfolding detect_role
ensure_role_allows has_client has_server requested =
    if not has_client && not has_server
    then done tt
    else (detect_role has_client has_server >>= λ role. allows role requested)

-- `infer_side`, from which address flags are given and which sections an existing document has.
unfoldable pub infer_side : Bool → Bool → Option (Bool × Bool) → Outcome (Option Side)
infer_side true true existing = refused both_addresses
infer_side true false existing = done (some client)
infer_side false true existing = done (some server)
infer_side false false none = done none
infer_side false false (some (true, false)) = done (some client)
infer_side false false (some (false, true)) = done (some server)
infer_side false false (some (true, true)) = refused both_sections
infer_side false false (some (false, false)) = done none

abbrev pub name_byte : ℕ → Bool
name_byte c =
    (leb b'a' c && leb c b'z')
    || (leb b'A' c && leb c b'Z')
    || (leb b'0' c && leb c b'9')
    || c == b'-'
    || c == b'_'

abbrev pub all_name_bytes : Text → Bool
all_name_bytes [] = true
all_name_bytes (c ∷ s) = name_byte c && all_name_bytes s

-- `validate_service_name`
unfoldable pub validate_service_name : Text → Bool
validate_service_name [] = false
validate_service_name (c ∷ s) = all_name_bytes (c ∷ s)
