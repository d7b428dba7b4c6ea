-- ===== src/Config.antt =====
-- src/config.rs: the configuration, its defaults and its validation. Reading TOML is a crate's
-- work: `from_str` takes the parser as an argument. A `url::Url` is what its accessors give.
pub mod Ready
pub mod Validate
pub mod Client
pub mod Tests
use rathole_x.Base.{
  ℕ, Bool, true, false, not, ◌&&◌, ◌||◌, Option, none, some, List, [], ◌∷◌, if◌then◌else◌, is_some,
  is_none, HasEq, ◌==◌, nat_eq, text_eq, Text, codes, of_discrete,
}
use rathole_x.Base.Dict.{Dict}
use rathole_x.Base.Parse.{rsplit_once, parse_u16}

-- `MaskedString` is a string that prints as "MASKED".
abbrev pub MaskedString : Type 0
MaskedString = Text

pub data TransportType : Type 0 where
  tcp tls noise websocket : TransportType

pub data ServiceType : Type 0 where
  tcp udp : ServiceType

abbrev pub service_type_beq : ServiceType → ServiceType → Bool
service_type_beq ServiceType.tcp ServiceType.tcp = true
service_type_beq ServiceType.udp ServiceType.udp = true
service_type_beq _ _ = false

-- `ServiceType::default`
abbrev pub default_service_type : ServiceType
default_service_type = ServiceType.tcp

pub record ClientServiceConfig : Type 0 where
  pub service_type : ServiceType
  pub name : Text
  pub local_addr : Text
  pub prefer_ipv6 : Bool
  pub token : Option MaskedString
  pub nodelay : Option Bool
  pub retry_interval : Option ℕ

pub record ServerServiceConfig : Type 0 where
  pub service_type : ServiceType
  pub name : Text
  pub bind_addr : Text
  pub token : Option MaskedString
  pub nodelay : Option Bool

pub record TlsConfig : Type 0 where
  pub hostname : Option Text
  pub trusted_root : Option Text
  pub pkcs12 : Option Text
  pub pkcs12_password : Option MaskedString

pub record NoiseConfig : Type 0 where
  pub pattern : Text
  pub local_private_key : Option MaskedString
  pub remote_public_key : Option Text

pub record WebsocketConfig : Type 0 where
  pub tls : Bool

-- `url::Url` through `scheme`, `host_str`, `port`, `username` and `password`.
pub record Url : Type 0 where
  pub scheme : Text
  pub host : Option Text
  pub port : Option ℕ
  pub username : Text
  pub password : Option Text

pub record TcpConfig : Type 0 where
  pub nodelay : Bool
  pub keepalive_secs : ℕ
  pub keepalive_interval : ℕ
  pub proxy : Option Url

-- `TcpConfig::default`
abbrev pub default_tcp : TcpConfig
default_tcp = record { nodelay = true; keepalive_secs = 20; keepalive_interval = 8; proxy = none }

pub record TransportConfig : Type 0 where
  pub transport_type : TransportType
  pub tcp : TcpConfig
  pub tls : Option TlsConfig
  pub noise : Option NoiseConfig
  pub websocket : Option WebsocketConfig

-- `TransportConfig::default`
abbrev pub default_transport : TransportConfig
default_transport = record {
  transport_type = TransportType.tcp;
  tcp = default_tcp;
  tls = none;
  noise = none;
  websocket = none;
}

abbrev pub default_heartbeat_interval : ℕ
default_heartbeat_interval = 30

abbrev pub default_heartbeat_timeout : ℕ
default_heartbeat_timeout = 40

abbrev pub default_client_retry_interval : ℕ
default_client_retry_interval = 1

pub record ClientConfig : Type 0 where
  pub remote_addr : Text
  pub default_token : Option MaskedString
  pub prefer_ipv6 : Option Bool
  pub services : Dict Text ClientServiceConfig
  pub transport : TransportConfig
  pub heartbeat_timeout : ℕ
  pub retry_interval : ℕ

pub record ServerConfig : Type 0 where
  pub bind_addr : Text
  pub default_token : Option MaskedString
  pub services : Dict Text ServerServiceConfig
  pub transport : TransportConfig
  pub heartbeat_interval : ℕ

pub record Config : Type 0 where
  pub server : Option ServerConfig
  pub client : Option ClientConfig

pub data Error : Type 0 where
  parse_failed read_failed no_section : Error
  port_zero : Text → Error
  default_token_empty : Error
  token_not_set token_empty : Text → Error
  duplicate_bind_addr : Text → Text → Error
  retry_interval_zero : Error
  service_retry_interval_zero : Text → Error
  proxy_needs_host_and_port : Url → Error
  unknown_proxy_scheme : Text → Error
  missing_tls missing_pkcs12 missing_noise : Error

pub data Result {ℓ} (A : Type ℓ) : Type ℓ where
  err : Error → Result A
  ok : A → Result A

infixl 5 ◌>>=◌ ◌>>◌
abbrev pub ◌>>=◌ {ℓ κ} : {A : Type ℓ} {B : Type κ} → Result A → (A → Result B) → Result B
err why >>= _ = err why
ok x >>= next = next x

abbrev pub ◌>>◌ {ℓ} : {B : Type ℓ} → Result (Unit {0}) → Result B → Result B
first >> second = first >>= λ _. second

-- `if condition { bail!(e) }`
abbrev pub bail_if : Bool → Error → Result (Unit {0})
bail_if true e = err e
bail_if false e = ok tt

abbrev pub is_empty : Text → Bool
is_empty [] = true
is_empty (_ ∷ _) = false

abbrev pub is_some_empty : Option Text → Bool
is_some_empty none = false
is_some_empty (some t) = is_empty t

abbrev pub is_zero : Option ℕ → Bool
is_zero none = false
is_zero (some n) = n == 0

-- The port behind the last `:`, where it is a number.
abbrev pub port_of_split : Option (Text × Text) → Option ℕ
port_of_split none = none
port_of_split (some (_, port)) = parse_u16 port

abbrev pub port_of : Text → Option ℕ
port_of addr = port_of_split (rsplit_once b':' addr)

-- `Option::or`
abbrev pub or_else {ℓ} : {A : Type ℓ} → Option A → Option A → Option A
or_else none b = b
or_else (some a) b = some a

-- The token of a service: its own, else the default; neither missing nor empty. The two
-- validators share this code word for word.
pub set_token : Option MaskedString → Text → Option MaskedString → Result (Option MaskedString)
set_token default name token = do
  let token' = or_else token default
  bail_if (is_none token') (token_not_set name)
  bail_if (is_some_empty token') (token_empty name)
  ok token'

abbrev pub has_address : Text × ServiceType → List (Text × ServiceType) → Bool
has_address a [] = false
has_address a (b ∷ seen) = (a.0 == b.0 && service_type_beq a.1 b.1) || has_address a seen

-- The loop over `server.services`; `seen` is the set `bind_addrs`.
unfoldable pub validate_server_services :
    Option MaskedString
    → List (Text × ServiceType)
    → Dict Text ServerServiceConfig
    → Result (Dict Text ServerServiceConfig)
unfolding set_token
validate_server_services default seen [] = ok []
validate_server_services default seen ((name, s) ∷ rest) = do
  token ← set_token default name s.token
  let address : Text × ServiceType = (s.bind_addr, s.service_type)
  bail_if (has_address address seen) (duplicate_bind_addr s.bind_addr name)
  rest' ← validate_server_services default (address ∷ seen) rest
  ok ((name, record s { name = name; token = token }) ∷ rest')

-- The scheme of a proxy that `helper.rs` can use, with what it needs.
unfoldable pub validate_proxy : Option Url → Result (Unit {0})
validate_proxy none = ok tt
validate_proxy (some u) =
    if u.scheme == codes "socks5" || u.scheme == codes "http"
    then (if is_some u.host && is_some u.port then ok tt else err (proxy_needs_host_and_port u))
    else err (unknown_proxy_scheme u.scheme)

abbrev pub validate_tls : Bool → Option TlsConfig → Result (Unit {0})
validate_tls is_server none = err missing_tls
validate_tls is_server (some c) =
    bail_if (is_server && not (is_some c.pkcs12 && is_some c.pkcs12_password)) missing_pkcs12

abbrev pub validate_kind : TransportType → Bool → TransportConfig → Result (Unit {0})
validate_kind TransportType.tcp is_server c = ok tt
validate_kind TransportType.tls is_server c = validate_tls is_server c.tls
validate_kind TransportType.noise is_server c = bail_if (is_none c.noise) missing_noise
validate_kind TransportType.websocket is_server c = ok tt

unfoldable pub validate_transport_config : TransportConfig → Bool → Result (Unit {0})
unfolding validate_proxy
validate_transport_config c is_server = do
  validate_proxy c.tcp.proxy
  validate_kind c.transport_type is_server c

unfoldable pub validate_server_config : ServerConfig → Result ServerConfig
validate_server_config c = do
  bail_if (is_zero (port_of c.bind_addr)) (port_zero c.bind_addr)
  bail_if (is_some_empty c.default_token) default_token_empty
  services ← validate_server_services c.default_token [] c.services
  validate_transport_config c.transport true
  ok (record c { services = services })

-- The loop over `client.services`.
pub validate_client_services :
    Option MaskedString → ℕ → Dict Text ClientServiceConfig → Result (Dict Text ClientServiceConfig)
unfolding set_token
validate_client_services default retry [] = ok []
validate_client_services default retry ((name, s) ∷ rest) = do
  token ← set_token default name s.token
  bail_if (is_zero s.retry_interval) (service_retry_interval_zero name)
  rest' ← validate_client_services default retry rest
  ok (
      (
        name,
        record s {
          name = name;
          token = token;
          retry_interval = or_else s.retry_interval (some retry);
        },
      )
      ∷ rest')

pub validate_client_config : ClientConfig → Result ClientConfig
validate_client_config c = do
  bail_if (c.retry_interval == 0) retry_interval_zero
  bail_if (is_some_empty c.default_token) default_token_empty
  services ← validate_client_services c.default_token c.retry_interval c.services
  validate_transport_config c.transport false
  ok (record c { services = services })

abbrev pub validate_section {ℓ} : {A : Type ℓ} → (A → Result A) → Option A → Result (Option A)
validate_section check none = ok none
validate_section check (some c) = check c >>= λ c'. ok (some c')

abbrev pub or_parse_failed : Option Config → Result Config
or_parse_failed none = err parse_failed
or_parse_failed (some c) = ok c

-- `Config::from_str`; `parse` is `toml::from_str`.
unfoldable pub from_str : (Text → Option Config) → Text → Result Config
from_str parse s = do
  c ← or_parse_failed (parse s)
  server ← validate_section validate_server_config c.server
  client ← validate_section validate_client_config c.client
  bail_if (is_none server && is_none client) no_section
  ok (record { server = server; client = client })

-- `Config::validate`
unfoldable pub validate : (Text → Option Config) → Text → Result (Unit {0})
unfolding from_str
validate parse s = from_str parse s >>= λ _. ok tt
