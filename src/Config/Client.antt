-- ===== src/Config/Client.antt =====
-- `validate_client_config` and `from_str` of src/config.rs.
use mathlib.Core.Path.{subst}
use rathole_x.Base.{
  ℕ, false, ◌≡◌, ◌≢◌, refl, inl, inr, Option, none, some, List, [], ◌∷◌, arith, All, Text, ◌&&◌,
  ◌==◌, nat_eq, is_none, nat_beq_iff,
}
use rathole_x.Base.Dict.{Dict}
use rathole_x.Config.{
  ServerConfig, ClientServiceConfig, ClientConfig, Config, ok, or_else, set_token, is_some_empty,
  is_zero, validate_client_services, validate_client_config, validate_server_config,
  validate_transport_config, validate_section, or_parse_failed, from_str,
}
use rathole_x.Config.Ready.{
  IsToken, IsTransport, validate_transport_config_iff, IsServer, filled_server,
}
use rathole_x.Config.Validate.{
  set_token_cases, >>=-eq-ok, bail_if-eq-ok, is_some_empty_iff, validate_server_config_sound,
}

abbrev pub client_tokens : Dict Text ClientServiceConfig → List (Option Text)
client_tokens [] = []
client_tokens ((_, s) ∷ rest) = s.token ∷ client_tokens rest

abbrev pub retries : Dict Text ClientServiceConfig → List (Option ℕ)
retries [] = []
retries ((_, s) ∷ rest) = s.retry_interval ∷ retries rest

-- Each service under its name, with its own token and retry interval or those of the section.
abbrev pub fill_client :
    Option Text → ℕ → Dict Text ClientServiceConfig → Dict Text ClientServiceConfig
fill_client default retry [] = []
fill_client default retry ((name, s) ∷ rest) =
    (
      name,
      record s {
        name = name;
        token = or_else s.token default;
        retry_interval = or_else s.retry_interval (some retry);
      },
    )
    ∷ fill_client default retry rest

abbrev pub filled_client : ClientConfig → ClientConfig
filled_client c = record c { services = fill_client c.default_token c.retry_interval c.services }

-- An interval that is there and is not zero, which would reconnect in a tight loop.
abbrev pub IsInterval : Option ℕ → Type 0
IsInterval o = (o ≢ none) × (o ≢ some 0)

pub record IsClient (c : ClientConfig) : Type 0 where
  pub interval : c.retry_interval ≢ 0
  pub default_set : c.default_token ≢ some []
  pub all_tokens : All IsToken (client_tokens c.services)
  pub intervals : All IsInterval (retries c.services)
  pub transport : IsTransport false c.transport

module _ (default : Option Text) (retry : ℕ) where
  abbrev Loop : Dict Text ClientServiceConfig → Type 0
  Loop services =
      All IsToken (client_tokens (fill_client default retry services))
      × All IsInterval (retries (fill_client default retry services))

  client_complete :
      (services : Dict Text ClientServiceConfig)
      → Loop services
      → validate_client_services default retry services ≡ ok (fill_client default retry services)
  unfolding validate_client_services
  client_complete [] h = refl
  client_complete ((name, s) ∷ rest) h = elim (set_token_cases default name s.token) [
    | inr (e, p, no_token) ↦ absurd (no_token h.0.0)
    | inl (p, token) ↦
        let t : is_zero s.retry_interval ≡ false = own_interval s.retry_interval h.1.0 in
        rw (p, t, client_complete rest (h.0.1, h.1.1))
  ]
    where
      own_interval : (o : Option ℕ) → IsInterval (or_else o (some retry)) → is_zero o ≡ false
      own_interval none i = refl
      own_interval (some n) i = ground arith

  filled-IsInterval :
      (o : Option ℕ) → retry ≢ 0 → is_zero o ≡ false → IsInterval (or_else o (some retry))
  filled-IsInterval none r z = ground arith
  filled-IsInterval (some n) r z = ground arith

  client_sound :
      (services out : Dict Text ClientServiceConfig)
      → retry ≢ 0
      → validate_client_services default retry services ≡ ok out
      → Loop services
  unfolding validate_client_services
  client_sound [] out r h = (tt, tt)
  client_sound ((name, s) ∷ rest) out r h =
      let (t, taken, h1) = >>=-eq-ok (set_token default name s.token) _ h in
      let (z, h2) = bail_if-eq-ok (is_zero s.retry_interval) _ _ h1 in
      let (out', ran, _) = >>=-eq-ok (validate_client_services default retry rest) _ h2 in
      let (ts, is) = client_sound rest out' r ran in
      elim (set_token_cases default name s.token) [
        | inr (e, p, _) ↦ cc
        | inl (_, token) ↦ ((token, ts), (filled-IsInterval s.retry_interval r z, is))
      ]

-- A `[client]` section passes validation, which gives it with the name, the token and the retry
-- interval of each service filled in, if then no interval is zero, no default token is empty,
-- each service has a token, a proxy is SOCKS5 or HTTP with a host and a port, and the transport
-- has its material, or is a websocket, or is TLS with an identity that has no password.
pub validate_client_config_complete :
    (c : ClientConfig)
    → IsClient (filled_client c)
    → validate_client_config c ≡ ok (filled_client c)
unfolding validate_client_config
validate_client_config_complete c v =
    let t : (c.retry_interval == 0) ≡ false = ground (arith, v.interval) in
    rw (
      t,
      (is_some_empty_iff c.default_token).1 v.default_set,
      client_complete c.default_token c.retry_interval c.services (v.all_tokens, v.intervals),
      (validate_transport_config_iff c.transport false).1 v.transport,
    )

-- A `[client]` section that passes validation comes out with the name, the token and the retry
-- interval of each service filled in: then no interval is zero, no default token is empty, each
-- service has a token, a proxy is SOCKS5 or HTTP with a host and a port, and the transport has
-- the sections that its constructor needs, unless it is a websocket, whose section nothing
-- checks, or TLS with an identity whose password is missing.
pub validate_client_config_sound :
    (c out : ClientConfig)
    → validate_client_config c ≡ ok out
    → (out ≡ filled_client c) × IsClient (filled_client c)
unfolding validate_client_config
validate_client_config_sound c out h =
    let (positive, h1) = bail_if-eq-ok (c.retry_interval == 0) _ _ h in
    let r : c.retry_interval ≢ 0 = ground (arith, nat_beq_iff c.retry_interval 0) in
    let (set, h2) = bail_if-eq-ok (is_some_empty c.default_token) _ _ h1 in
    let (services, ran, h3) =
      >>=-eq-ok (validate_client_services c.default_token c.retry_interval c.services) _ h2 in
    let (u, checked, h4) = >>=-eq-ok (validate_transport_config c.transport false) _ h3 in
    let loop = client_sound c.default_token c.retry_interval c.services services r ran in
    let full = client_complete c.default_token c.retry_interval c.services loop in
    let same : services ≡ fill_client c.default_token c.retry_interval c.services =
      cc (full, ran) in
    let v : IsClient (filled_client c) = record {
      interval = r;
      default_set = (is_some_empty_iff c.default_token).0 set;
      all_tokens = loop.0;
      intervals = loop.1;
      transport = (validate_transport_config_iff c.transport false).0 checked;
    } in
    (cc, v)

-- What a loaded configuration satisfies.
abbrev pub SectionReady {ℓ} : {A : Type ℓ} → (A → Type 0) → Option A → Type 0
SectionReady P none = Unit
SectionReady P (some c) = P c

pub record IsLoaded (c : Config) : Type 0 where
  pub some_section : (is_none c.server && is_none c.client) ≡ false
  pub server_ready : SectionReady IsServer c.server
  pub client_ready : SectionReady IsClient c.client

validate_section-IsServer :
    (o out : Option ServerConfig)
    → validate_section validate_server_config o ≡ ok out
    → SectionReady IsServer out
validate_section-IsServer none out h = let e : none ≡ out = cc in subst (SectionReady IsServer) e tt
validate_section-IsServer (some c) out h =
    let (c', ran, h1) = >>=-eq-ok (validate_server_config c) _ h in
    let (same, ready) = validate_server_config_sound c c' ran in
    let e : some (filled_server c) ≡ out = cc in subst (SectionReady IsServer) e ready

validate_section-IsClient :
    (o out : Option ClientConfig)
    → validate_section validate_client_config o ≡ ok out
    → SectionReady IsClient out
validate_section-IsClient none out h = let e : none ≡ out = cc in subst (SectionReady IsClient) e tt
validate_section-IsClient (some c) out h =
    let (c', ran, h1) = >>=-eq-ok (validate_client_config c) _ h in
    let (same, ready) = validate_client_config_sound c c' ran in
    let e : some (filled_client c) ≡ out = cc in subst (SectionReady IsClient) e ready

-- A configuration that `from_str` returns has a section, whatever the TOML parser made of the
-- text, and in every section that it has: no default token is empty, each service has a token, a
-- proxy is SOCKS5 or HTTP with a host and a port, and the transport has the sections that its
-- constructor needs, unless it is a websocket or a TLS client's identity without a password; a
-- server's control address has no port that parses as 0, and no address of its services is
-- published twice for one protocol; no interval of a client is zero.
pub from_str-IsLoaded :
    (parse : Text → Option Config) (s : Text) (c : Config) → from_str parse s ≡ ok c → IsLoaded c
unfolding from_str
from_str-IsLoaded parse s c h =
    let (raw, parsed, h1) = >>=-eq-ok (or_parse_failed (parse s)) _ h in
    let (server, sv, h2) = >>=-eq-ok (validate_section validate_server_config raw.server) _ h1 in
    let (client, cv, h3) = >>=-eq-ok (validate_section validate_client_config raw.client) _ h2 in
    let (any, h4) = bail_if-eq-ok (is_none server && is_none client) _ _ h3 in
    let loaded : IsLoaded (record { server = server; client = client }) = record {
      some_section = any;
      server_ready = validate_section-IsServer raw.server server sv;
      client_ready = validate_section-IsClient raw.client client cv;
    } in
    let e : record { server = server; client = client } ≡ c = cc in subst IsLoaded e loaded
