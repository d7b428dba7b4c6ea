-- ===== src/Config/Ready.antt =====
-- What validation asks of a configuration of src/config.rs, in plain words, what the constructors of
-- src/transport need of it, and what validation fills in.
use rathole_x.Base.{
  ℕ, Bool, true, false, ◌≡◌, ◌≢◌, refl, ◌⊎◌, inl, inr, Option, none, some, List, [], ◌∷◌, arith,
  All, Text, codes, text_eq, ◌==◌, ◌||◌, ◌&&◌, text_beq_iff, is_some, ◌↔◌, Bool-cases,
  if◌then◌else◌,
}
use rathole_x.Base.Dict.{Dict}
use rathole_x.Config.{
  ServiceType, ServerServiceConfig, TransportConfig, TransportType, Url, TlsConfig, MaskedString,
  WebsocketConfig, Error, proxy_needs_host_and_port, unknown_proxy_scheme, Result, ok, err, or_else,
  validate_proxy, validate_tls, validate_kind, validate_transport_config, ServerConfig, port_of,
}

-- A token that is there and is not empty.
abbrev pub IsToken : Option Text → Type 0
IsToken o = (o ≢ none) × (o ≢ some [])

abbrev pub Address : Type 0
Address = Text × ServiceType

-- No listed service publishes at the address.
abbrev pub Absent : Address → List Address → Type 0
Absent a bs = All (λ b. ¬ ((a.0 ≡ b.0) × (a.1 ≡ b.1))) bs

abbrev pub Distinct : List Address → Type 0
Distinct [] = Unit
Distinct (a ∷ bs) = Absent a bs × Distinct bs

abbrev pub addresses : Dict Text ServerServiceConfig → List Address
addresses [] = []
addresses ((_, s) ∷ rest) = (s.bind_addr, s.service_type) ∷ addresses rest

abbrev pub tokens : Dict Text ServerServiceConfig → List (Option Text)
tokens [] = []
tokens ((_, s) ∷ rest) = s.token ∷ tokens rest

-- Each service under its name, with its own token or the default.
abbrev pub fill_server : Option Text → Dict Text ServerServiceConfig → Dict Text ServerServiceConfig
fill_server default [] = []
fill_server default ((name, s) ∷ rest) =
    (name, record s { name = name; token = or_else s.token default }) ∷ fill_server default rest

abbrev pub filled_server : ServerConfig → ServerConfig
filled_server c = record c { services = fill_server c.default_token c.services }

-- A proxy that the code can dial.
abbrev pub IsProxy : Option Url → Type 0
IsProxy none = Unit
IsProxy (some u) =
    ((u.scheme ≡ codes "socks5") ⊎ (u.scheme ≡ codes "http")) × (u.host ≢ none) × (u.port ≢ none)

-- A password, where there is what it unlocks.
abbrev pub Unlocked : Option Text → Option MaskedString → Type 0
Unlocked none password = Unit
Unlocked (some _) password = password ≢ none

-- What TLS needs of its section: to accept, an identity with its password; to connect, the password of
-- an identity that is given.
abbrev pub HasTls : Bool → Option TlsConfig → Type 0
HasTls is_server none = ⊥
HasTls true (some t) = (t.pkcs12 ≢ none) × (t.pkcs12_password ≢ none)
HasTls false (some t) = Unlocked t.pkcs12 t.pkcs12_password

abbrev pub HasSocket : Bool → TransportConfig → Option WebsocketConfig → Type 0
HasSocket is_server c none = ⊥
HasSocket is_server c (some w) = (w.tls ≡ false) ⊎ HasTls is_server c.tls

-- The sections that the constructor of each transport needs, and that TLS needs to accept on a server.
abbrev pub HasMaterial : TransportType → Bool → TransportConfig → Type 0
HasMaterial TransportType.tcp is_server c = Unit
HasMaterial TransportType.tls is_server c = HasTls is_server c.tls
HasMaterial TransportType.noise is_server c = c.noise ≢ none
HasMaterial TransportType.websocket is_server c = HasSocket is_server c c.websocket

-- What validation lets pass unseen: any websocket, and a TLS client's identity without its password.
abbrev pub IsUnchecked : TransportType → Bool → TransportConfig → Type 0
IsUnchecked TransportType.websocket is_server c = Unit
IsUnchecked TransportType.tls false c =
    (t : TlsConfig) × (c.tls ≡ some t) × (t.pkcs12 ≢ none) × (t.pkcs12_password ≡ none)
IsUnchecked TransportType.tls true c = ⊥
IsUnchecked TransportType.noise is_server c = ⊥
IsUnchecked TransportType.tcp is_server c = ⊥

abbrev pub IsTransport : Bool → TransportConfig → Type 0
IsTransport is_server c =
    IsProxy c.tcp.proxy
    × (HasMaterial c.transport_type is_server c ⊎ IsUnchecked c.transport_type is_server c)

pub record IsServer (c : ServerConfig) : Type 0 where
  pub fixed_port : port_of c.bind_addr ≢ some 0
  pub default_set : c.default_token ≢ some []
  pub all_tokens : All IsToken (tokens c.services)
  pub no_clash : Distinct (addresses c.services)
  pub transport : IsTransport true c.transport

scheme_iff : (s a b : Text) → ((s == a || s == b) ≡ true) ↔ ((s ≡ a) ⊎ (s ≡ b))
scheme_iff s a b = ground (arith, text_beq_iff s a, text_beq_iff s b)

parts_iff :
    (h : Option Text) (p : Option ℕ) (e : Error)
    → (◌≡◌ {A = Result (Unit {0})} (if is_some h && is_some p then ok tt else err e) (ok tt))
      ↔ ((h ≢ none) × (p ≢ none))
parts_iff h p e = ground arith

validate_proxy_iff : (p : Option Url) → (validate_proxy p ≡ ok tt) ↔ IsProxy p
unfolding validate_proxy
validate_proxy_iff none = (λ _. tt, λ _. refl)
validate_proxy_iff (some u) =
    let known = scheme_iff u.scheme (codes "socks5") (codes "http") in
    let parts = parts_iff u.host u.port (proxy_needs_host_and_port u) in
    elim (Bool-cases (u.scheme == codes "socks5" || u.scheme == codes "http")) [
      | inl t ↦ (
        λ h. let q = parts.0 (rw t at h) in (known.0 t, q.0, q.1),
        λ h. rw t (parts.1 (h.1, h.2)),
      )
      | inr t ↦ (
        λ h. let bad : err (unknown_proxy_scheme u.scheme) ≡ ok tt = rw t at h in cc,
        λ h. let hit = known.1 h.0 in cc,
      )
    ]

tls_server_iff : (o : Option TlsConfig) → (validate_tls true o ≡ ok tt) ↔ (HasTls true o ⊎ ⊥)
tls_server_iff none = ground arith
tls_server_iff (some t) = ground arith

tls_client_iff :
    (o : Option TlsConfig)
    → (validate_tls false o ≡ ok tt) ↔ (
        HasTls false o
        ⊎ ((t : TlsConfig) × (o ≡ some t) × (t.pkcs12 ≢ none) × (t.pkcs12_password ≡ none)))
tls_client_iff none = (λ h. cc, λ h. elim h [ inl b ↦ absurd b | inr (t, e, _, _) ↦ cc ])
tls_client_iff (some t) = (λ h. by_password t.pkcs12 t.pkcs12_password refl refl, λ h. refl)
  where
    by_password :
        (i : Option Text) (password : Option MaskedString)
        → t.pkcs12 ≡ i
        → t.pkcs12_password ≡ password
        → Unlocked i password
          ⊎ ((u : TlsConfig) × (some t ≡ some u) × (u.pkcs12 ≢ none) × (u.pkcs12_password ≡ none))
    by_password none password p q = inl tt
    by_password (some i) (some word) p q = inl (λ h. cc)
    by_password (some i) none p q = inr (t, refl, λ h. cc, q)

validate_kind_iff :
    (k : TransportType) (is_server : Bool) (c : TransportConfig)
    → (validate_kind k is_server c ≡ ok tt)
      ↔ (HasMaterial k is_server c ⊎ IsUnchecked k is_server c)
validate_kind_iff TransportType.tcp is_server c = (λ _. inl tt, λ _. refl)
validate_kind_iff TransportType.tls true c = tls_server_iff c.tls
validate_kind_iff TransportType.tls false c = tls_client_iff c.tls
validate_kind_iff TransportType.noise is_server c = ground arith
validate_kind_iff TransportType.websocket is_server c = (λ _. inr tt, λ _. refl)

-- The check of the transport passes exactly when the proxy, if any, can be dialled and the transport has its
-- material or is one of those that validation does not look at.
pub validate_transport_config_iff :
    (c : TransportConfig) (is_server : Bool)
    → (validate_transport_config c is_server ≡ ok tt) ↔ IsTransport is_server c
unfolding validate_transport_config
validate_transport_config_iff c is_server =
    ground (arith, validate_proxy_iff c.tcp.proxy, validate_kind_iff c.transport_type is_server c)
