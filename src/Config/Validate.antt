-- ===== src/Config/Validate.antt =====
-- What `validate_server_config` of src/config.rs accepts, and how it fills in the rest.
use mathlib.Core.Path.{subst}
use rathole_x.Base.{
  ap, ℕ, Bool, true, false, ◌≡◌, ◌≢◌, ◌↔◌, refl, sym, ◌⊎◌, inl, inr, Option, none, some, List, [],
  ◌∷◌, arith, All, Text, text_eq, text_beq_iff, nat_eq,
}
use rathole_x.Base.Dict.{Dict}
use rathole_x.Config.{
  ServiceType, service_type_beq, ServerServiceConfig, ServerConfig, Error, Result, ok, err, ◌>>=◌,
  ◌>>◌, bail_if, or_else, set_token, has_address, is_some_empty, is_zero, port_of,
  validate_server_services, validate_server_config, token_not_set, token_empty,
  validate_transport_config,
}
use rathole_x.Config.Ready.{
  IsToken, Address, Absent, Distinct, addresses, tokens, fill_server, filled_server, IsServer,
  validate_transport_config_iff,
}

-- What a chain that succeeds went through.
pub >>=-eq-ok {ℓ κ} :
    {A : Type ℓ} {B : Type κ} (first : Result A) (next : A → Result B) {out : B}
    → (first >>= next) ≡ ok out
    → (x : A) × (first ≡ ok x) × (next x ≡ ok out)
>>=-eq-ok (err why) next h = cc
>>=-eq-ok (ok x) next h = (x, refl, h)

pub bail_if-eq-ok {ℓ} :
    {B : Type ℓ} (t : Bool) (e : Error) (k : Result B) {b : B}
    → (bail_if t e >> k) ≡ ok b
    → (t ≡ false) × (k ≡ ok b)
bail_if-eq-ok true e k h = (cc, cc)
bail_if-eq-ok false e k h = (refl, h)

-- The three ways through the token check.
pub set_token_cases :
    (default : Option Text) (name : Text) (token : Option Text)
    → ((set_token default name token ≡ ok (or_else token default))
        × IsToken (or_else token default))
      ⊎ ((e : Error) × (set_token default name token ≡ err e) × ¬ IsToken (or_else token default))
unfolding set_token
set_token_cases default name token = go (or_else token default) refl
  where
    go :
        (o : Option Text)
        → or_else token default ≡ o
        → ((set_token default name token ≡ ok (or_else token default))
            × IsToken (or_else token default))
          ⊎ ((e : Error) × (set_token default name token ≡ err e)
              × ¬ IsToken (or_else token default))
    go none e = inr (token_not_set name, rw e, λ h. h.0 e)
    go (some []) e = inr (token_empty name, rw e, λ h. h.1 e)
    go (some (x ∷ t)) e = inl (rw e, rw e (ground arith))

service_type_iff : (a b : ServiceType) → (service_type_beq a b ≡ true) ↔ (a ≡ b)
service_type_iff ServiceType.tcp ServiceType.tcp = ground arith
service_type_iff ServiceType.tcp ServiceType.udp = ground arith
service_type_iff ServiceType.udp ServiceType.tcp = ground arith
service_type_iff ServiceType.udp ServiceType.udp = ground arith

has_address_iff : (a : Address) (seen : List Address) → (has_address a seen ≡ false) ↔ Absent a seen
has_address_iff a [] = ground arith
has_address_iff a (b ∷ seen) =
    ground (arith, text_beq_iff a.0 b.0, service_type_iff a.1 b.1, has_address_iff a seen)

-- No address of the list was seen before.
abbrev AllAbsent : List Address → List Address → Type 0
AllAbsent xs seen = All (λ a. Absent a seen) xs

AllAbsent-cons :
    (b : Address) (xs seen : List Address)
    → AllAbsent xs (b ∷ seen) ↔ (AllAbsent xs seen × Absent b xs)
AllAbsent-cons b [] seen = ground arith
AllAbsent-cons b (a ∷ xs) seen =
    let rest = AllAbsent-cons b xs seen in
    (
      λ h. let (r, s) = rest.0 h.1 in ((h.0.1, r), (λ e. h.0.0 (sym e.0, sym e.1), s)),
      λ h. ((λ e. h.1.0 (sym e.0, sym e.1), h.0.0), rest.1 (h.0.1, h.1.1)),
    )

-- What the loop wants of the services behind those seen.
abbrev Loop : Option Text → List Address → Dict Text ServerServiceConfig → Type 0
Loop default seen services =
    All IsToken (tokens (fill_server default services))
    × Distinct (addresses services)
    × AllAbsent (addresses services) seen

services_complete :
    (default : Option Text) (seen : List Address) (services : Dict Text ServerServiceConfig)
    → Loop default seen services
    → validate_server_services default seen services ≡ ok (fill_server default services)
unfolding validate_server_services
services_complete default seen [] h = refl
services_complete default seen ((name, s) ∷ rest) h =
    let a : Address = (s.bind_addr, s.service_type) in
    elim (set_token_cases default name s.token) [
      | inr (e, p, no_token) ↦ absurd (no_token h.0.0)
      | inl (p, token) ↦ rw (
        p,
        (has_address_iff a seen).1 h.2.0,
        services_complete default (a ∷ seen) rest
            (h.0.1, h.1.1, (AllAbsent-cons a (addresses rest) seen).1 (h.2.1, h.1.0)),
      )
    ]

services_sound :
    (default : Option Text) (seen : List Address) (services : Dict Text ServerServiceConfig)
    (out : Dict Text ServerServiceConfig)
    → validate_server_services default seen services ≡ ok out
    → Loop default seen services
unfolding validate_server_services
services_sound default seen [] out h = (tt, tt, tt)
services_sound default seen ((name, s) ∷ rest) out h =
    let a : Address = (s.bind_addr, s.service_type) in
    let (t, taken, h1) = >>=-eq-ok (set_token default name s.token) _ h in
    let (new, h2) = bail_if-eq-ok (has_address a seen) _ _ h1 in
    let (out', ran, _) = >>=-eq-ok (validate_server_services default (a ∷ seen) rest) _ h2 in
    let (ts, ds, apart) = services_sound default (a ∷ seen) rest out' ran in
    let (apart', absent) = (AllAbsent-cons a (addresses rest) seen).0 apart in
    elim (set_token_cases default name s.token) [
      | inr (e, p, _) ↦ cc
      | inl (_, token) ↦ ((token, ts), (absent, ds), ((has_address_iff a seen).0 new, apart'))
    ]

addresses-fill :
    (default : Option Text) (services : Dict Text ServerServiceConfig)
    → addresses (fill_server default services) ≡ addresses services
addresses-fill default [] = refl
addresses-fill default ((name, s) ∷ rest) =
    ap (◌∷◌ (s.bind_addr, s.service_type)) (addresses-fill default rest)

AllAbsent-nil : (xs : List Address) → AllAbsent xs []
AllAbsent-nil [] = tt
AllAbsent-nil (x ∷ xs) = (tt, AllAbsent-nil xs)

pub is_zero_iff : (o : Option ℕ) → (is_zero o ≡ false) ↔ (o ≢ some 0)
is_zero_iff none = ground arith
is_zero_iff (some n) = ground arith

pub is_some_empty_iff : (o : Option Text) → (is_some_empty o ≡ false) ↔ (o ≢ some [])
is_some_empty_iff none = ground arith
is_some_empty_iff (some []) = ground arith
is_some_empty_iff (some (x ∷ t)) = ground arith

-- A `[server]` section passes validation, which gives it with the name and the token of each
-- service filled in, if then its control address has no port that parses as 0, no default token
-- is empty, each service has a token, no address is published twice for one protocol, a proxy is
-- SOCKS5 or HTTP with a host and a port, and the transport has its material or is a websocket.
pub validate_server_config_complete :
    (c : ServerConfig)
    → IsServer (filled_server c)
    → validate_server_config c ≡ ok (filled_server c)
unfolding validate_server_config
validate_server_config_complete c v =
    let clash = subst Distinct (addresses-fill c.default_token c.services) v.no_clash in
    rw (
      (is_zero_iff (port_of c.bind_addr)).1 v.fixed_port,
      (is_some_empty_iff c.default_token).1 v.default_set,
      services_complete c.default_token [] c.services
          (v.all_tokens, clash, AllAbsent-nil (addresses c.services)),
      (validate_transport_config_iff c.transport true).1 v.transport,
    )

-- A `[server]` section that passes validation comes out with the name and the token of each
-- service filled in: then its control address has no port that parses as 0, no default token is
-- empty, each service has a token, no address is published twice for one protocol, a proxy is
-- SOCKS5 or HTTP with a host and a port, and the transport has the sections that its constructor
-- needs, unless it is a websocket, whose section nothing checks.
pub validate_server_config_sound :
    (c out : ServerConfig)
    → validate_server_config c ≡ ok out
    → (out ≡ filled_server c) × IsServer (filled_server c)
unfolding validate_server_config
validate_server_config_sound c out h =
    let (port, h1) = bail_if-eq-ok (is_zero (port_of c.bind_addr)) _ _ h in
    let (set, h2) = bail_if-eq-ok (is_some_empty c.default_token) _ _ h1 in
    let (services, ran, h3) =
      >>=-eq-ok (validate_server_services c.default_token [] c.services) _ h2 in
    let (u, checked, h4) = >>=-eq-ok (validate_transport_config c.transport true) _ h3 in
    let loop = services_sound c.default_token [] c.services services ran in
    let full = services_complete c.default_token [] c.services loop in
    let same : services ≡ fill_server c.default_token c.services = cc (full, ran) in
    let v : IsServer (filled_server c) = record {
      fixed_port = (is_zero_iff (port_of c.bind_addr)).0 port;
      default_set = (is_some_empty_iff c.default_token).0 set;
      all_tokens = loop.0;
      no_clash = subst Distinct (sym (addresses-fill c.default_token c.services)) loop.1;
      transport = (validate_transport_config_iff c.transport true).0 checked;
    } in
    (cc, v)
