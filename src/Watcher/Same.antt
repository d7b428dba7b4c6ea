-- ===== src/Watcher/Same.antt =====
-- Configurations of src/config_watcher.rs that say the same, whatever the order of their maps, and
-- that its comparison finds equal.
use mathlib.Core.Path.{subst}
use rathole_x.Base.{
  ℕ, ◌≡◌, refl, sym, ap, ◌∙◌, inl, inr, Bool, true, Option, none, some, [], ◌∷◌, HasEq, ◌==◌,
  ==-cases, eq_self, nat_eq, text_eq, Text, option_beq, length,
}
use rathole_x.Base.Dict.{Dict, get, IsMap, within, dict_beq}
use rathole_x.Config.{
  Config, ServerConfig, ClientConfig, ServerServiceConfig, ClientServiceConfig, TransportConfig,
}
use rathole_x.Watcher.{
  calculate_events, config_beq, server_beq, client_beq, server_service_eq, client_service_eq,
  transport_eq, option_text_eq, option_bool_eq,
}

module _ {V : Type 0} ⦃e : HasEq V⦄ where
  abbrev Held : Dict Text V → Dict Text V → Type 0
  Held [] b = Unit
  Held ((k, v) ∷ a) b = (get k b ≡ some v) × Held a b

  Held-within : (a b : Dict Text V) → Held a b → within ◌==◌ a b ≡ true
  Held-within [] b h = refl
  Held-within ((k, v) ∷ a) b h = rw (h.0, eq_self v, Held-within a b h.1) refl

  Held-cons :
      (k : Text) (v : V) (a b : Dict Text V) → get k a ≡ none → Held a b → Held a ((k, v) ∷ b)
  unfolding get
  Held-cons k v [] b n h = tt
  Held-cons k v ((j, w) ∷ a) b n h = elim (==-cases j k) [
    | inl (t, _) ↦ let bad : some w ≡ none = rw t at n in cc
    | inr (t, d) ↦ elim (==-cases k j) [
      | inl (_, q) ↦ absurd (d (sym q))
      | inr (u, _) ↦ (rw u h.0, Held-cons k v a b (rw t at n) h.1)
    ]
  ]

  IsMap-Held : (m : Dict Text V) → IsMap m → Held m m
  unfolding get
  IsMap-Held [] u = tt
  IsMap-Held ((k, v) ∷ m) u = (rw (eq_self k) refl, Held-cons k v m m u.0 (IsMap-Held m u.1))

  Held-lookups : (xs a b : Dict Text V) → ((k : Text) → get k a ≡ get k b) → Held xs a → Held xs b
  Held-lookups [] a b g h = tt
  Held-lookups ((k, v) ∷ xs) a b g h = (sym (g k) ∙ h.0, Held-lookups xs a b g h.1)

-- The same entries in any order, with no key twice in the second.
abbrev pub SameMap : {V : Type 0} → Dict Text V → Dict Text V → Type 0
SameMap a b = IsMap b × (length a ≡ length b) × ((k : Text) → get k a ≡ get k b)

module _ {V : Type 0} where
  SameMap-trans : (a b c : Dict Text V) → SameMap a b → SameMap b c → SameMap a c
  SameMap-trans a b c p q = (q.0, p.1 ∙ q.1, λ k. p.2 k ∙ q.2 k)

  SameMap-both : (a b c : Dict Text V) → SameMap a b → SameMap a c → SameMap b c
  SameMap-both a b c p q = (q.0, sym p.1 ∙ q.1, λ k. sym (p.2 k) ∙ q.2 k)

  dict_beq_same :
      ⦃e : HasEq V⦄ → (a b : Dict Text V) → IsMap a → SameMap a b → dict_beq ◌==◌ a b ≡ true
  dict_beq_same a b u h =
      rw (h.1, eq_self (length b), Held-within a b (Held-lookups a a b h.2 (IsMap-Held a u))) refl

-- The maps of a configuration have no key twice.
abbrev pub ServerMap : Option ServerConfig → Type 0
ServerMap none = Unit
ServerMap (some c) = IsMap c.services

abbrev pub ClientMap : Option ClientConfig → Type 0
ClientMap none = Unit
ClientMap (some c) = IsMap c.services

-- Neither section, or two that are the same.
abbrev pub SameSection : {T : Type 0} → (T → T → Type 0) → Option T → Option T → Type 0
SameSection same none none = Unit
SameSection same (some c) (some d) = same c d
SameSection same none (some d) = ⊥
SameSection same (some c) none = ⊥

-- The same section, with its services in any order.
abbrev pub SameServer : ServerConfig → ServerConfig → Type 0
SameServer c d = (c ≡ record d { services = c.services }) × SameMap c.services d.services

abbrev pub SameClient : ClientConfig → ClientConfig → Type 0
SameClient c d = (c ≡ record d { services = c.services }) × SameMap c.services d.services

module _ {T : Type 0} (same : T → T → Type 0) where
  SameSection-trans :
      ((a b c : T) → same a b → same b c → same a c)
      → (o p q : Option T) → SameSection same o p
      → SameSection same p q
      → SameSection same o q
  SameSection-trans f none none none h k = tt
  SameSection-trans f (some a) (some b) (some c) h k = f a b c h k
  SameSection-trans f none none (some c) h k = k
  SameSection-trans f none (some b) q h k = absurd h
  SameSection-trans f (some a) none q h k = absurd h
  SameSection-trans f (some a) (some b) none h k = k

  SameSection-both :
      ((a b c : T) → same a b → same a c → same b c)
      → (o p q : Option T) → SameSection same o p
      → SameSection same o q
      → SameSection same p q
  SameSection-both f none none none h k = tt
  SameSection-both f (some a) (some b) (some c) h k = f a b c h k
  SameSection-both f none none (some c) h k = k
  SameSection-both f none (some b) q h k = absurd h
  SameSection-both f (some a) none q h k = absurd h
  SameSection-both f (some a) (some b) none h k = k

  option_beq_same :
      (test : T → T → Bool) (o p : Option T)
      → ((c d : T) → o ≡ some c → same c d → test c d ≡ true)
      → SameSection same o p
      → option_beq test o p ≡ true
  option_beq_same test none none f h = refl
  option_beq_same test (some c) (some d) f h = f c d refl h
  option_beq_same test none (some d) f h = absurd h
  option_beq_same test (some c) none f h = absurd h

SameServer-trans : (a b c : ServerConfig) → SameServer a b → SameServer b c → SameServer a c
SameServer-trans a b c p q = (
  p.0 ∙ ap {A = ServerConfig} (λ x. record x { services = a.services }) q.0,
  SameMap-trans a.services b.services c.services p.1 q.1,
)

SameServer-both : (a b c : ServerConfig) → SameServer a b → SameServer a c → SameServer b c
SameServer-both a b c p q = (
  ap {A = ServerConfig} (λ x. record x { services = b.services }) (sym p.0 ∙ q.0),
  SameMap-both a.services b.services c.services p.1 q.1,
)

SameClient-trans : (a b c : ClientConfig) → SameClient a b → SameClient b c → SameClient a c
SameClient-trans a b c p q = (
  p.0 ∙ ap {A = ClientConfig} (λ x. record x { services = a.services }) q.0,
  SameMap-trans a.services b.services c.services p.1 q.1,
)

SameClient-both : (a b c : ClientConfig) → SameClient a b → SameClient a c → SameClient b c
SameClient-both a b c p q = (
  ap {A = ClientConfig} (λ x. record x { services = b.services }) (sym p.0 ∙ q.0),
  SameMap-both a.services b.services c.services p.1 q.1,
)

server_beq_services :
    (d : ServerConfig) (m : Dict Text ServerServiceConfig)
    → IsMap m
    → SameMap m d.services
    → server_beq (record d { services = m }) d ≡ true
unfolding server_beq
server_beq_services d m u h =
    rw
      (
        eq_self {A = Text} d.bind_addr,
        eq_self {A = Option Text} d.default_token,
        dict_beq_same m d.services u h,
        eq_self {A = TransportConfig} d.transport,
        eq_self {A = ℕ} d.heartbeat_interval,
      )
      refl

client_beq_services :
    (d : ClientConfig) (m : Dict Text ClientServiceConfig)
    → IsMap m
    → SameMap m d.services
    → client_beq (record d { services = m }) d ≡ true
unfolding client_beq
client_beq_services d m u h =
    rw
      (
        eq_self {A = Text} d.remote_addr,
        eq_self {A = Option Text} d.default_token,
        eq_self {A = Option Bool} d.prefer_ipv6,
        dict_beq_same m d.services u h,
        eq_self {A = TransportConfig} d.transport,
        eq_self {A = ℕ} d.heartbeat_timeout,
        eq_self {A = ℕ} d.retry_interval,
      )
      refl

server_beq_same :
    (o p : Option ServerConfig)
    → ServerMap o
    → SameSection SameServer o p
    → option_beq server_beq o p ≡ true
server_beq_same o p u h =
    option_beq_same SameServer server_beq o p
      (λ c d e same.
        ap (λ x. server_beq x d) same.0
        ∙ server_beq_services d c.services (subst ServerMap e u) same.1)
      h

client_beq_same :
    (o p : Option ClientConfig)
    → ClientMap o
    → SameSection SameClient o p
    → option_beq client_beq o p ≡ true
client_beq_same o p u h =
    option_beq_same SameClient client_beq o p
      (λ c d e same.
        ap (λ x. client_beq x d) same.0
        ∙ client_beq_services d c.services (subst ClientMap e u) same.1)
      h

-- The same configuration, with the services of each section in any order.
abbrev pub SameConfig : Config → Config → Type 0
SameConfig c d = SameSection SameServer c.server d.server × SameSection SameClient c.client d.client

pub SameConfig-trans : (a b c : Config) → SameConfig a b → SameConfig b c → SameConfig a c
SameConfig-trans a b c p q = (
  SameSection-trans SameServer SameServer-trans a.server b.server c.server p.0 q.0,
  SameSection-trans SameClient SameClient-trans a.client b.client c.client p.1 q.1,
)

pub SameConfig-both : (a b c : Config) → SameConfig a b → SameConfig a c → SameConfig b c
SameConfig-both a b c p q = (
  SameSection-both SameServer SameServer-both a.server b.server c.server p.0 q.0,
  SameSection-both SameClient SameClient-both a.client b.client c.client p.1 q.1,
)

abbrev pub IsMaps : Config → Type 0
IsMaps c = ServerMap c.server × ClientMap c.client

SameServer-IsMap : (o p : Option ServerConfig) → SameSection SameServer o p → ServerMap p
SameServer-IsMap none none h = tt
SameServer-IsMap (some c) (some d) h = h.1.0
SameServer-IsMap none (some d) h = absurd h
SameServer-IsMap (some c) none h = absurd h

SameClient-IsMap : (o p : Option ClientConfig) → SameSection SameClient o p → ClientMap p
SameClient-IsMap none none h = tt
SameClient-IsMap (some c) (some d) h = h.1.0
SameClient-IsMap none (some d) h = absurd h
SameClient-IsMap (some c) none h = absurd h

pub SameConfig-IsMaps : (c d : Config) → SameConfig c d → IsMaps d
SameConfig-IsMaps c d h =
    (SameServer-IsMap c.server d.server h.0, SameClient-IsMap c.client d.client h.1)

SameServer-refl : (o : Option ServerConfig) → ServerMap o → SameSection SameServer o o
SameServer-refl none u = tt
SameServer-refl (some c) u = (refl, (u, refl, λ k. refl))

SameClient-refl : (o : Option ClientConfig) → ClientMap o → SameSection SameClient o o
SameClient-refl none u = tt
SameClient-refl (some c) u = (refl, (u, refl, λ k. refl))

pub SameConfig-refl : (c : Config) → IsMaps c → SameConfig c c
SameConfig-refl c u = (SameServer-refl c.server u.0, SameClient-refl c.client u.1)

pub calculate_events_same : (c d : Config) → IsMaps c → SameConfig c d → calculate_events c d ≡ none
unfolding calculate_events config_beq
calculate_events_same c d u h =
    rw (server_beq_same c.server d.server u.0 h.0, client_beq_same c.client d.client u.1 h.1) refl
