-- ===== src/Watcher.antt =====
-- src/config_watcher.rs: what a changed configuration file asks of the running instance. File
-- system notifications and reading the file are the environment's: an event of the watcher carries
-- what `Config::from_file` returned.
pub mod Equality
pub mod Same
pub mod Loop
pub mod Tests
use rathole_x.Base.{
  ℕ, Bool, true, false, not, ◌&&◌, ◌||◌, Option, none, some, List, [], ◌∷◌, ◌++◌, map,
  if◌then◌else◌, is_some, is_none, HasEq, ◌==◌, nat_eq, text_eq, Text, of_discrete, select,
  option_beq, ℕ_discrete, to_bool,
}
use rathole_x.Base.Dict.{Dict, get, keys, dict_beq}
use rathole_x.Config.{
  TransportConfig, ClientServiceConfig, ServerServiceConfig, ClientConfig, ServerConfig, Config,
  Result, ok, err,
}

pub data ClientServiceChange : Type 0 where
  add : ClientServiceConfig → ClientServiceChange
  delete : Text → ClientServiceChange

pub data ServerServiceChange : Type 0 where
  add : ServerServiceConfig → ServerServiceChange
  delete : Text → ServerServiceChange

pub data ConfigChange : Type 0 where
  general : Config → ConfigChange
  server_change : ServerServiceChange → ConfigChange
  client_change : ClientServiceChange → ConfigChange

-- The derived `PartialEq` of what holds no map is structural equality.
pub ServerServiceConfig-discrete : Discrete ServerServiceConfig
ServerServiceConfig-discrete = hlevel ℕ_discrete

pub ClientServiceConfig-discrete : Discrete ClientServiceConfig
ClientServiceConfig-discrete = hlevel ℕ_discrete

pub TransportConfig-discrete : Discrete TransportConfig
TransportConfig-discrete = hlevel ℕ_discrete

pub OptionText-discrete : Discrete (Option Text)
OptionText-discrete = hlevel ℕ_discrete

pub OptionBool-discrete : Discrete (Option Bool)
OptionBool-discrete = hlevel

instance abbrev pub server_service_eq : HasEq ServerServiceConfig
server_service_eq = of_discrete ServerServiceConfig-discrete

instance abbrev pub client_service_eq : HasEq ClientServiceConfig
client_service_eq = of_discrete ClientServiceConfig-discrete

instance abbrev pub transport_eq : HasEq TransportConfig
transport_eq = of_discrete TransportConfig-discrete

instance abbrev pub option_text_eq : HasEq (Option Text)
option_text_eq = of_discrete OptionText-discrete

instance abbrev pub option_bool_eq : HasEq (Option Bool)
option_bool_eq = of_discrete OptionBool-discrete

-- `ServerConfig == ServerConfig`
pub server_beq : ServerConfig → ServerConfig → Bool
server_beq a b =
    a.bind_addr == b.bind_addr
    && a.default_token == b.default_token
    && dict_beq ◌==◌ a.services b.services
    && a.transport == b.transport
    && a.heartbeat_interval == b.heartbeat_interval

-- `ClientConfig == ClientConfig`
pub client_beq : ClientConfig → ClientConfig → Bool
client_beq a b =
    a.remote_addr == b.remote_addr
    && a.default_token == b.default_token
    && a.prefer_ipv6 == b.prefer_ipv6
    && dict_beq ◌==◌ a.services b.services
    && a.transport == b.transport
    && a.heartbeat_timeout == b.heartbeat_timeout
    && a.retry_interval == b.retry_interval

-- `Config == Config`
pub config_beq : Config → Config → Bool
unfolding server_beq client_beq
config_beq a b = option_beq server_beq a.server b.server && option_beq client_beq a.client b.client

-- `trait InstanceConfig`
pub record InstanceConfig (T S : Type 0) : Type 0 where
  pub equal_without_service : T → T → Bool
  pub service_delete_change : Text → ConfigChange
  pub service_add_change : S → ConfigChange
  pub get_services : T → Dict Text S

instance abbrev pub server_instance : InstanceConfig ServerConfig ServerServiceConfig
server_instance = record {
  equal_without_service =
      λ a b. server_beq (record a { services = [] }) (record b { services = [] });
  service_delete_change = λ s. server_change (ServerServiceChange.delete s);
  service_add_change = λ c. server_change (ServerServiceChange.add c);
  get_services = λ c. c.services;
}

instance abbrev pub client_instance : InstanceConfig ClientConfig ClientServiceConfig
client_instance = record {
  equal_without_service =
      λ a b. client_beq (record a { services = [] }) (record b { services = [] });
  service_delete_change = λ s. client_change (ClientServiceChange.delete s);
  service_add_change = λ c. client_change (ClientServiceChange.add c);
  get_services = λ c. c.services;
}

module _ {S : Type 0} ⦃e : HasEq S⦄ where
  -- The names that `deletions` filters.
  abbrev pub gone : Dict Text S → Dict Text S → List Text
  gone old new = select (λ name. is_none (get name new)) (keys old)

  -- The entries that `addition` filters.
  abbrev pub fresh : Dict Text S → Dict Text S → Dict Text S
  fresh old new = select (λ x. not (option_beq ◌==◌ (get (x.0) old) (some (x.1)))) new

  abbrev pub entry_value : Text × S → S
  entry_value x = x.1

-- `calculate_instance_config_events`; `none` asks for a restart.
unfoldable pub calculate_instance_config_events :
    (S : Type 0) {T : Type 0} ⦃e : HasEq S⦄ ⦃i : InstanceConfig T S⦄
    → T
    → T
    → Option (List ConfigChange)
calculate_instance_config_events S ⦃e⦄ ⦃i⦄ old new =
    let deletions = map i.service_delete_change (gone (i.get_services old) (i.get_services new)) in
    let addition =
      map (λ x. i.service_add_change (entry_value x))
        (fresh (i.get_services old) (i.get_services new)) in
    if not (i.equal_without_service old new) then none else some (deletions ++ addition)

-- `==` on `bool`
abbrev pub to_test : Bool → Bool → Bool
to_test true b = b
to_test false b = not b

-- One `if old.x != new.x` of `calculate_events`, where both sections stand or neither.
abbrev pub section_events :
    (S : Type 0) {T : Type 0} ⦃e : HasEq S⦄ ⦃i : InstanceConfig T S⦄
    → (T → T → Bool)
    → Option T
    → Option T
    → Option (List ConfigChange)
section_events S test (some old) (some new) =
    let events = calculate_instance_config_events S old new in
    if not (test old new) then events else some []
section_events S test _ _ = some []

abbrev pub join_events :
    Config → Option (List ConfigChange) → Option (List ConfigChange) → List ConfigChange
join_events new none _ = general new ∷ []
join_events new (some _) none = general new ∷ []
join_events new (some a) (some b) = a ++ b

-- `calculate_events`
unfoldable pub calculate_events : Config → Config → Option (List ConfigChange)
unfolding config_beq calculate_instance_config_events
calculate_events old new =
    let moved =
      not (to_test (is_some old.server) (is_some new.server))
      || not (to_test (is_some old.client) (is_some new.client)) in
    let server = section_events ServerServiceConfig server_beq old.server new.server in
    let client = section_events ClientServiceConfig client_beq old.client new.client in
    if config_beq old new
    then none
    else if moved
    then some (general new ∷ [])
    else some (join_events new server client)

-- What reaches the watcher: a modification of the file, with what `Config::from_file` then returned
-- (`none` is an invalid configuration), the end of the notifications, or the shutdown signal.
pub data FileEvent : Type 0 where
  rescan : Option Config → FileEvent
  notifications_ended : FileEvent
  shutdown : FileEvent

abbrev pub flatten : Option (List ConfigChange) → List ConfigChange
flatten none = []
flatten (some events) = events

-- The loop of `config_watcher`: the events that it sends, and `old` at its end. The receiver of the
-- events stays open.
unfoldable pub config_watcher : Config → List FileEvent → List ConfigChange × Config
unfolding calculate_events
config_watcher old [] = ([], old)
config_watcher old (rescan none ∷ rest) = config_watcher old rest
config_watcher old (rescan (some new) ∷ rest) =
    let later = config_watcher new rest in (flatten (calculate_events old new) ++ later.0, later.1)
config_watcher old (notifications_ended ∷ rest) = ([], old)
config_watcher old (shutdown ∷ rest) = ([], old)

-- `ConfigWatcherHandle::new`: the watcher's events after the first, which starts the instance.
unfoldable pub new_watcher : Config → List FileEvent → List ConfigChange
unfolding config_watcher
new_watcher origin_cfg events = general origin_cfg ∷ (config_watcher origin_cfg events).0
