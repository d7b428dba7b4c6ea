-- ===== src/Watcher/Tests.antt =====
-- The loop of src/config_watcher.rs on a file that is edited.
use rathole_x.Base.{◌≡◌, refl, none, some, List, [], ◌∷◌, codes, Text, text_eq, ==-cases, inl, inr}
use rathole_x.Base.Dict.{Dict, get}
use rathole_x.Config.{Config, ServiceType, ServerServiceConfig, default_transport}
use rathole_x.Watcher.{FileEvent, rescan, shutdown, config_watcher}
use rathole_x.Watcher.Same.{SameConfig}
use rathole_x.Watcher.Loop.{
  config_watcher-same, config_watcher-valid_configs, changes, valid_configs, latest,
}

abbrev config : Config
config = record {
  server = some (record {
    bind_addr = codes "0.0.0.0:2333";
    default_token = none;
    services = [];
    transport = default_transport;
    heartbeat_interval = 30;
  });
  client = none;
}

abbrev events : List FileEvent
events =
    rescan none
    ∷ rescan (some config)
    ∷ rescan none
    ∷ shutdown
    ∷ rescan (some (record config { server = none }))
    ∷ []

abbrev ssh : ServerServiceConfig
ssh = record {
  service_type = ServiceType.tcp;
  name = codes "ssh";
  bind_addr = codes "0.0.0.0:22";
  token = some (codes "t");
  nodelay = none;
}

abbrev with_services : Dict Text ServerServiceConfig → Config
with_services services = record {
  server = some (record {
    bind_addr = codes "0.0.0.0:2333";
    default_token = none;
    services = services;
    transport = default_transport;
    heartbeat_interval = 30;
  });
  client = none;
}

abbrev ssh_web : Dict Text ServerServiceConfig
ssh_web = (codes "ssh", ssh) ∷ (codes "web", record ssh { bind_addr = codes "0.0.0.0:80" }) ∷ []

abbrev web_ssh : Dict Text ServerServiceConfig
web_ssh = (codes "web", record ssh { bind_addr = codes "0.0.0.0:80" }) ∷ (codes "ssh", ssh) ∷ []

same_lookups : (k : Text) → get k ssh_web ≡ get k web_ssh
unfolding get
same_lookups k = elim (==-cases (codes "ssh") k) [
  | inl (p, e) ↦ rw (← e) refl
  | inr (p, _) ↦ rw p refl
]

-- The parser gives the services of the file in another order.
config_watcher-same_example :
    ((config_watcher
        (with_services ssh_web)
        (rescan none ∷ rescan (some (with_services web_ssh)) ∷ shutdown ∷ [])).0
      ≡ [])
    × SameConfig (with_services ssh_web) (
        (config_watcher
          (with_services ssh_web)
          (rescan none ∷ rescan (some (with_services web_ssh)) ∷ shutdown ∷ [])).1)
unfolding get
config_watcher-same_example =
    config_watcher-same (with_services ssh_web)
      (rescan none ∷ rescan (some (with_services web_ssh)) ∷ shutdown ∷ []) ((refl, (refl, tt)), tt)
      (tt, (((refl, ((refl, (refl, tt)), refl, same_lookups)), tt), (tt, tt)))

config_watcher-valid_configs_example :
    config_watcher config events
    ≡ (changes config (valid_configs events), latest config (valid_configs events))
config_watcher-valid_configs_example = config_watcher-valid_configs config events
