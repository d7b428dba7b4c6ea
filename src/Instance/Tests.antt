-- ===== src/Instance/Tests.antt =====
-- The loop of src/lib.rs on a start, a change and a restart.
use rathole_x.Base.{◌≡◌, ◌↔◌, true, false, none, some, List, [], ◌∷◌, codes}
use rathole_x.Config.{Config, ServerConfig, ClientConfig, default_transport}
use rathole_x.Watcher.{ConfigChange, general, server_change, ServerServiceChange}
use rathole_x.Instance.{panicked, run_instance, instance_loop}
use rathole_x.Instance.Generations.{
  one_at_a_time, deliveries, addressed, instance_loop-one_at_a_time, run_instance-role, Explains,
}

abbrev server : ServerConfig
server = record {
  bind_addr = codes "0.0.0.0:2333";
  default_token = none;
  services = [];
  transport = default_transport;
  heartbeat_interval = 30;
}

abbrev client : ClientConfig
client = record {
  remote_addr = codes "example.com:2333";
  default_token = none;
  prefer_ipv6 = none;
  services = [];
  transport = default_transport;
  heartbeat_timeout = 40;
  retry_interval = 1;
}

abbrev config : Config
config = record { server = some server; client = none }

abbrev events : List ConfigChange
events = server_change (ServerServiceChange.delete (codes "ssh")) ∷ general config ∷ []

instance_loop-one_at_a_time_example :
    (one_at_a_time false (instance_loop false (general config ∷ events)) ≡ true)
    × (deliveries none (instance_loop false (general config ∷ events)) ≡ addressed config events)
instance_loop-one_at_a_time_example = instance_loop-one_at_a_time config events

-- A client asked for by a flag, with a configuration of a server.
run_instance-role_example :
    (run_instance config true false ≡ panicked) ↔ Explains config true false panicked
run_instance-role_example = run_instance-role config true false panicked
