-- ===== src/Config/Tests.antt =====
-- Configurations of src/config.rs, as in its tests.
use rathole_x.Base.{true, false, ◌≡◌, refl, none, some, [], ◌∷◌, codes, text_eq}
use rathole_x.Base.Parse.{parse_u16, rsplit_once}
use rathole_x.Config.{
  ServiceType, TransportType, TransportConfig, ServerServiceConfig, ServerConfig,
  ClientServiceConfig, ClientConfig, Config, ok, err, port_zero, duplicate_bind_addr,
  default_transport, validate_server_config, validate_client_config, from_str,
  validate_server_services, validate_client_services, validate_transport_config,
}
use rathole_x.Config.Ready.{HasMaterial, IsServer, filled_server}
use rathole_x.Config.Validate.{validate_server_config_sound, validate_server_config_complete}
use rathole_x.Config.Client.{
  IsClient, IsLoaded, filled_client, validate_client_config_sound, validate_client_config_complete,
  from_str-IsLoaded,
}

abbrev ssh : ServerServiceConfig
ssh = record {
  service_type = ServiceType.tcp;
  name = [];
  bind_addr = codes "0.0.0.0:22";
  token = none;
  nodelay = none;
}

abbrev dns : ServerServiceConfig
dns = record {
  service_type = ServiceType.udp;
  name = [];
  bind_addr = codes "0.0.0.0:22";
  token = some (codes "t2");
  nodelay = none;
}

abbrev server : ServerConfig
server = record {
  bind_addr = codes "0.0.0.0:2333";
  default_token = some (codes "t1");
  services = (codes "ssh", ssh) ∷ (codes "dns", dns) ∷ [];
  transport = default_transport;
  heartbeat_interval = 30;
}

abbrev web : ClientServiceConfig
web = record {
  service_type = ServiceType.tcp;
  name = [];
  local_addr = codes "127.0.0.1:80";
  prefer_ipv6 = false;
  token = none;
  nodelay = none;
  retry_interval = none;
}

abbrev client : ClientConfig
client = record {
  remote_addr = codes "example.com:2333";
  default_token = some (codes "t1");
  prefer_ipv6 = none;
  services = (codes "web", web) ∷ [];
  transport = default_transport;
  heartbeat_timeout = 40;
  retry_interval = 1;
}

-- TCP and UDP may share an address; a repeat within TCP is refused.
same_port_ok : validate_server_config server ≡ ok (filled_server server)
unfolding validate_server_config validate_server_services validate_transport_config rsplit_once
    parse_u16
same_port_ok = refl

clash_refused :
    validate_server_config
      (record server { services = (codes "ssh", ssh) ∷ (codes "again", ssh) ∷ [] })
    ≡ err (duplicate_bind_addr (codes "0.0.0.0:22") (codes "again"))
unfolding validate_server_config validate_server_services validate_transport_config rsplit_once
    parse_u16
clash_refused = refl

port_zero_refused :
    validate_server_config (record server { bind_addr = codes "0.0.0.0:+0" })
    ≡ err (port_zero (codes "0.0.0.0:+0"))
unfolding validate_server_config rsplit_once parse_u16
port_zero_refused = refl

-- A websocket without its section is accepted, and has not what its constructor needs.
abbrev no_section : TransportConfig
no_section = record default_transport { transport_type = TransportType.websocket }

websocket_unchecked :
    (validate_transport_config no_section true ≡ ok tt)
    × ¬ HasMaterial no_section.transport_type true no_section
unfolding validate_transport_config
websocket_unchecked = (refl, λ h. h)

same_client_ok : validate_client_config client ≡ ok (filled_client client)
unfolding validate_client_config validate_client_services validate_transport_config
same_client_ok = refl

validate_server_config_sound_example :
    (filled_server server ≡ filled_server server) × IsServer (filled_server server)
validate_server_config_sound_example =
    validate_server_config_sound server (filled_server server) same_port_ok

validate_server_config_complete_example : validate_server_config server ≡ ok (filled_server server)
validate_server_config_complete_example =
    validate_server_config_complete server
      (validate_server_config_sound server (filled_server server) same_port_ok).1

validate_client_config_sound_example :
    (filled_client client ≡ filled_client client) × IsClient (filled_client client)
validate_client_config_sound_example =
    validate_client_config_sound client (filled_client client) same_client_ok

validate_client_config_complete_example : validate_client_config client ≡ ok (filled_client client)
validate_client_config_complete_example =
    validate_client_config_complete client
      (validate_client_config_sound client (filled_client client) same_client_ok).1

abbrev loaded : Config
loaded = record { server = some (filled_server server); client = none }

from_str-IsLoaded_example : IsLoaded loaded
unfolding from_str validate_server_config validate_server_services validate_transport_config
    rsplit_once parse_u16
from_str-IsLoaded_example =
    from_str-IsLoaded (λ _. some (record { server = some server; client = none })) [] loaded refl
