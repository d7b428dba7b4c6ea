-- ===== src/ConfigEdit/Set/Tests.antt =====
-- Setting fields of a server's section.
use rathole_x.Base.{◌≡◌, refl, true, false, none, some, [], ◌∷◌, text_eq, codes}
use rathole_x.Base.Parse.{rsplit_once, parse_u16, parse_digits}
use rathole_x.Config
use rathole_x.Config.{
  ServerConfig, default_transport, validate, from_str, validate_server_config,
  validate_server_services, validate_transport_config, validate_proxy,
}
use rathole_x.ConfigEdit.{server, done, ensure_role_allows, detect_role}
use rathole_x.ConfigEdit.Toml.{Toml}
use rathole_x.ConfigEdit.Sample.{text, table, nil, field, sample_toml}
use rathole_x.ConfigEdit.Spec.{valid_host_port}
use rathole_x.ConfigEdit.Add.{content, Disk}
use rathole_x.ConfigEdit.Args.{SetArgs}
use rathole_x.ConfigEdit.Set.{run_set}
use rathole_x.ConfigEdit.Set.Saved.{Ran, run_set-Ran}

abbrev toml : Toml
toml = sample_toml (
    field (codes "server")
      (table (
        field (codes "bind_addr") (text (codes "0.0.0.0:1"))
          (field (codes "services") (table nil) nil)))
      nil)

-- The parser of the runtime, which finds an empty server.
abbrev parsed : Config.Config
parsed = record {
  server = some (record {
    bind_addr = codes "0.0.0.0:2";
    default_token = none;
    services = [];
    transport = default_transport;
    heartbeat_interval = 30;
  });
  client = none;
}

-- `--bind-addr 0.0.0.0:2 --default-token t --noise --nodelay true`
abbrev args : SetArgs
args = record {
  client_flag = false;
  server_flag = false;
  remote_addr = none;
  bind_addr = some (codes "0.0.0.0:2");
  default_token = some (codes "t");
  prefer_ipv6 = none;
  heartbeat_timeout = none;
  retry_interval = none;
  heartbeat_interval = some 30;
  transport = none;
  noise_flag = true;
  noise_key = none;
  trusted_root = none;
  hostname = none;
  pkcs12 = none;
  pkcs12_password = none;
  ws_tls = none;
  nodelay = some true;
  keepalive_secs = none;
  keepalive_interval = none;
  proxy = none;
}

abbrev disk : Disk
disk = record { file = content (codes "old"); writes = [] }

run_set_run :
    run_set toml (λ _. false) (λ _. true) (codes "key") (λ _. some parsed) true args disk
    ≡ (done server, record { file = content (codes "server\n"); writes = codes "server\n" ∷ [] })
unfolding run_set valid_host_port rsplit_once parse_u16 parse_digits validate from_str
    validate_server_config validate_server_services validate_transport_config validate_proxy
    ensure_role_allows detect_role
run_set_run = refl

run_set-Ran_example :
    Ran toml
      (λ _. false)
      (λ _. true)
      (codes "key")
      (λ _. some parsed)
      args
      disk
      (run_set toml (λ _. false) (λ _. true) (codes "key") (λ _. some parsed) true args disk)
run_set-Ran_example =
    run_set-Ran toml (λ _. false) (λ _. true) (codes "key") (λ _. some parsed) true args disk
      (λ lines doc c. refl)
