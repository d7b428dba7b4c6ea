-- ===== src/ConfigEdit/Add/Tests.antt =====
-- Adding a service to the configuration of a server that has one.
use rathole_x.Base.{◌≡◌, refl, true, false, none, some, [], ◌∷◌, ◌++◌, Text, text_eq, codes}
use rathole_x.Base.Parse.{rsplit_once, parse_u16, parse_digits}
use rathole_x.Base.Trim.{trim, split, split_once}
use rathole_x.Config
use rathole_x.Config.{
  ServerConfig, default_transport, validate, from_str, validate_server_config,
  validate_server_services, validate_transport_config, validate_proxy,
}
use rathole_x.ConfigEdit.{server, done, ensure_role_allows, detect_role}
use rathole_x.ConfigEdit.Toml.{Toml}
use rathole_x.ConfigEdit.Sample.{text, table, Fields, nil, field, sample_toml}
use rathole_x.ConfigEdit.Spec.{parse_spec, valid_host_port, spec_to_pending}
use rathole_x.ConfigEdit.Add.{missing, content, Disk, run_add_batch}
use rathole_x.ConfigEdit.Add.Batch.{Ran, run_add_batch-Ran}

abbrev ssh : Fields
ssh =
    field (codes "bind_addr") (text (codes "0.0.0.0:22"))
      (field (codes "token") (text (codes "t")) nil)

abbrev with_services : Fields → Fields
with_services s =
    field (codes "server")
      (table (
        field (codes "bind_addr") (text (codes "0.0.0.0:1"))
          (field (codes "services") (table s) nil)))
      nil

abbrev toml : Toml
toml = sample_toml (with_services (field (codes "ssh") (table ssh) nil))

-- The parser of the runtime, which finds an empty server.
abbrev parsed : Config.Config
parsed = record {
  server = some (record {
    bind_addr = codes "0.0.0.0:1";
    default_token = none;
    services = [];
    transport = default_transport;
    heartbeat_interval = 30;
  });
  client = none;
}

abbrev spec : Text
spec = codes " name: web ;bind:0.0.0.0:80;type:udp"

abbrev disk : Disk
disk = record { file = content (codes "old"); writes = [] }

abbrev token : Text
token = codes "fresh"

run_add_batch_run :
    run_add_batch toml (λ _. some parsed) (λ _. false) (λ _. token) true [] (spec ∷ []) disk ≡ (
      done (record { side = server; name = codes "web"; generated = some token } ∷ []),
      record {
        file = content (codes "server" ++ 10 ∷ []);
        writes = (codes "server" ++ 10 ∷ []) ∷ [];
      },
    )
unfolding run_add_batch parse_spec valid_host_port spec_to_pending trim split split_once rsplit_once
    parse_u16 parse_digits validate from_str validate_server_config validate_server_services
    validate_transport_config validate_proxy ensure_role_allows detect_role
run_add_batch_run = refl

-- A new file.
abbrev new : Disk
new = record { file = missing; writes = [] }

run_add_batch-Ran_example :
    Ran toml
      (λ _. false)
      (λ _. token)
      (λ _. some parsed)
      []
      (spec ∷ [])
      new
      (run_add_batch toml (λ _. some parsed) (λ _. false) (λ _. token) true [] (spec ∷ []) new)
run_add_batch-Ran_example =
    run_add_batch-Ran toml (λ _. false) (λ _. token) (λ _. some parsed) true [] (spec ∷ []) new
      (λ lines doc c. refl)
