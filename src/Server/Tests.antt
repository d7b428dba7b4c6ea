-- ===== src/Server/Tests.antt =====
-- src/server.rs at concrete inputs: one service, one client, one reload, and a client that stops answering.
use rathole_x.Base.{
  ℕ, ◌≡◌, refl, ◌↔◌, ◌≤◌, true, false, none, some, List, [], ◌∷◌, ◌++◌, arith, Text, codes, text_eq,
  nat_eq,
}
use rathole_x.Base.Dict.{get, insert}
use rathole_x.Base.Net.{SocketAddr, v4}
use rathole_x.Config.{ServiceType, ServerServiceConfig, ServerConfig, default_transport}
use rathole_x.Status.{server, server_registry, server_connected, collect}
use rathole_x.Status.Owner.{waiting_snapshot}
use rathole_x.Protocol.{Wire, Auth, Ack, read_auth, digest, done}
use rathole_x.Protocol
use rathole_x.Protocol.Reads.{read-serialize}
use rathole_x.Protocol.Sample.{sample_wire}
use rathole_x.Watcher.{
  ConfigChange, server_change, ServerServiceChange, calculate_instance_config_events,
  server_instance, server_service_eq,
}
use rathole_x.MultiMap.Spec.{spec_step}
use rathole_x.Watcher.Equality.{server-equal_without_service}
use rathole_x.Server.{
  Conn, Server, proceed, digest_eq, new_handle, do_control_channel_handshake,
  generate_service_hashmap,
}
use rathole_x.Server.Digest.{digest_eq_iff}
use rathole_x.Server.Handshake.{do_control_channel_handshake-auth}
use rathole_x.Server.Established.{Superseded, hello_bytes, do_control_channel_handshake-established}
use rathole_x.Server.Reload.{apply_changes, reload-services}
use rathole_x.Server.Channel.{
  Event, data_ch_req, data_ch_arrived, deadline_fired, ControlChannel, running, stuck, run, step,
}
use rathole_x.Server.Channel.Deadline.{ArmedIn, IsArmed, run-stuck, run-IsArmed}

digest_eq_iff_example :
    (digest_eq (1 ∷ 2 ∷ []) (1 ∷ 3 ∷ []) ≡ true) ↔ (◌≡◌ {A = List ℕ} (1 ∷ 2 ∷ []) (1 ∷ 3 ∷ []))
digest_eq_iff_example = digest_eq_iff (1 ∷ 2 ∷ []) (1 ∷ 3 ∷ []) refl

abbrev ssh : Text
ssh = codes "ssh"

abbrev token : Text
token = codes "secret"

abbrev nonce : Text
nonce = 7 ∷ []

abbrev ssh_service : ServerServiceConfig
ssh_service = record {
  service_type = ServiceType.tcp;
  name = ssh;
  bind_addr = codes "0.0.0.0:22";
  token = some token;
  nodelay = none;
}

abbrev address : SocketAddr
address = v4 1 1000

abbrev ssh_digest : Text
ssh_digest = 9 ∷ []

abbrev state : Server
state = record {
  services = (ssh_digest, ssh_service) ∷ [];
  control_channels = [];
  runtime = server_registry 1 77 5 (ssh ∷ []);
}

abbrev answer : Auth
answer = record { digest = digest sample_wire (token ++ nonce) }

abbrev peer : Conn
peer = record { input = sample_wire.auth.serialize answer ++ []; sent = []; writes = 2 }

abbrev nothing_else : Server → Server
nothing_else s = s

found : get ssh_digest state.services ≡ some ssh_service
unfolding get
found = refl

registered : get ssh state.runtime.services ≡ some (server waiting_snapshot)
unfolding server_registry collect get insert
registered = refl

abbrev peer_after : Conn
peer_after = record {
  input = [];
  sent =
      ([] ++ hello_bytes sample_wire 5 address nonce ssh_digest)
      ++ sample_wire.ack.serialize Ack.ok;
  writes = 0;
}

abbrev Established : Type 0
Established =
    (s' : Server) × (do_control_channel_handshake sample_wire 5 address nonce ssh_digest
        nothing_else state peer
      ≡ proceed s' peer_after)
    × Superseded ssh_digest (digest sample_wire (token ++ nonce)) (new_handle ssh_service address 5)
        [] s'.control_channels
    × (s'.runtime ≡ (server_connected 5 ssh address state.runtime).1)

installed : Established
unfolding spec_step
installed =
    do_control_channel_handshake-established sample_wire 5 address nonce ssh_digest nothing_else
      state peer ssh_service token [] 0 waiting_snapshot found refl refl refl registered tt refl

do_control_channel_handshake-established_example : Established
unfolding spec_step
do_control_channel_handshake-established_example =
    do_control_channel_handshake-established sample_wire 5 address nonce ssh_digest nothing_else
      state peer ssh_service token [] 0 waiting_snapshot found refl refl refl registered tt refl

do_control_channel_handshake-auth_example :
    (cfg : ServerServiceConfig) × (t : Text) × (get ssh_digest state.services ≡ some cfg)
    × (cfg.token ≡ some t)
    × (answer.digest ≡ digest sample_wire (t ++ nonce))
do_control_channel_handshake-auth_example =
    do_control_channel_handshake-auth sample_wire 5 address nonce ssh_digest nothing_else state
      (installed.0) peer peer_after answer []
      ((read-serialize sample_wire answer Ack.ok Protocol.create_data_channel
        Protocol.start_forward_tcp [] (sample_wire.sha256_width _)).0)
      (sample_wire.sha256_width _) (installed.1)

abbrev web_service : ServerServiceConfig
web_service = record ssh_service { name = codes "web" }

abbrev before : ServerConfig
before = record {
  bind_addr = codes "0.0.0.0:2333";
  default_token = none;
  services = (ssh, ssh_service) ∷ [];
  transport = default_transport;
  heartbeat_interval = 30;
}

abbrev after : ServerConfig
after = record before { services = (codes "web", web_service) ∷ [] }

abbrev events : List ConfigChange
events =
    server_change (ServerServiceChange.delete ssh)
    ∷ server_change (ServerServiceChange.add web_service)
    ∷ []

abbrev plain : Text → Text
plain t = t

abbrev AnyName : Text → Type 0
AnyName _ = Unit

computed : calculate_instance_config_events ServerServiceConfig before after ≡ some events
unfolding calculate_instance_config_events get
computed = rw (server-equal_without_service before after.services) refl

abbrev loaded : Server
loaded = record state { services = generate_service_hashmap plain before }

no_key : get {V = ServerServiceConfig} ssh [] ≡ none
unfolding get
no_key = refl

no_key_web : get {V = ServerServiceConfig} (codes "web") [] ≡ none
unfolding get
no_key_web = refl

reload-services_example :
    get ssh (apply_changes plain events loaded).services
    ≡ get ssh (generate_service_hashmap plain after)
reload-services_example =
    reload-services plain AnyName (λ a b _ _ e. e) before after events loaded ssh (no_key, tt)
      (no_key_web, tt) (tt, tt) (tt, tt) (refl, tt) computed refl tt

-- Two requests at 3 and 5, one arrival at 6, then nothing.
abbrev silent : List (ℕ × Event)
silent = (6, data_ch_arrived true) ∷ (5, data_ch_req true true) ∷ (3, data_ch_req true true) ∷ []

fires : run 0 10 ((17, deadline_fired) ∷ silent) ≡ some stuck
unfolding run step
fires = refl

run-stuck_example : (deadline_fired ≡ deadline_fired) × ((d : ℕ) × ArmedIn 10 silent d × (d ≤ 17))
run-stuck_example = run-stuck 0 10 silent 17 deadline_fired (omega arith) fires

abbrev waiting_channel : ControlChannel
waiting_channel = record {
  pending_data_ch = 1;
  data_ch_deadline = some 16;
  arrived_rx_closed = false;
  sent = Protocol.create_data_channel ∷ Protocol.create_data_channel ∷ [];
}

waits_on : run 0 10 silent ≡ some (running waiting_channel)
unfolding run step
waits_on = refl

run-IsArmed_example : IsArmed 10 silent waiting_channel
run-IsArmed_example = run-IsArmed 0 10 silent waiting_channel (omega arith) waits_on
