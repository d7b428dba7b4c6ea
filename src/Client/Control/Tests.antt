-- ===== src/Client/Control/Tests.antt =====
-- The task of a control channel of src/client.rs that connects, breaks, retries and is shut down.
use rathole_x.Base.{
  inl, inr, ℕ, ◌+◌, ◌≤◌, ◌≡◌, ◌≢◌, ◌↔◌, refl, true, false, none, some, List, [], ◌∷◌, ◌++◌, Text,
  codes, text_eq,
}
use rathole_x.Base.Dict.{get, insert}
use rathole_x.Base.Net.{SocketAddr, v4}
use rathole_x.Config.{ServiceType, ClientServiceConfig}
use rathole_x.Protocol.{control_channel_hello, create_data_channel, current_version, Ack, digest}
use rathole_x.Protocol.Sample.{sample_wire}
use rathole_x.Server.{Conn}
use rathole_x.Status.{
  RuntimeSnapshot, client_registry, client_connecting, client_resolved, client_connected,
  client_retrying, client_stopped, ClientSnapshot, ClientControlState, client, collect, truncate,
  safe_error,
}
use rathole_x.Client.{establish}
use rathole_x.Client
use rathole_x.Client.Handshake.{establish-acknowledged}
use rathole_x.Client.Control.{
  online, stopped, Task, Event, shutdown_sent, setup_failed, resolved, dialed, command_read,
  heartbeat_timed_out, backed_off, slept, broke, start, step, run,
}
use rathole_x.Client.Control.Shown.{IsShown, run-Shows}
use rathole_x.Client.Control.Orderly.{EndOk, seen}
use rathole_x.Client.Control.Shutdown.{run-shutdown}
use rathole_x.Client.Control.Heartbeat.{last_heard, run-heartbeat}

abbrev ssh : Text
ssh = codes "ssh"

abbrev service : ClientServiceConfig
service = record {
  service_type = ServiceType.tcp;
  name = ssh;
  local_addr = codes "127.0.0.1:22";
  prefer_ipv6 = false;
  token = some (codes "secret");
  nodelay = none;
  retry_interval = some 1;
}

abbrev address : SocketAddr
address = v4 1 2333

abbrev target : Text
target = codes "a:2333"

abbrev registry : RuntimeSnapshot
registry = client_registry 1 7 0 target (ssh ∷ [])

abbrev server_end : Conn
server_end = record {
  input =
      sample_wire.hello.serialize (control_channel_hello current_version (digest sample_wire []))
      ++ (sample_wire.ack.serialize Ack.ok ++ []);
  sent = [];
  writes = 2;
}

abbrev nonce : Text
nonce = digest sample_wire []

abbrev session_key : Text
session_key = digest sample_wire (codes "secret" ++ nonce)

abbrev late : Text
late = codes "late"

abbrev up : List Event
up =
    resolved (some address) []
    ∷ dialed 10 (some server_end) []
    ∷ setup_failed 3
    ∷ command_read 20 (some create_data_channel) []
    ∷ []

abbrev down : List Event
down =
    heartbeat_timed_out 61 late
    ∷ backed_off 61 true
    ∷ shutdown_sent
    ∷ slept
    ∷ resolved none late
    ∷ backed_off 70 true
    ∷ []

abbrev entry : ClientControlState → ClientSnapshot
entry state = record {
  state = state;
  configured_control_target = target;
  resolved_control_target = some address;
  last_connected_at_unix_ms = some 10;
  last_error = none;
}

abbrev reached : Task
reached = record {
  place = online 20;
  shutdown = false;
  force_rebuild = some 3;
  attempts = 1;
  data_channels = 1;
  runtime = record registry { services = (ssh, client (entry ClientControlState.connected)) ∷ [] };
}

abbrev shaken : Conn
shaken = record {
  input = [];
  sent =
      ([]
        ++ sample_wire.hello.serialize
            (control_channel_hello current_version (digest sample_wire ssh)))
      ++ sample_wire.auth.serialize (record { digest = session_key });
  writes = 0;
}

handshake :
    establish sample_wire (digest sample_wire ssh) (some (codes "secret")) server_end
    ≡ Client.connected session_key shaken
handshake =
    elim (establish-acknowledged sample_wire (digest sample_wire ssh) (codes "secret") nonce Ack.ok
      [] server_end 0 refl (sample_wire.sha256_width []) refl) [
        | inl (_, h) ↦ h
        | inr (d, _) ↦ absurd (d refl)
      ]

run-up : run service sample_wire 40 up (start service registry) ≡ some reached
unfolding run step client_registry collect get insert client_connecting client_resolved
    client_connected
run-up = rw handshake refl

abbrev ended : Task
ended = record {
  place = stopped;
  shutdown = true;
  force_rebuild = some 3;
  attempts = 2;
  data_channels = 1;
  runtime = record registry {
    services =
        (
          ssh,
          client (record (entry ClientControlState.stopped) {
            last_error = some (record { at_unix_ms = 61; message = late });
          }),
        )
        ∷ [];
  };
}

run-ended : run service sample_wire 40 (up ++ down) (start service registry) ≡ some ended
unfolding run step client_registry collect get insert client_connecting client_resolved
    client_connected client_retrying safe_error truncate client_stopped
run-ended = rw handshake refl

run-heartbeat_example : ((◌≢◌ {A = ℕ} 40 0) × (last_heard up + 40 ≤ 61)) ↔ (
    step service sample_wire 40 (heartbeat_timed_out 61 late) reached ≡ some (broke late reached))
run-heartbeat_example =
    run-heartbeat service sample_wire 40 up registry reached 20 61 late run-up refl

run-shutdown_example : EndOk stopped (seen (up ++ down)) × ((seen (up ++ down)).late_attempts ≤ 1)
run-shutdown_example = run-shutdown service sample_wire 40 (up ++ down) registry ended run-ended

listed :
    get ssh registry.services
    ≡ some (
        client (record {
          state = ClientControlState.stopped;
          configured_control_target = target;
          resolved_control_target = none;
          last_connected_at_unix_ms = none;
          last_error = none;
        }))
unfolding get client_registry collect insert
listed = refl

run-Shows_example : IsShown ssh target stopped ended.runtime
run-Shows_example =
    run-Shows service sample_wire 40 target (up ++ down) registry _ ended listed refl run-ended
