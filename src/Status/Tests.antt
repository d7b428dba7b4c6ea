-- ===== src/Status/Tests.antt =====
-- The registry of src/runtime_status.rs on a concrete run: a channel is superseded by another.
use rathole_x.Base.{
  ◌≡◌, refl, inr, none, some, List, [], ◌∷◌, ◌++◌, replicate, arith, Text, codes, text_eq, nat_eq,
}
use rathole_x.Base.Dict.{get, insert}
use rathole_x.Base.Net.{SocketAddr, v4}
use rathole_x.Status
use rathole_x.Status.{
  RuntimeRole, client_role, server_role, RuntimeSnapshot, server, client_connected, client_retrying,
  client_registry, server_registry, server_connected, server_disconnected, truncate, safe_error,
  server_listener_listening, new_server, collect, connected_entry, disconnected_entry,
}
use rathole_x.Status.Invariant.{
  Op, IsCoherent, step, run, server_connected_op, disconnected_op, client_connected_op, retrying_op,
  listener_listening,
}
use rathole_x.Status.Runs.{run-server_registry, run-client_registry, run-total}
use rathole_x.Status.Owner.{connected_snapshot, waiting_snapshot, server_connected-Owned}

abbrev ssh : Text
ssh = codes "ssh"

abbrev first : SocketAddr
first = v4 1 1000

abbrev second : SocketAddr
second = v4 2 2000

abbrev start : RuntimeSnapshot
start = server_registry 1 77 5 (ssh ∷ codes "web" ∷ [])

-- The second channel of the service comes while the first still ends.
abbrev ops : List Op
ops =
    listener_listening
    ∷ server_connected_op 10 ssh first
    ∷ server_connected_op 20 ssh second
    ∷ disconnected_op 21 ssh first 10 (some (codes "closed"))
    ∷ []

abbrev final : RuntimeSnapshot
final = record {
  schema_version = 1;
  role = server_role;
  process_id = 77;
  captured_at_unix_ms = 5;
  server_listener =
      some (record { state = Status.ServerListenerState.listening; last_error = none });
  services = (codes "web", new_server) ∷ (ssh, server (connected_snapshot second 20)) ∷ [];
}

final_reached : run ops start ≡ some final
unfolding run step server_registry server_connected server_disconnected collect get insert
    safe_error truncate server_listener_listening
final_reached = refl

run-server_registry_example : IsCoherent server_role final
run-server_registry_example =
    run-server_registry 1 77 5 (ssh ∷ codes "web" ∷ []) ops final (tt, (tt, (tt, (tt, tt))))
      final_reached

abbrev web_client : Status.RuntimeSnapshot
web_client = client_registry 1 78 5 (codes "host:1") (codes "web" ∷ [])

abbrev client_ops : List Op
client_ops = client_connected_op 9 (codes "web") ∷ retrying_op 12 (codes "web") (codes "lost") ∷ []

abbrev client_final : RuntimeSnapshot
client_final = record {
  schema_version = 1;
  role = client_role;
  process_id = 78;
  captured_at_unix_ms = 5;
  server_listener = none;
  services =
      (
        codes "web",
        Status.client (record {
          state = Status.ClientControlState.retrying;
          configured_control_target = codes "host:1";
          resolved_control_target = none;
          last_connected_at_unix_ms = some 9;
          last_error = some (record { at_unix_ms = 12; message = codes "lost" });
        }),
      )
      ∷ [];
}

client_final_reached : run client_ops web_client ≡ some client_final
unfolding run step client_registry client_connected client_retrying collect get insert safe_error
    truncate
client_final_reached = refl

run-client_registry_example : IsCoherent client_role client_final
run-client_registry_example =
    run-client_registry 1 78 5 (codes "host:1") (codes "web" ∷ []) client_ops client_final
      (tt, (tt, tt)) client_final_reached

run-total_example : (s : RuntimeSnapshot) × (run client_ops web_client ≡ some s)
run-total_example = run-total client_ops web_client (tt, (inr (omega arith), tt))

-- A message whose 512th byte is inside a character makes the report panic.
abbrev long_message : Text
long_message = replicate 511 97 ++ 195 ∷ 169 ∷ []

long_message_panics : run (retrying_op 12 (codes "web") long_message ∷ []) web_client ≡ none
unfolding run step client_registry client_retrying collect get insert safe_error truncate
long_message_panics = refl

-- The first channel of the service ends after the second has come.
abbrev later_ops : List Op
later_ops = disconnected_op 21 ssh first 10 (some (codes "closed")) ∷ []

abbrev after_both : RuntimeSnapshot
after_both = record final {
  server_listener = some (record { state = Status.ServerListenerState.pending; last_error = none });
}

abbrev second_start : RuntimeSnapshot
second_start = (server_connected 10 ssh first start).1

superseded : run later_ops ((server_connected 20 ssh second second_start).1) ≡ some after_both
unfolding run step server_registry server_connected server_disconnected collect get insert
    safe_error truncate
superseded = refl

known : get ssh second_start.services ≡ some (server (connected_snapshot first 10))
unfolding server_registry server_connected collect get insert
known = refl

server_connected-Owned_example :
    (get ssh after_both.services ≡ some (server (connected_snapshot second 20)))
    × ((r : RuntimeSnapshot) × (server_disconnected 30 ssh second 20 none after_both ≡ some r)
        × (get ssh r.services ≡ some (server waiting_snapshot)))
server_connected-Owned_example =
    server_connected-Owned ssh second 20 30 second_start after_both (connected_snapshot first 10)
      later_ops known (inr (inr (λ h. omega (arith, h))), tt) superseded
