-- ===== src/Status.antt =====
-- src/runtime_status.rs: the registry that the tasks of an instance keep current and that `status`
-- reads. A lock is held for the whole of each operation, so an operation is a function on the
-- snapshot; the clock is an argument. An operation gives `none` where it panics, which poisons the
-- lock for every later operation.
pub mod Invariant
pub mod Owner
pub mod Steps
pub mod Runs
pub mod Tests
use rathole_x.Base.{
  ℕ, zero, suc, ◌≤◌, ◌-◌, Bool, true, false, not, ◌&&◌, ◌||◌, Option, none, some, List, [], ◌∷◌,
  map, if◌then◌else◌, nat_eq, text_eq, Text, ◌==◌, leb, ltb, take, drop, option_beq,
}
use rathole_x.Base.Dict.{Dict, get, insert, remove}
use rathole_x.Base.Net.{SocketAddr, socket_addr_eq}

pub data RuntimeRole : Type 0 where
  client_role : RuntimeRole
  server_role : RuntimeRole

-- The states of a client's control channel.
pub data ClientControlState : Type 0 where
  connecting : ClientControlState
  connected : ClientControlState
  retrying : ClientControlState
  stopped : ClientControlState

pub data ServerControlState : Type 0 where
  waiting : ServerControlState
  connected : ServerControlState
  stopped : ServerControlState

pub data ServerListenerState : Type 0 where
  pending : ServerListenerState
  listening : ServerListenerState
  error : ServerListenerState
  stopped : ServerListenerState

pub record RuntimeEvent : Type 0 where
  pub at_unix_ms : ℕ
  pub message : Text

pub record ServerListenerSnapshot : Type 0 where
  pub state : ServerListenerState
  pub last_error : Option RuntimeEvent

-- `RuntimeServiceSnapshot::Client`
pub record ClientSnapshot : Type 0 where
  pub state : ClientControlState
  pub configured_control_target : Text
  pub resolved_control_target : Option SocketAddr
  pub last_connected_at_unix_ms : Option ℕ
  pub last_error : Option RuntimeEvent

-- `RuntimeServiceSnapshot::Server`
pub record ServerSnapshot : Type 0 where
  pub state : ServerControlState
  pub control_channel_source : Option SocketAddr
  pub connected_since_unix_ms : Option ℕ
  pub last_disconnected_or_error : Option RuntimeEvent

pub data RuntimeServiceSnapshot : Type 0 where
  client : ClientSnapshot → RuntimeServiceSnapshot
  server : ServerSnapshot → RuntimeServiceSnapshot

pub record RuntimeSnapshot : Type 0 where
  pub schema_version : ℕ
  pub role : RuntimeRole
  pub process_id : ℕ
  pub captured_at_unix_ms : ℕ
  pub server_listener : Option ServerListenerSnapshot
  pub services : Dict Text RuntimeServiceSnapshot

-- A byte that continues a character of UTF-8.
abbrev pub continues : ℕ → Bool
continues b = leb 128 b && ltb b 192

abbrev pub truncate_at : Text → Text → Text → Option Text
truncate_at s start [] = some s
truncate_at s start (b ∷ _) = if continues b then none else some start

-- `String::truncate`, which panics when it would cut a character.
unfoldable pub truncate : ℕ → Text → Option Text
truncate n s = truncate_at s (take n s) (drop n s)

abbrev pub event_of : ℕ → Option Text → Option RuntimeEvent
event_of now none = none
event_of now (some message) = some (record { at_unix_ms = now; message = message })

-- `safe_error`
unfoldable pub safe_error : ℕ → Text → Option RuntimeEvent
unfolding truncate
safe_error now message = event_of now (truncate 512 message)

abbrev pub new_client : Text → RuntimeServiceSnapshot
new_client remote_addr = client (record {
  state = ClientControlState.stopped;
  configured_control_target = remote_addr;
  resolved_control_target = none;
  last_connected_at_unix_ms = none;
  last_error = none;
})

abbrev pub new_server : RuntimeServiceSnapshot
new_server = server (record {
  state = ServerControlState.waiting;
  control_channel_source = none;
  connected_since_unix_ms = none;
  last_disconnected_or_error = none;
})

-- `collect` of the services into a map.
unfoldable pub collect : RuntimeServiceSnapshot → List Text → Dict Text RuntimeServiceSnapshot
collect fresh [] = []
collect fresh (name ∷ names) = insert name fresh (collect fresh names)

-- `client_registry`, with the version, the process and the clock.
unfoldable pub client_registry : ℕ → ℕ → ℕ → Text → List Text → RuntimeSnapshot
client_registry version pid now remote_addr names = record {
  schema_version = version;
  role = client_role;
  process_id = pid;
  captured_at_unix_ms = now;
  server_listener = none;
  services = collect (new_client remote_addr) names;
}

-- `server_registry`
unfoldable pub server_registry : ℕ → ℕ → ℕ → List Text → RuntimeSnapshot
server_registry version pid now names = record {
  schema_version = version;
  role = server_role;
  process_id = pid;
  captured_at_unix_ms = now;
  server_listener = some (record { state = ServerListenerState.pending; last_error = none });
  services = collect new_server names;
}

-- `snapshot`
abbrev pub snapshot : ℕ → RuntimeSnapshot → RuntimeSnapshot
snapshot now r = record r { captured_at_unix_ms = now }

abbrev pub listener_entry :
    (ServerListenerSnapshot → ServerListenerSnapshot)
    → Option ServerListenerSnapshot
    → Option ServerListenerSnapshot
listener_entry f none = none
listener_entry f (some l) = some (f l)

-- `if let Some(listener) = ….server_listener.as_mut()`
abbrev pub on_listener :
    (ServerListenerSnapshot → ServerListenerSnapshot) → RuntimeSnapshot → RuntimeSnapshot
on_listener f r = record r { server_listener = listener_entry f r.server_listener }

unfoldable pub server_listener_pending : RuntimeSnapshot → RuntimeSnapshot
server_listener_pending =
    on_listener (λ l. record { state = ServerListenerState.pending; last_error = none })

unfoldable pub server_listener_listening : RuntimeSnapshot → RuntimeSnapshot
server_listener_listening =
    on_listener (λ l. record { state = ServerListenerState.listening; last_error = none })

abbrev pub listener_failed :
    RuntimeSnapshot → Option ServerListenerSnapshot → Option RuntimeEvent → Option RuntimeSnapshot
listener_failed r none _ = some r
listener_failed r (some l) none = none
listener_failed r (some l) (some e) = some (record r {
  server_listener = some (record { state = ServerListenerState.error; last_error = some e });
})

unfoldable pub server_listener_error : ℕ → Text → RuntimeSnapshot → Option RuntimeSnapshot
unfolding safe_error
server_listener_error now message r = listener_failed r r.server_listener (safe_error now message)

unfoldable pub server_listener_stopped : RuntimeSnapshot → RuntimeSnapshot
server_listener_stopped = on_listener (λ l. record l { state = ServerListenerState.stopped })

-- `client_add`
unfoldable pub client_add : Text → Text → RuntimeSnapshot → RuntimeSnapshot
client_add name remote_addr r = record r {
  services = insert name (new_client remote_addr) r.services;
}

-- `server_add`
unfoldable pub server_add : Text → RuntimeSnapshot → RuntimeSnapshot
server_add name r = record r { services = insert name new_server r.services }

-- `remove`
unfoldable pub remove_service : Text → RuntimeSnapshot → RuntimeSnapshot
remove_service name r = record r { services = remove name r.services }

-- `*entry = …` through the reference of `get_mut`.
abbrev pub write_entry : Text → RuntimeServiceSnapshot → RuntimeSnapshot → RuntimeSnapshot
write_entry name entry r = record r { services = insert name entry r.services }

abbrev pub client_entry :
    (ClientSnapshot → ClientSnapshot)
    → Text
    → RuntimeSnapshot
    → Option RuntimeServiceSnapshot
    → RuntimeSnapshot
client_entry f name r (some (client c)) = write_entry name (client (f c)) r
client_entry f name r (some (server _)) = r
client_entry f name r none = r

-- `if let Some(RuntimeServiceSnapshot::Client { … }) = ….services.get_mut(name)`
abbrev pub on_client : (ClientSnapshot → ClientSnapshot) → Text → RuntimeSnapshot → RuntimeSnapshot
on_client f name r = client_entry f name r (get name r.services)

unfoldable pub client_connecting : Text → RuntimeSnapshot → RuntimeSnapshot
client_connecting = on_client (λ c. record c { state = ClientControlState.connecting })

unfoldable pub client_resolved : Text → SocketAddr → RuntimeSnapshot → RuntimeSnapshot
client_resolved name addr = on_client (λ c. record c { resolved_control_target = some addr }) name

unfoldable pub client_connected : ℕ → Text → RuntimeSnapshot → RuntimeSnapshot
client_connected now = on_client (λ c. record c {
  state = ClientControlState.connected;
  last_connected_at_unix_ms = some now;
  last_error = none;
})

abbrev pub client_retry_entry :
    Text
    → RuntimeSnapshot
    → Option RuntimeServiceSnapshot
    → Option RuntimeEvent
    → Option RuntimeSnapshot
client_retry_entry name r (some (client c)) (some e) = some (
    write_entry name
      (client (record c { state = ClientControlState.retrying; last_error = some e })) r)
client_retry_entry name r (some (client c)) none = none
client_retry_entry name r (some (server _)) _ = some r
client_retry_entry name r none _ = some r

unfoldable pub client_retrying : ℕ → Text → Text → RuntimeSnapshot → Option RuntimeSnapshot
unfolding safe_error
client_retrying now name message r =
    client_retry_entry name r (get name r.services) (safe_error now message)

unfoldable pub client_stopped : Text → RuntimeSnapshot → RuntimeSnapshot
client_stopped = on_client (λ c. record c { state = ClientControlState.stopped })

abbrev pub connected_entry :
    ℕ
    → Text
    → SocketAddr
    → RuntimeSnapshot
    → Option RuntimeServiceSnapshot
    → Option ℕ × RuntimeSnapshot
connected_entry now name source r (some (server _)) = (
  some now,
  write_entry name
      (server (record {
        state = ServerControlState.connected;
        control_channel_source = some source;
        connected_since_unix_ms = some now;
        last_disconnected_or_error = none;
      }))
      r,
)
connected_entry now name source r (some (client _)) = (none, r)
connected_entry now name source r none = (none, r)

unfoldable pub server_connected :
    ℕ → Text → SocketAddr → RuntimeSnapshot → Option ℕ × RuntimeSnapshot
server_connected now name source r = connected_entry now name source r (get name r.services)

abbrev pub some_event : Option RuntimeEvent → Option (Option RuntimeEvent)
some_event none = none
some_event (some e) = some (some e)

-- `detail.map(safe_error)`, or `none` where that panics.
abbrev pub detail_event : ℕ → Option Text → Option (Option RuntimeEvent)
detail_event now none = some none
detail_event now (some message) = some_event (safe_error now message)

-- Whether the snapshot belongs to the channel of `source` that connected at `since`.
abbrev pub owns : SocketAddr → ℕ → ServerSnapshot → Bool
owns source since s =
    option_beq ◌==◌ s.control_channel_source (some source)
    && option_beq ◌==◌ s.connected_since_unix_ms (some since)

abbrev pub released_entry :
    Text → RuntimeSnapshot → Option (Option RuntimeEvent) → Option RuntimeSnapshot
released_entry name r none = none
released_entry name r (some e) = some (
    write_entry name
      (server (record {
        state = ServerControlState.waiting;
        control_channel_source = none;
        connected_since_unix_ms = none;
        last_disconnected_or_error = e;
      }))
      r)

abbrev pub disconnected_entry :
    Text
    → SocketAddr
    → ℕ
    → Option (Option RuntimeEvent)
    → RuntimeSnapshot
    → Option RuntimeServiceSnapshot
    → Option RuntimeSnapshot
disconnected_entry name source since event r (some (server s)) =
    if not (owns source since s) then some r else released_entry name r event
disconnected_entry name source since event r (some (client _)) = some r
disconnected_entry name source since event r none = some r

unfoldable pub server_disconnected :
    ℕ → Text → SocketAddr → ℕ → Option Text → RuntimeSnapshot → Option RuntimeSnapshot
server_disconnected now name source since detail r =
    disconnected_entry name source since (detail_event now detail) r (get name r.services)
