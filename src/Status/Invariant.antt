-- ===== src/Status/Invariant.antt =====
-- What the registry of src/runtime_status.rs keeps true while the tasks of a server or of a client
-- call it.
use rathole_x.Base.{
  ℕ, zero, suc, ◌≡◌, refl, ◌≢◌, ◌≤◌, inl, inr, Option, none, some, List, [], ◌∷◌, arith, nat_eq,
  text_eq, Text, length, take, drop, length-take, Bool-cases,
}
use rathole_x.Base.Dict.{get}
use rathole_x.Base.Net.{SocketAddr}
use rathole_x.Status.{
  RuntimeRole, client_role, server_role, ClientControlState, ServerControlState, RuntimeEvent,
  ClientSnapshot, ServerSnapshot, RuntimeServiceSnapshot, client, server, RuntimeSnapshot,
  ServerListenerSnapshot, continues, truncate_at, truncate, event_of, safe_error,
  server_listener_pending, server_listener_listening, server_listener_error,
  server_listener_stopped, client_add, server_add, remove_service, client_connecting,
  client_resolved, client_connected, client_retrying, client_stopped, server_connected,
  server_disconnected,
}

-- A call of an operation by a task.
pub data Op : Type 0 where
  listener_pending : Op
  listener_listening : Op
  listener_error : ℕ → Text → Op
  listener_stopped : Op
  add_client : Text → Text → Op
  add_server : Text → Op
  remove_op : Text → Op
  connecting_op : Text → Op
  resolved_op : Text → SocketAddr → Op
  client_connected_op : ℕ → Text → Op
  retrying_op : ℕ → Text → Text → Op
  stopped_op : Text → Op
  server_connected_op : ℕ → Text → SocketAddr → Op
  disconnected_op : ℕ → Text → SocketAddr → ℕ → Option Text → Op

-- The snapshot after a call, or `none` where it panics.
unfoldable pub step : Op → RuntimeSnapshot → Option RuntimeSnapshot
unfolding server_listener_pending server_listener_listening server_listener_error
    server_listener_stopped client_add server_add remove_service client_connecting client_resolved
    client_connected client_retrying client_stopped server_connected server_disconnected
step listener_pending r = some (server_listener_pending r)
step listener_listening r = some (server_listener_listening r)
step (listener_error now m) r = server_listener_error now m r
step listener_stopped r = some (server_listener_stopped r)
step (add_client name target) r = some (client_add name target r)
step (add_server name) r = some (server_add name r)
step (remove_op name) r = some (remove_service name r)
step (connecting_op name) r = some (client_connecting name r)
step (resolved_op name addr) r = some (client_resolved name addr r)
step (client_connected_op now name) r = some (client_connected now name r)
step (retrying_op now name m) r = client_retrying now name m r
step (stopped_op name) r = some (client_stopped name r)
step (server_connected_op now name source) r = some ((server_connected now name source r).1)
step (disconnected_op now name source since detail) r =
    server_disconnected now name source since detail r

abbrev pub continue : {A B : Type 0} → Option A → (A → Option B) → Option B
continue none f = none
continue (some a) f = f a

unfoldable pub run : List Op → RuntimeSnapshot → Option RuntimeSnapshot
unfolding step
run [] r = some r
run (op ∷ ops) r = continue (step op r) (run ops)

-- A diagnostic is bounded.
abbrev pub IsBounded : Option RuntimeEvent → Type 0
IsBounded none = Unit
IsBounded (some e) = length e.message ≤ 512

-- What the state of a client's channel says of its other fields.
abbrev pub ClientOk : ClientControlState → ClientSnapshot → Type 0
ClientOk ClientControlState.connecting c = Unit
ClientOk ClientControlState.connected c =
    (c.last_connected_at_unix_ms ≢ none) × (c.last_error ≡ none)
ClientOk ClientControlState.retrying c = c.last_error ≢ none
ClientOk ClientControlState.stopped c = Unit

abbrev pub ServerOk : ServerControlState → ServerSnapshot → Type 0
ServerOk ServerControlState.waiting s =
    (s.control_channel_source ≡ none) × (s.connected_since_unix_ms ≡ none)
ServerOk ServerControlState.connected s =
    (s.control_channel_source ≢ none)
    × (s.connected_since_unix_ms ≢ none)
    × (s.last_disconnected_or_error ≡ none)
ServerOk ServerControlState.stopped s = ⊥

-- An entry is of the kind of the registry's role, and its fields agree with its state.
abbrev pub EntryOk : RuntimeRole → Option RuntimeServiceSnapshot → Type 0
EntryOk _ none = Unit
EntryOk client_role (some (client c)) = ClientOk c.state c × IsBounded c.last_error
EntryOk server_role (some (server s)) = ServerOk s.state s × IsBounded s.last_disconnected_or_error
EntryOk client_role (some (server s)) = ⊥
EntryOk server_role (some (client c)) = ⊥

-- The diagnostic of the server's listener is bounded.
abbrev pub ListenerOk : Option ServerListenerSnapshot → Type 0
ListenerOk none = Unit
ListenerOk (some l) = IsBounded l.last_error

pub record IsCoherent (role : RuntimeRole) (r : RuntimeSnapshot) : Type 0 where
  pub same_role : r.role ≡ role
  pub listener : ListenerOk r.server_listener
  pub entries : (name : Text) → EntryOk role (get name r.services)

-- The tasks of an instance add services of its own kind.
abbrev pub Fits : RuntimeRole → Op → Type 0
Fits client_role (add_server _) = ⊥
Fits server_role (add_client _ _) = ⊥
Fits _ _ = Unit

truncate-bound : (n : ℕ) (s t : Text) → truncate n s ≡ some t → length t ≤ n
unfolding truncate
truncate-bound n s t h = short n s (drop n s) refl h
  where
    drop-short : (n : ℕ) (s : Text) → drop n s ≡ [] → length s ≤ n
    drop-short zero [] h = omega arith
    drop-short zero (x ∷ s) h = cc
    drop-short (suc n) [] h = omega arith
    drop-short (suc n) (x ∷ s) h = omega (arith, drop-short n s h)

    drop-long : (n : ℕ) (s rest : Text) (b : ℕ) → drop n s ≡ b ∷ rest → n ≤ length s
    drop-long zero s rest b h = omega arith
    drop-long (suc n) [] rest b h = cc
    drop-long (suc n) (x ∷ s) rest b h = omega (arith, drop-long n s rest b h)

    short : (n : ℕ) (s d : Text) → drop n s ≡ d → truncate_at s (take n s) d ≡ some t → length t ≤ n
    short n s [] e h = let same : s ≡ t = cc in rw (← same) (drop-short n s e)
    short n s (b ∷ rest) e h = elim (Bool-cases (continues b)) [
      | inl c ↦ absurd (ground (arith, h, c))
      | inr c ↦
          let same : take n s ≡ t = ground (arith, h, c) in
          rw (← same) (omega (arith, length-take n s (drop-long n s rest b e)))
    ]

-- A diagnostic that `safe_error` gives is at most 512 bytes long.
pub safe_error-bound :
    (now : ℕ) (m : Text) (e : RuntimeEvent) → safe_error now m ≡ some e → length e.message ≤ 512
unfolding safe_error
safe_error-bound now m e h = event-bound (truncate 512 m) refl h
  where
    event-bound :
        (o : Option Text) → truncate 512 m ≡ o → event_of now o ≡ some e → length e.message ≤ 512
    event-bound none q h = cc
    event-bound (some t) q h =
        let same : record { at_unix_ms = now; message = t } ≡ e = cc in
        rw (← same) (truncate-bound 512 m t q)
