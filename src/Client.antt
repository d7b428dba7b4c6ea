-- ===== src/Client.antt =====
-- src/client.rs: hot reload, the handshake of a control channel, and the setup of data channels with
-- its count of failures. A connection is the one of Server; connecting is the environment's.
pub mod Handshake
pub mod Rebuild
pub mod Control
pub mod Udp
pub mod Tests
use rathole_x.Base.{
  ℕ, zero, suc, ◌+◌, ◌%◌, ◌^◌, Bool, true, false, not, Option, none, some, List, [], ◌∷◌, ◌++◌,
  if◌then◌else◌, leb, text_eq, Text,
}
use rathole_x.Base.Dict.{Dict, insert, remove}
use rathole_x.Config.{ServiceType, service_type_beq, ClientServiceConfig}
use rathole_x.Watcher.{ConfigChange, general, server_change, client_change, ClientServiceChange}
use rathole_x.Status.{RuntimeSnapshot, client_add, remove_service}
use rathole_x.Server.{Conn}
use rathole_x.Protocol.{
  Wire, Hello, control_channel_hello, data_channel_hello, Ack, DataChannelCmd, start_forward_tcp,
  start_forward_udp, current_version, read_hello, read_ack, read_data_cmd, digest, done, fail,
}
use rathole_x.Protocol

-- `Client`, with the service that each handle runs.
pub record Client : Type 0 where
  pub remote_addr : Text
  pub service_handles : Dict Text ClientServiceConfig
  pub runtime : RuntimeSnapshot

-- `Client::handle_hot_reload`
unfoldable pub handle_hot_reload : ConfigChange → Client → Client
handle_hot_reload (client_change (ClientServiceChange.add cfg)) c = record c {
  service_handles = insert cfg.name cfg c.service_handles;
  runtime = client_add cfg.name c.remote_addr c.runtime;
}
handle_hot_reload (client_change (ClientServiceChange.delete name)) c = record c {
  service_handles = remove name c.service_handles;
  runtime = remove_service name c.runtime;
}
handle_hot_reload (general _) c = c
handle_hot_reload (server_change _) c = c

pub data Error : Type 0 where
  unreadable : Protocol.Error → Error
  unexpected_hello : Error
  authentication_failed : Ack → Error
  write_failed : Error
  panicked : Error

pub data Outcome (A : Type 0) : Type 0 where
  connected : A → Conn → Outcome A
  failed : Error → Outcome A

infixl 5 ◌>>=◌
abbrev pub ◌>>=◌ : {A B : Type 0} → Outcome A → (A → Conn → Outcome B) → Outcome B
failed e >>= f = failed e
connected a c >>= f = f a c

abbrev pub send_with : ℕ → List ℕ → Conn → Outcome (Unit {0})
send_with zero m c = failed write_failed
send_with (suc n) m c = connected tt (record c { sent = c.sent ++ m; writes = n })

-- `write_all` and `flush`
abbrev pub send : List ℕ → Conn → Outcome (Unit {0})
send m c = send_with c.writes m c

abbrev pub received : {A : Type 0} → Conn → Protocol.Result (A × List ℕ) → Outcome A
received c (fail e) = failed (unreadable e)
received c (done (a, rest)) = connected a (record c { input = rest })

abbrev pub nonce_of : Hello → Conn → Outcome Text
nonce_of (control_channel_hello _ d) c = connected d c
nonce_of (data_channel_hello _ _) c = failed unexpected_hello

abbrev pub token_of : Option Text → Conn → Outcome Text
token_of none c = failed panicked
token_of (some token) c = connected token c

abbrev pub acknowledged : Text → Ack → Conn → Outcome Text
acknowledged session_key Ack.ok c = connected session_key c
acknowledged session_key Ack.service_not_exist c =
    failed (authentication_failed Ack.service_not_exist)
acknowledged session_key Ack.auth_failed c = failed (authentication_failed Ack.auth_failed)

module _ (w : Wire) where
  -- `ControlChannel::run` from the hello to the ack: the session key.
  unfoldable pub establish : Text → Option Text → Conn → Outcome Text
  establish service_digest token c =
      send (w.hello.serialize (control_channel_hello current_version service_digest)) c >>= λ _ c1.
      received c1 (read_hello w c1.input) >>= λ h c2. nonce_of h c2 >>= λ nonce c3.
      token_of token c3 >>= λ t c4.
      let session_key = digest w (t ++ nonce) in
      send (w.auth.serialize (record { digest = session_key })) c4 >>= λ _ c5.
      received c5 (read_ack w c5.input) >>= λ a c6. acknowledged session_key a c6

-- `consecutive_failures`, and what the channel of capacity 1 to the control channel holds.
pub record Failures : Type 0 where
  pub consecutive_failures : ℕ
  pub force_rebuild : Option ℕ

abbrev pub max_consecutive_data_channel_failures : ℕ
max_consecutive_data_channel_failures = 3

abbrev pub try_send : ℕ → Option ℕ → Option ℕ
try_send n none = some n
try_send n (some m) = some m

-- `note_data_channel_failure`
unfoldable pub note_data_channel_failure : Failures → Failures
note_data_channel_failure f =
    let failures = (f.consecutive_failures + 1) % 2 ^ 32 in
    record {
      consecutive_failures = failures;
      force_rebuild =
          if leb max_consecutive_data_channel_failures failures
          then try_send failures f.force_rebuild
          else f.force_rebuild;
    }

-- What a data channel came to.
pub data DataChannel : Type 0 where
  no_channel : DataChannel
  forward_tcp : List ℕ → DataChannel
  forward_udp : List ℕ → DataChannel
  wrong_type : ServiceType → DataChannel

abbrev pub forward : ServiceType → DataChannelCmd × List ℕ → DataChannel
forward t (start_forward_tcp, rest) =
    if service_type_beq t ServiceType.tcp then forward_tcp rest else wrong_type ServiceType.tcp
forward t (start_forward_udp, rest) =
    if service_type_beq t ServiceType.udp then forward_udp rest else wrong_type ServiceType.udp

abbrev pub commanded :
    ServiceType → Failures → Protocol.Result (DataChannelCmd × List ℕ) → DataChannel × Failures
commanded t f (fail e) = (no_channel, note_data_channel_failure f)
commanded t f (done r) = (forward t r, record f { consecutive_failures = 0 })

-- `run_data_channel` up to forwarding; `none` is a connection that could not be set up.
unfoldable pub run_data_channel :
    Wire → ServiceType → Option (List ℕ) → Failures → DataChannel × Failures
run_data_channel w t none f = (no_channel, note_data_channel_failure f)
run_data_channel w t (some input) f = commanded t f (read_data_cmd w input)
