-- ===== src/Server.antt =====
-- src/server.rs: the shared state of a running server, the handshakes of incoming connections, and
-- hot reload. The map of control channels is the list of its items, by the contract of
-- src/multi_map.rs. Between the two halves of a handshake other tasks may change the shared state.
pub mod Digest
pub mod Handshake
pub mod Established
pub mod Reload
pub mod Channel
pub mod Pool
pub mod UdpPool
pub mod Tests
use rathole_x.Base.{
  ℕ, zero, suc, ◌+◌, Bool, true, false, not, Option, none, some, List, [], ◌∷◌, ◌++◌, length,
  if◌then◌else◌, nat_eq, text_eq, Text, ◌==◌, leb, bit_or, bit_xor,
}
use rathole_x.Base.Dict.{Dict, get, insert, remove}
use rathole_x.Base.Net.{SocketAddr}
use rathole_x.Base.Word.{saturating_mul64}
use rathole_x.Config.{ServiceType, ServerServiceConfig, ServerConfig, ClientServiceConfig}
use rathole_x.Watcher.{ConfigChange, general, server_change, client_change, ServerServiceChange}
use rathole_x.Status.{RuntimeSnapshot, server_add, remove_service, server_connected}
use rathole_x.MultiMap.{Item}
use rathole_x.MultiMap.Spec.{call_insert, call_remove1, call_get_mut2, spec_step}
use rathole_x.MultiMap.Cells.{find_by}
use rathole_x.Protocol.{
  Wire, Hello, control_channel_hello, data_channel_hello, Ack, Auth, current_version, read_hello,
  read_auth, digest, done, fail,
}
use rathole_x.Protocol

abbrev pub tcp_pool_size : ℕ
tcp_pool_size = 8

abbrev pub udp_pool_size : ℕ
udp_pool_size = 1

-- `CHAN_SIZE`
abbrev pub chan_size : ℕ
chan_size = 2048

abbrev pub min_data_channel_timeout : ℕ
min_data_channel_timeout = 10

abbrev larger : ℕ → ℕ → ℕ
larger a b = if leb a b then b else a

-- `data_channel_timeout`, in seconds
unfoldable pub data_channel_timeout : ℕ → ℕ
data_channel_timeout heartbeat_interval =
    larger (saturating_mul64 heartbeat_interval 2) min_data_channel_timeout

-- A connection after the transport's handshake: the bytes that will still arrive, those written, and
-- how many writes will succeed.
pub record Conn : Type 0 where
  pub input : List ℕ
  pub sent : List ℕ
  pub writes : ℕ

-- `ControlChannelHandle`, with what its channels hold: requests of data channels, data channels
-- handed over, and notes of their arrival. `receiving` tells that the pool still receives.
pub record ControlChannelHandle : Type 0 where
  pub service : ServerServiceConfig
  pub source_addr : SocketAddr
  pub connected_since : ℕ
  pub requests : ℕ
  pub data_channels : List Conn
  pub arrived : ℕ
  pub receiving : Bool

abbrev pub ControlChannelMap : Type 0
ControlChannelMap = List (Item Text Text ControlChannelHandle)

-- What the tasks of a server share.
pub record Server : Type 0 where
  pub services : Dict Text ServerServiceConfig
  pub control_channels : ControlChannelMap
  pub runtime : RuntimeSnapshot

pub data Error : Type 0 where
  no_such_service : Text → Error
  auth_failed : Text → Error
  removed_during_authentication : Text → Error
  stale_control_channel : Error
  unreadable : Protocol.Error → Error
  write_failed : Error
  panicked : Error

-- What a step of a connection's task gives, with the connection as it leaves it.
pub data Outcome (A : Type 0) : Type 0 where
  proceed : A → Conn → Outcome A
  bail : Error → Conn → Outcome A

infixl 5 ◌>>=◌
abbrev pub ◌>>=◌ : {A B : Type 0} → Outcome A → (A → Conn → Outcome B) → Outcome B
proceed a c >>= f = f a c
bail e c >>= f = bail e c

abbrev pub send_with : ℕ → List ℕ → Conn → Outcome (Unit {0})
send_with zero m c = bail write_failed c
send_with (suc n) m c = proceed tt (record c { sent = c.sent ++ m; writes = n })

-- `write_all` and `flush`
abbrev pub send : List ℕ → Conn → Outcome (Unit {0})
send m c = send_with c.writes m c

-- `digest_eq`
abbrev pub digest_acc : ℕ → List ℕ → List ℕ → ℕ
digest_acc acc [] _ = acc
digest_acc acc (_ ∷ _) [] = acc
digest_acc acc (x ∷ a) (y ∷ b) = digest_acc (bit_or acc (bit_xor x y)) a b

pub digest_eq : List ℕ → List ℕ → Bool
digest_eq a b = digest_acc 0 a b == 0

-- `generate_service_hashmap`
abbrev pub service_hashmap :
    (Text → Text)
    → Dict Text ServerServiceConfig
    → Dict Text ServerServiceConfig
    → Dict Text ServerServiceConfig
service_hashmap sha [] ret = ret
service_hashmap sha ((name, s) ∷ rest) ret = service_hashmap sha rest (insert (sha name) s ret)

pub generate_service_hashmap : (Text → Text) → ServerConfig → Dict Text ServerServiceConfig
generate_service_hashmap sha c = service_hashmap sha c.services []

abbrev pub remove1 : Text → ControlChannelMap → ControlChannelMap
remove1 k channels = (spec_step (call_remove1 k) channels).1

abbrev pub insert_channel :
    Text → Text → ControlChannelHandle → ControlChannelMap → ControlChannelMap
insert_channel k1 k2 h channels = (spec_step (call_insert k1 k2 h) channels).1

-- `Server::handle_hot_reload`; `sha` is `protocol::digest`.
unfoldable pub handle_hot_reload : (Text → Text) → ConfigChange → Server → Server
handle_hot_reload sha (server_change (ServerServiceChange.add cfg)) s =
    let hash = sha cfg.name in
    record {
      services = insert hash cfg s.services;
      control_channels = remove1 hash s.control_channels;
      runtime = server_add cfg.name s.runtime;
    }
handle_hot_reload sha (server_change (ServerServiceChange.delete name)) s =
    let hash = sha name in
    record {
      services = remove hash s.services;
      control_channels = remove1 hash s.control_channels;
      runtime = remove_service name s.runtime;
    }
handle_hot_reload sha (general _) s = s
handle_hot_reload sha (client_change _) s = s

abbrev pub pool_size : ServiceType → ℕ
pool_size ServiceType.tcp = tcp_pool_size
pool_size ServiceType.udp = udp_pool_size

-- `ControlChannelHandle::new`: the data that it returns, with the requests that fill the pool.
unfoldable pub new_handle : ServerServiceConfig → SocketAddr → ℕ → ControlChannelHandle
new_handle service source_addr connected_since = record {
  service = service;
  source_addr = source_addr;
  connected_since = connected_since;
  requests = pool_size service.service_type;
  data_channels = [];
  arrived = 0;
  receiving = true;
}

module _ (w : Wire) where
  abbrev pub found_service : Text → Option ServerServiceConfig → Conn → Outcome ServerServiceConfig
  found_service service_digest none c = send (w.ack.serialize Ack.service_not_exist) c >>= λ _ c'.
      bail (no_such_service service_digest) c'
  found_service service_digest (some cfg) c = proceed cfg c

  -- `do_control_channel_handshake` up to the lookup of the service.
  unfoldable pub offer_nonce : Text → Text → Server → Conn → Outcome ServerServiceConfig
  offer_nonce nonce service_digest s c =
      send (w.hello.serialize (control_channel_hello current_version nonce)) c >>= λ _ c'.
      found_service service_digest (get service_digest s.services) c'

  abbrev pub received_auth : Protocol.Result (Auth × List ℕ) → Conn → Outcome Auth
  received_auth (fail e) c = bail (unreadable e) c
  received_auth (done (a, rest)) c = proceed a (record c { input = rest })

  abbrev pub token_of : Option Text → Conn → Outcome Text
  token_of none c = bail panicked c
  token_of (some token) c = proceed token c

  -- What follows the ack, under the lock of the control channels.
  abbrev pub established :
      SocketAddr
      → Text
      → Text
      → ServerServiceConfig
      → Server
      → Option ℕ × RuntimeSnapshot
      → Conn
      → Outcome Server
  established source_addr service_digest session_key cfg s (none, _) c =
      bail (removed_during_authentication cfg.name) c
  established source_addr service_digest session_key cfg s (some connected_since, runtime) c =
      proceed
        (record {
          services = s.services;
          control_channels =
              insert_channel service_digest session_key (new_handle cfg source_addr connected_since)
                (remove1 service_digest s.control_channels);
          runtime = runtime;
        })
        c

  -- `do_control_channel_handshake` from the lookup on.
  unfoldable pub check_auth :
      ℕ → SocketAddr → Text → Text → ServerServiceConfig → Server → Conn → Outcome Server
  check_auth now source_addr service_digest nonce cfg s c = token_of cfg.token c >>= λ token c1.
      received_auth (read_auth w c1.input) c1 >>= λ a c2.
      let session_key = digest w (token ++ nonce) in
      if not (digest_eq session_key a.digest)
      then (send (w.ack.serialize Ack.auth_failed) c2 >>= λ _ c3. bail (auth_failed cfg.name) c3)
      else (send (w.ack.serialize Ack.ok) c2 >>= λ _ c3.
          established source_addr service_digest session_key cfg s
            (server_connected now cfg.name source_addr s.runtime) c3)

  -- `do_control_channel_handshake`; `meanwhile` is what other tasks do while the peer answers.
  unfoldable pub do_control_channel_handshake :
      ℕ → SocketAddr → Text → Text → (Server → Server) → Server → Conn → Outcome Server
  unfolding offer_nonce check_auth
  do_control_channel_handshake now source_addr nonce service_digest meanwhile s c =
      offer_nonce nonce service_digest s c >>= λ cfg c'.
      check_auth now source_addr service_digest nonce cfg (meanwhile s) c'

-- What became of a data channel's connection.
pub data Delivery : Type 0 where
  delivered : Server → Delivery
  waits : Delivery
  stale : Delivery
  incorrect_nonce : Delivery

-- `send` into the bounded queue of the pool, and the note of the arrival.
abbrev pub hand_over : Conn → ControlChannelHandle → ControlChannelHandle
hand_over c h = record h { data_channels = h.data_channels ++ c ∷ []; arrived = suc h.arrived }

abbrev pub deliver : Text → Conn → Server → Option (Item Text Text ControlChannelHandle) → Delivery
deliver nonce c s none = incorrect_nonce
deliver nonce c s (some it) =
    if not it.val.receiving
    then stale
    else if leb (chan_size + chan_size) (length it.val.data_channels)
    then waits
    else delivered (record s {
      control_channels = (spec_step (call_get_mut2 nonce (hand_over c)) s.control_channels).1;
    })

-- `do_data_channel_handshake`
unfoldable pub do_data_channel_handshake : Text → Conn → Server → Delivery
do_data_channel_handshake nonce c s = deliver nonce c s (find_by Item.key2 nonce s.control_channels)

pub data Handled : Type 0 where
  control : Outcome Server → Handled
  data_channel : Delivery → Handled
  no_hello : Protocol.Error → Handled

-- `handle_connection`, within the deadline.
unfoldable pub handle_connection :
    Wire → ℕ → SocketAddr → Text → (Server → Server) → Server → Conn → Handled
handle_connection w now source_addr nonce meanwhile s c = by_hello (read_hello w c.input)
  where
    by_hello : Protocol.Result (Hello × List ℕ) → Handled
    by_hello (fail e) = no_hello e
    by_hello (done (control_channel_hello _ service_digest, rest)) = control (
        do_control_channel_handshake w now source_addr nonce service_digest meanwhile s
          (record c { input = rest }))
    by_hello (done (data_channel_hello _ session_key, rest)) =
        data_channel (do_data_channel_handshake session_key (record c { input = rest }) s)
