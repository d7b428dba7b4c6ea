-- ===== src/Client/Udp.antt =====
-- `run_data_channel_for_udp` and `run_udp_forwarder` of src/client.rs: the datagrams of all visitors
-- of a UDP service share one data channel, and each visitor has a forwarder with a socket of its own
-- to the local service. The loop and its forwarders run as tasks; a step is what a task does between
-- two awaits, and any order of steps may happen. A step that cannot be taken gives `none`.
pub mod Table
pub mod Isolation
pub mod Branches
pub mod Reachable
pub mod Tests
use rathole_x.Base.{
  ℕ, suc, ◌+◌, Bool, true, false, not, Option, none, some, List, [], ◌∷◌, ◌++◌, if◌then◌else◌,
  nat_eq, ltb, length, take, is_none,
}
use rathole_x.Base.Dict.{Dict, get, insert, remove}
use rathole_x.Base.Net.{SocketAddr, socket_addr_eq}
use rathole_x.Base.Search.{change_by}
use rathole_x.MultiMap.Cells.{find_by, drop_by}
use rathole_x.Protocol.{UdpTraffic}

abbrev pub udp_sendq_size : ℕ
udp_sendq_size = 1024

abbrev pub udp_buffer_size : ℕ
udp_buffer_size = 2048

-- A task of `run_udp_forwarder`: its number, the visitor, what its `inbound_rx` holds, and whether its
-- loop still runs. A sender of `inbound_rx` is the number of the task.
pub record Forwarder : Type 0 where
  pub ident : ℕ
  pub from : SocketAddr
  pub inbound : List UdpTraffic
  pub running : Bool

-- Where the loop of `run_data_channel_for_udp` is.
pub data Place : Type 0 where
  reading : Place
  connecting : UdpTraffic → Place
  looking : UdpTraffic → Place
  sending : UdpTraffic → ℕ → Place

-- The tasks and what they share; `to_service` lists the datagrams written to the local service, each
-- with the visitor of the socket that wrote it.
pub record UdpLoop : Type 0 where
  pub place : Place
  pub port_map : Dict SocketAddr ℕ
  pub forwarders : List Forwarder
  pub next : ℕ
  pub outbound : List UdpTraffic
  pub to_service : List (SocketAddr × UdpTraffic)

pub data Event : Type 0 where
  packet_read : UdpTraffic → Event
  connect_done : Bool → Event
  sender_found : Event
  packet_sent : Event
  forwarded : ℕ → Bool → Event
  replied : ℕ → List ℕ → Event
  broke : ℕ → Event
  cleaned_up : ℕ → Event

abbrev pub start : UdpLoop
start = record {
  place = reading;
  port_map = [];
  forwarders = [];
  next = 0;
  outbound = [];
  to_service = [];
}

abbrev pub new_forwarder : ℕ → SocketAddr → Forwarder
new_forwarder i from = record { ident = i; from = from; inbound = []; running = true }

-- `udp_connect` gave a socket: the mapping and the task.
abbrev pub spawned : UdpTraffic → UdpLoop → UdpLoop
spawned p s = record s {
  place = looking p;
  port_map = insert p.from s.next s.port_map;
  forwarders = new_forwarder s.next p.from ∷ s.forwarders;
  next = suc s.next;
}

abbrev pub found : UdpTraffic → Option ℕ → UdpLoop → UdpLoop
found p none s = record s { place = reading }
found p (some i) s = record s { place = sending p i }

abbrev pub push : UdpTraffic → Forwarder → Forwarder
push p f = record f { inbound = f.inbound ++ p ∷ [] }

-- `tx.send(…)`: it fails when the receiver is gone, and waits while the queue is full.
abbrev pub send_to : UdpTraffic → ℕ → UdpLoop → Option Forwarder → Option UdpLoop
send_to p i s none = some (record s { place = reading })
send_to p i s (some f) =
    if not f.running
    then some (record s { place = reading })
    else if ltb (length f.inbound) udp_sendq_size
    then some (record s {
      place = reading;
      forwarders = change_by Forwarder.ident i (push p) s.forwarders;
    })
    else none

-- The loop of `run_data_channel_for_udp`.
abbrev pub main_step : Event → Place → UdpLoop → Option UdpLoop
main_step (packet_read p) reading s =
    some (record s { place = if is_none (get p.from s.port_map) then connecting p else looking p })
main_step (connect_done true) (connecting p) s = some (spawned p s)
main_step (connect_done false) (connecting p) s = some (record s { place = looking p })
main_step sender_found (looking p) s = some (found p (get p.from s.port_map) s)
main_step packet_sent (sending p i) s = send_to p i s (find_by Forwarder.ident i s.forwarders)
main_step _ _ s = none

abbrev pub with_inbound : ℕ → Bool → UdpLoop → Forwarder → List UdpTraffic → Option UdpLoop
with_inbound i sent s f [] = none
with_inbound i sent s f (t ∷ rest) = some (record s {
  forwarders =
      change_by Forwarder.ident i (λ g. record g { inbound = rest; running = sent }) s.forwarders;
  to_service = if sent then (f.from, t) ∷ s.to_service else s.to_service;
})

-- The branches of `run_udp_forwarder`: a datagram for the service, which is written or breaks the loop;
-- a datagram of the service; the end of the loop for any other reason; and the removal behind it.
abbrev pub forwarder_step : Event → UdpLoop → Option Forwarder → Option UdpLoop
forwarder_step (forwarded i sent) s (some f) =
    if f.running then with_inbound i sent s f f.inbound else none
forwarder_step (replied i payload) s (some f) =
    if f.running
    then some (record s {
      outbound =
          s.outbound ++ record { from = f.from; payload = take udp_buffer_size payload } ∷ [];
    })
    else none
forwarder_step (broke i) s (some f) =
    if f.running
    then some (record s {
      forwarders = change_by Forwarder.ident i (λ g. record g { running = false }) s.forwarders;
    })
    else none
forwarder_step (cleaned_up i) s (some f) =
    if f.running
    then none
    else some (record s {
      port_map = remove f.from s.port_map;
      forwarders = drop_by Forwarder.ident i s.forwarders;
    })
forwarder_step _ s _ = none

abbrev pub of_forwarder : ℕ → UdpLoop → Option Forwarder
of_forwarder i s = find_by Forwarder.ident i s.forwarders

unfoldable pub step : Event → UdpLoop → Option UdpLoop
step (forwarded i sent) s = forwarder_step (forwarded i sent) s (of_forwarder i s)
step (replied i payload) s = forwarder_step (replied i payload) s (of_forwarder i s)
step (broke i) s = forwarder_step (broke i) s (of_forwarder i s)
step (cleaned_up i) s = forwarder_step (cleaned_up i) s (of_forwarder i s)
step e s = main_step e s.place s

abbrev pub and_then : Option UdpLoop → (UdpLoop → Option UdpLoop) → Option UdpLoop
and_then none f = none
and_then (some s) f = f s

unfoldable pub run : List Event → UdpLoop → Option UdpLoop
unfolding step
run [] s = some s
run (e ∷ es) s = and_then (step e s) (run es)
