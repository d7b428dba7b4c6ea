-- ===== src/Server/UdpPool.antt =====
-- `run_udp_connection_pool` of src/server.rs, from the bound socket on: one data channel carries the
-- datagrams of all visitors, and a broken one is replaced on the same socket. A step is a branch of
-- the code between two awaits; one that cannot be taken gives `none`. Data channels are numbers.
pub mod Session
pub mod Tests
use rathole_x.Base.{
  ℕ, suc, ◌+◌, Bool, true, false, Option, none, some, List, [], ◌∷◌, ◌++◌, if◌then◌else◌, take,
}
use rathole_x.Base.Net.{SocketAddr}
use rathole_x.Protocol.{UdpTraffic}
use rathole_x.Client.Udp.{udp_buffer_size}
use rathole_x.Server.{udp_pool_size}

-- Before `data_ch_rx.recv()`, in the session of a data channel, or behind the loop.
pub data Place : Type 0 where
  waiting : Place
  forwarding : ℕ → Place
  ended : Place

pub record UdpPool : Type 0 where
  pub place : Place
  pub channels : List ℕ
  pub requests : ℕ
  -- The channels taken so far, in order.
  pub taken : List ℕ
  pub to_client : List (ℕ × UdpTraffic)
  pub to_visitors : List UdpTraffic

pub data Event : Type 0 where
  channel_arrived : ℕ → Event
  channels_closed : Event
  -- A data channel was received; whether the command could be written to it, and whether a request
  -- for another could be sent if not.
  channel_received : Bool → Bool → Event
  -- A datagram of a visitor; whether it could be written, and whether a request could be sent if not.
  inbound : SocketAddr → List ℕ → Bool → Bool → Event
  inbound_error : Event
  -- A frame of the client.
  outbound : UdpTraffic → Event
  -- The frame could not be read; whether a request for another channel could be sent.
  outbound_failed : Bool → Event
  shutdown : Event

abbrev pub start : UdpPool
start = record {
  place = waiting;
  channels = [];
  requests = udp_pool_size;
  taken = [];
  to_client = [];
  to_visitors = [];
}

-- `if data_ch_req_tx.send(true).is_err() { break 'pool }`
abbrev pub replace : Bool → UdpPool → UdpPool
replace true s = record s { place = waiting; requests = suc s.requests }
replace false s = record s { place = ended }

abbrev pub begin : Bool → Bool → List ℕ → UdpPool → Option UdpPool
begin wrote asked [] s = none
begin true asked (c ∷ rest) s =
    some (record s { place = forwarding c; channels = rest; taken = s.taken ++ c ∷ [] })
begin false asked (c ∷ rest) s =
    some (replace asked (record s { channels = rest; taken = s.taken ++ c ∷ [] }))

abbrev pub close : List ℕ → UdpPool → Option UdpPool
close [] s = some (record s { place = ended })
close (_ ∷ _) s = none

abbrev pub to_client_frame : ℕ → SocketAddr → List ℕ → UdpPool → UdpPool
to_client_frame c from payload s = record s {
  to_client =
      s.to_client ++ (c, record { from = from; payload = take udp_buffer_size payload }) ∷ [];
}

abbrev pub place_step : Event → Place → UdpPool → Option UdpPool
place_step (channel_received wrote asked) waiting s = begin wrote asked s.channels s
place_step channels_closed waiting s = close s.channels s
place_step (inbound from payload true asked) (forwarding c) s =
    some (to_client_frame c from payload s)
place_step (inbound from payload false asked) (forwarding c) s = some (replace asked s)
place_step inbound_error (forwarding c) s = some s
place_step (outbound t) (forwarding c) s = some (record s { to_visitors = s.to_visitors ++ t ∷ [] })
place_step (outbound_failed asked) (forwarding c) s = some (replace asked s)
place_step shutdown (forwarding c) s = some (record s { place = ended })
place_step _ _ s = none

unfoldable pub step : Event → UdpPool → Option UdpPool
step (channel_arrived c) s = some (record s { channels = s.channels ++ c ∷ [] })
step e s = place_step e s.place s

abbrev pub and_then : Option UdpPool → (UdpPool → Option UdpPool) → Option UdpPool
and_then none f = none
and_then (some s) f = f s

unfoldable pub run : List Event → UdpPool → Option UdpPool
unfolding step
run [] s = some s
run (e ∷ es) s = and_then (step e s) (run es)
