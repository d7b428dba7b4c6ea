-- ===== src/Client/Udp/Tests.antt =====
-- A UDP data channel of src/client.rs with two visitors, at concrete inputs.
use rathole_x.Base.{◌≡◌, refl, some, List, [], ◌∷◌, ◌++◌, true, length}
use rathole_x.Base.Dict.{get, insert, remove}
use rathole_x.Base.Net.{SocketAddr, v4}
use rathole_x.Protocol.{UdpTraffic, done}
use rathole_x.Protocol.Sample.{sample_wire}
use rathole_x.Protocol.Udp.{write_all, read_all}
use rathole_x.Client.Udp.{
  UdpLoop, reading, Event, packet_read, connect_done, sender_found, packet_sent, forwarded, replied,
  broke, cleaned_up, start, step, run,
}
use rathole_x.Client.Udp.Isolation.{IsIsolated}
use rathole_x.Client.Udp.Reachable.{run-IsIsolated, read_all-run}

abbrev alice : SocketAddr
alice = v4 1 1000

abbrev bob : SocketAddr
bob = v4 2 2000

abbrev sent_by : SocketAddr → UdpTraffic
sent_by a = record { from = a; payload = 7 ∷ [] }

-- Both visitors send a datagram, the service answers both, and the first one's forwarder ends.
abbrev events : List Event
events =
    packet_read (sent_by alice)
    ∷ connect_done true
    ∷ sender_found
    ∷ packet_sent
    ∷ packet_read (sent_by bob)
    ∷ connect_done true
    ∷ forwarded 0 true
    ∷ sender_found
    ∷ packet_sent
    ∷ replied 0 (8 ∷ [])
    ∷ forwarded 1 true
    ∷ replied 1 (9 ∷ [])
    ∷ broke 0
    ∷ cleaned_up 0
    ∷ []

abbrev replies : List UdpTraffic
replies = record { from = alice; payload = 8 ∷ [] } ∷ record { from = bob; payload = 9 ∷ [] } ∷ []

abbrev reached : UdpLoop
reached = record {
  place = reading;
  port_map = (bob, 1) ∷ [];
  forwarders = record { ident = 1; from = bob; inbound = []; running = true } ∷ [];
  next = 2;
  outbound = replies;
  to_service = (bob, sent_by bob) ∷ (alice, sent_by alice) ∷ [];
}

run-events : run events start ≡ some reached
unfolding run step get insert remove
run-events = refl

run-IsIsolated_example : IsIsolated reached
run-IsIsolated_example = run-IsIsolated events reached run-events

read_all-run_example :
    read_all sample_wire (length replies) (write_all sample_wire replies ++ 5 ∷ [])
    ≡ done (replies, 5 ∷ [])
read_all-run_example = read_all-run sample_wire events reached (5 ∷ []) run-events
