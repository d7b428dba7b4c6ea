-- ===== src/Server/UdpPool/Tests.antt =====
-- The UDP pool of src/server.rs with a data channel that breaks and its replacement.
use rathole_x.Base.{ℕ, ◌≡◌, refl, some, List, [], ◌∷◌, true}
use rathole_x.Base.Net.{SocketAddr, v4}
use rathole_x.Server.UdpPool.{
  UdpPool, waiting, forwarding, Event, channel_arrived, channel_received, inbound, outbound,
  outbound_failed, start, step, run,
}
use rathole_x.Server.UdpPool.Session.{IsPool, run-IsPool, run-resumes}

abbrev alice : SocketAddr
alice = v4 1 1000

abbrev events : List Event
events =
    channel_arrived 11
    ∷ channel_arrived 12
    ∷ channel_received true true
    ∷ inbound alice (7 ∷ []) true true
    ∷ outbound (record { from = alice; payload = 8 ∷ [] })
    ∷ outbound_failed true
    ∷ channel_received true true
    ∷ outbound_failed true
    ∷ channel_arrived 13
    ∷ []

abbrev reached : UdpPool
reached = record {
  place = waiting;
  channels = 13 ∷ [];
  requests = 3;
  taken = 11 ∷ 12 ∷ [];
  to_client = (11, record { from = alice; payload = 7 ∷ [] }) ∷ [];
  to_visitors = record { from = alice; payload = 8 ∷ [] } ∷ [];
}

run-events : run events start ≡ some reached
unfolding run step
run-events = refl

run-IsPool_example : IsPool (11 ∷ 12 ∷ 13 ∷ []) reached
run-IsPool_example = run-IsPool events reached run-events

run-resumes_example :
    (c : ℕ) × (s : UdpPool) × (step (channel_received true true) reached ≡ some s)
    × (s.place ≡ forwarding c)
run-resumes_example = run-resumes events reached run-events refl refl
