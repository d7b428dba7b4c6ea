-- ===== src/Server/Pool/Tests.antt =====
-- The TCP pool of src/server.rs with two visitors and a broken data channel.
use rathole_x.Base.{ℕ, ◌≡◌, refl, none, some, List, [], ◌∷◌, ◌++◌, true, false}
use rathole_x.Server.Pool.{
  Pool, serving, Event, visitor_accepted, visitor_sent, channel_arrived, visitor_received,
  channel_received, start, step, run,
}
use rathole_x.Server.Pool.Served.{run-progress}

-- The first visitor is served, and the data channel for the second one breaks.
abbrev busy : List Event
busy =
    visitor_accepted 1 true
    ∷ visitor_sent
    ∷ visitor_accepted 2 true
    ∷ visitor_received
    ∷ channel_arrived 11
    ∷ channel_received true true
    ∷ visitor_sent
    ∷ visitor_received
    ∷ channel_arrived 12
    ∷ channel_received false true
    ∷ []

abbrev all_arrived : List Event
all_arrived =
    channel_arrived 13
    ∷ channel_arrived 14
    ∷ channel_arrived 15
    ∷ channel_arrived 16
    ∷ channel_arrived 17
    ∷ channel_arrived 18
    ∷ channel_arrived 19
    ∷ channel_arrived 20
    ∷ channel_arrived 21
    ∷ []

abbrev after : List ℕ → Pool
after channels = record {
  place = serving 2;
  listening = true;
  accepted = none;
  visitors = [];
  channels = channels;
  requests = 11;
  taken = (11, some 1) ∷ (12, none) ∷ [];
}

abbrev all_channels : List ℕ
all_channels = 13 ∷ 14 ∷ 15 ∷ 16 ∷ 17 ∷ 18 ∷ 19 ∷ 20 ∷ 21 ∷ []

run-busy-all_arrived : run (busy ++ all_arrived) start ≡ some (after all_channels)
unfolding run step
run-busy-all_arrived = refl

run-progress_example :
    (c : ℕ) × (s : Pool) × (step (channel_received true true) (after all_channels) ≡ some s)
    × (s.taken ≡ (11, some 1) ∷ (12, none) ∷ (c, some 2) ∷ [])
run-progress_example =
    run-progress (busy ++ all_arrived) (after all_channels) 2 run-busy-all_arrived refl refl
