-- ===== src/Server/Pool.antt =====
-- `tcp_listen_and_send` and `run_tcp_connection_pool` of src/server.rs: the listener accepts visitors
-- and asks for a data channel for each; the pool pairs the visitors with the data channels that
-- arrive. The two are tasks; a step is what one does between two awaits. A step that cannot be
-- taken gives `none`. Visitors and data channels are numbers.
pub mod Progress
pub mod Steps
pub mod Served
pub mod Tests
use rathole_x.Base.{
  ℕ, suc, ◌+◌, Bool, true, false, not, Option, none, some, List, [], ◌∷◌, ◌++◌, if◌then◌else◌, ltb,
  length,
}
use rathole_x.Server.{chan_size, tcp_pool_size}

-- Where `run_tcp_connection_pool` is: before `visitor_rx.recv()`, in the inner loop, or behind both.
pub data Place : Type 0 where
  idle : Place
  serving : ℕ → Place
  ended : Place

-- The queues, and what has happened: requests sent, and each channel that was taken, with the visitor
-- that it serves, or `none` where the command could not be written to it.
pub record Pool : Type 0 where
  pub place : Place
  pub listening : Bool
  -- The listener has asked for a data channel, and has not yet handed its visitor over.
  pub accepted : Option ℕ
  pub visitors : List ℕ
  pub channels : List ℕ
  pub requests : ℕ
  pub taken : List (ℕ × Option ℕ)

pub data Event : Type 0 where
  -- A visitor connected; whether the request for a data channel could be sent.
  visitor_accepted : ℕ → Bool → Event
  visitor_sent : Event
  listener_stopped : Event
  channel_arrived : ℕ → Event
  visitor_received : Event
  -- A data channel was received; whether the command could be written to it, and if not, whether the
  -- request for another could be sent.
  channel_received : Bool → Bool → Event
  -- `data_ch_rx` is closed and empty, or `visitor_rx` is.
  channels_closed : Event
  visitors_closed : Event

-- The pool when `ControlChannelHandle::new` has asked for the channels that it caches.
abbrev pub start : Pool
start = record {
  place = idle;
  listening = true;
  accepted = none;
  visitors = [];
  channels = [];
  requests = tcp_pool_size;
  taken = [];
}

-- `tx.send(incoming)`: it waits while the queue is full, and fails when the pool has ended.
abbrev pub send_visitor : ℕ → Place → Pool → Option Pool
send_visitor v ended s = some (record s { accepted = none })
send_visitor v idle s =
    if ltb (length s.visitors) chan_size
    then some (record s { accepted = none; visitors = s.visitors ++ v ∷ [] })
    else none
send_visitor v (serving _) s =
    if ltb (length s.visitors) chan_size
    then some (record s { accepted = none; visitors = s.visitors ++ v ∷ [] })
    else none

abbrev pub listen_step : Event → Bool → Option ℕ → Pool → Option Pool
listen_step (visitor_accepted v true) true none s =
    some (record s { accepted = some v; requests = suc s.requests })
listen_step (visitor_accepted v false) true none s = some (record s { listening = false })
listen_step visitor_sent true (some v) s = send_visitor v s.place s
listen_step listener_stopped true none s = some (record s { listening = false })
listen_step _ _ _ s = none

abbrev pub receive_visitor : List ℕ → Pool → Option Pool
receive_visitor [] s = none
receive_visitor (v ∷ rest) s = some (record s { place = serving v; visitors = rest })

abbrev pub receive_channel : ℕ → Bool → Bool → List ℕ → Pool → Option Pool
receive_channel v wrote asked [] s = none
receive_channel v true asked (c ∷ rest) s =
    some (record s { place = idle; channels = rest; taken = s.taken ++ (c, some v) ∷ [] })
receive_channel v false true (c ∷ rest) s =
    some
      (record s { channels = rest; requests = suc s.requests; taken = s.taken ++ (c, none) ∷ [] })
receive_channel v false false (c ∷ rest) s =
    some (record s { place = ended; channels = rest; taken = s.taken ++ (c, none) ∷ [] })

abbrev pub close : List ℕ → Pool → Option Pool
close [] s = some (record s { place = ended })
close (_ ∷ _) s = none

abbrev pub pool_step : Event → Place → Pool → Option Pool
pool_step visitor_received idle s = receive_visitor s.visitors s
pool_step visitors_closed idle s = if s.listening then none else close s.visitors s
pool_step (channel_received wrote asked) (serving v) s = receive_channel v wrote asked s.channels s
pool_step channels_closed (serving v) s = close s.channels s
pool_step _ _ s = none

unfoldable pub step : Event → Pool → Option Pool
step (channel_arrived c) s = some (record s { channels = s.channels ++ c ∷ [] })
step (visitor_accepted v asked) s = listen_step (visitor_accepted v asked) s.listening s.accepted s
step visitor_sent s = listen_step visitor_sent s.listening s.accepted s
step listener_stopped s = listen_step listener_stopped s.listening s.accepted s
step e s = pool_step e s.place s

abbrev pub and_then : Option Pool → (Pool → Option Pool) → Option Pool
and_then none f = none
and_then (some s) f = f s

unfoldable pub run : List Event → Pool → Option Pool
unfolding step
run [] s = some s
run (e ∷ es) s = and_then (step e s) (run es)
