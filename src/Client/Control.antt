-- ===== src/Client/Control.antt =====
-- The task of a control channel in src/client.rs: `ControlChannel::run` and the loop of
-- `ControlChannelHandle::new` that runs it again when it fails. A step is what the task does between
-- two awaits (connecting and the handshake are one step), or what others do to its channels. Any
-- order of steps may happen; one that cannot be taken gives `none`. A step that the clock matters to
-- has the time, in seconds, and one that can fail has the text that the error prints. The back-off
-- is a crate: an event says whether it went on.
pub mod Moves
pub mod Shown
pub mod Orderly
pub mod Shutdown
pub mod Heartbeat
pub mod Tests
use rathole_x.Base.{
  ℕ, suc, ◌+◌, Bool, true, false, not, ◌&&◌, Option, none, some, List, [], ◌∷◌, if◌then◌else◌,
  nat_eq, ◌==◌, leb, Text,
}
use rathole_x.Base.Net.{SocketAddr}
use rathole_x.Config.{ClientServiceConfig}
use rathole_x.Protocol.{Wire, ControlChannelCmd, create_data_channel, heart_beat, digest}
use rathole_x.Server.{Conn}
use rathole_x.Status.{
  RuntimeSnapshot, client_connecting, client_resolved, client_connected, client_retrying,
  client_stopped,
}
use rathole_x.Client.{Error, panicked, Outcome, connected, failed, establish, try_send}

-- Where the task is: in the lookup of the address, in connecting and the handshake, in the loop since
-- a time, behind `run` with an error, in the sleep of the back-off, at its end, or in a panic.
pub data Place : Type 0 where
  resolving : Place
  dialing : Place
  online : ℕ → Place
  broken : Text → Place
  sleeping : Place
  stopped : Place
  crashed : Place

-- `shutdown` says that `shutdown_rx` is ready: a shutdown was sent, or the handle dropped;
-- `force_rebuild` is what the channel of capacity 1 holds. `attempts` and `data_channels` only count.
pub record Task : Type 0 where
  pub place : Place
  pub shutdown : Bool
  pub force_rebuild : Option ℕ
  pub runtime : RuntimeSnapshot
  pub attempts : ℕ
  pub data_channels : ℕ

pub data Event : Type 0 where
  shutdown_sent : Event
  setup_failed : ℕ → Event
  resolved : Option SocketAddr → Text → Event
  dialed : ℕ → Option Conn → Text → Event
  command_read : ℕ → Option ControlChannelCmd → Text → Event
  heartbeat_timed_out : ℕ → Text → Event
  rebuild_received : Text → Event
  shutdown_received : Event
  backed_off : ℕ → Bool → Event
  slept : Event

abbrev pub broke : Text → Task → Task
broke m s = record s { place = broken m }

-- The command of a server: a data channel is a task of its own.
abbrev pub obeyed : ℕ → ControlChannelCmd → Task → Task
obeyed now create_data_channel s = record s {
  place = online now;
  data_channels = suc s.data_channels;
}
obeyed now heart_beat s = record s { place = online now }

abbrev pub rebuild : Text → Option ℕ → Task → Option Task
rebuild m none s = none
rebuild m (some n) s = some (record s { place = broken m; force_rebuild = none })

module _ (service : ClientServiceConfig) where
  -- The start of `ControlChannel::run`.
  abbrev pub begin_run : Task → Task
  begin_run s = record s {
    place = resolving;
    runtime = client_connecting service.name s.runtime;
    attempts = suc s.attempts;
  }

  abbrev pub stop : Task → Task
  stop s = record s { place = stopped; runtime = client_stopped service.name s.runtime }

  abbrev pub stop_when : Bool → Task → Option Task
  stop_when true s = some (stop s)
  stop_when false s = none

  abbrev pub retried : Option RuntimeSnapshot → Task → Task
  retried none s = record s { place = crashed }
  retried (some r) s = record s { place = sleeping; runtime = r }

  -- The body of the loop of `ControlChannelHandle::new`: whether `shutdown_rx` is not empty, and
  -- whether the back-off goes on.
  abbrev pub after_failure : ℕ → Bool → Bool → Text → Task → Task
  after_failure now true more m s = stop s
  after_failure now false true m s = retried (client_retrying now service.name m s.runtime) s
  after_failure now false false m s = stop s

  abbrev pub after_handshake : ℕ → Text → Outcome Text → Task → Task
  after_handshake now m (connected session_key conn) s = record s {
    place = online now;
    runtime = client_connected now service.name s.runtime;
  }
  after_handshake now m (failed panicked) s = record s { place = crashed }
  after_handshake now m (failed _) s = record s { place = broken m }

  module _ (w : Wire) (heartbeat_timeout : ℕ) where
    abbrev pub timer_fired : ℕ → ℕ → Bool
    timer_fired since now = not (heartbeat_timeout == 0) && leb (since + heartbeat_timeout) now

    abbrev pub place_step : Event → Place → Task → Option Task
    place_step (resolved (some addr) m) resolving s =
        some (record s { place = dialing; runtime = client_resolved service.name addr s.runtime })
    place_step (resolved none m) resolving s = some (broke m s)
    place_step (dialed now (some conn) m) dialing s =
        some (after_handshake now m (establish w (digest w service.name) service.token conn) s)
    place_step (dialed now none m) dialing s = some (broke m s)
    place_step (command_read now (some cmd) m) (online since) s = some (obeyed now cmd s)
    place_step (command_read now none m) (online since) s = some (broke m s)
    place_step (heartbeat_timed_out now m) (online since) s =
        if timer_fired since now then some (broke m s) else none
    place_step (rebuild_received m) (online since) s = rebuild m s.force_rebuild s
    place_step shutdown_received (online since) s = stop_when s.shutdown s
    place_step (backed_off now more) (broken m) s = some (after_failure now s.shutdown more m s)
    place_step slept sleeping s = some (begin_run s)
    place_step _ _ s = none

    unfoldable pub step : Event → Task → Option Task
    step shutdown_sent s = some (record s { shutdown = true })
    step (setup_failed n) s = some (record s { force_rebuild = try_send n s.force_rebuild })
    step e s = place_step e s.place s

    abbrev pub and_then : Option Task → (Task → Option Task) → Option Task
    and_then none f = none
    and_then (some s) f = f s

    unfoldable pub run : List Event → Task → Option Task
    unfolding step
    run [] s = some s
    run (e ∷ es) s = and_then (step e s) (run es)

  -- The task as `ControlChannelHandle::new` spawns it.
  abbrev pub start : RuntimeSnapshot → Task
  start r = begin_run (record {
    place = sleeping;
    shutdown = false;
    force_rebuild = none;
    runtime = r;
    attempts = 0;
    data_channels = 0;
  })
