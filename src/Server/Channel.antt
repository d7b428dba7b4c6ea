-- ===== src/Server/Channel.antt =====
-- `ControlChannel::run` of src/server.rs: the loop that asks the client for data channels and gives the
-- control channel up when none arrives in time. A step is one branch of the `select!`, at a time in
-- seconds; a branch whose guard is false gives `none`. A trace lists the latest step first.
pub mod Deadline
use rathole_x.Base.{
  ℕ, zero, suc, ◌+◌, ◌-◌, ◌%◌, ◌^◌, ◌≤◌, ◌<◌, ◌≡◌, Bool, true, false, not, ◌||◌, Option, none, some,
  List, [], ◌∷◌, ◌++◌, if◌then◌else◌, leb, ltb, ◌==◌, nat_eq,
}
use rathole_x.Protocol.{ControlChannelCmd, create_data_channel, heart_beat}

-- The variables of the loop, and the commands written so far.
pub record ControlChannel : Type 0 where
  pub pending_data_ch : ℕ
  pub data_ch_deadline : Option ℕ
  pub arrived_rx_closed : Bool
  pub sent : List ControlChannelCmd

-- A branch of the `select!`. The Booleans are: whether the channel gave a value, and whether the write succeeded.
pub data Event : Type 0 where
  data_ch_req : Bool → Bool → Event
  data_ch_arrived : Bool → Event
  deadline_fired : Event
  heartbeat_due : Bool → Event
  shutdown : Event

pub data Next : Type 0 where
  running : ControlChannel → Next
  -- `break`, which ends with `Ok`.
  ended : Next
  -- `bail!`
  stuck : Next

abbrev pub start : ControlChannel
start = record {
  pending_data_ch = 0;
  data_ch_deadline = none;
  arrived_rx_closed = false;
  sent = [];
}

abbrev pub arm_if_none : ℕ → Option ℕ → Option ℕ
arm_if_none deadline none = some deadline
arm_if_none deadline (some d) = some d

abbrev pub fire : ℕ → Option ℕ → Option Next
fire now none = none
fire now (some d) = if leb d now then some stuck else none

module _ (heartbeat_interval data_ch_timeout : ℕ) where
  unfoldable pub step : ℕ → Event → ControlChannel → Option Next
  step now (data_ch_req true true) ch = some (
      running (record ch {
        pending_data_ch = (ch.pending_data_ch + 1) % 2 ^ 32;
        data_ch_deadline = arm_if_none (now + data_ch_timeout) ch.data_ch_deadline;
        sent = ch.sent ++ create_data_channel ∷ [];
      }))
  step now (data_ch_req true false) ch = some ended
  step now (data_ch_req false _) ch = some ended
  step now (data_ch_arrived true) ch =
      if ch.arrived_rx_closed
      then none
      else some (
          running (record ch {
            pending_data_ch = ch.pending_data_ch - 1;
            data_ch_deadline =
                if ltb 0 (ch.pending_data_ch - 1) then some (now + data_ch_timeout) else none;
          }))
  step now (data_ch_arrived false) ch =
      if ch.arrived_rx_closed then none else some (running (record ch { arrived_rx_closed = true }))
  step now deadline_fired ch = fire now ch.data_ch_deadline
  step now (heartbeat_due true) ch =
      if heartbeat_interval == 0
      then none
      else some (running (record ch { sent = ch.sent ++ heart_beat ∷ [] }))
  step now (heartbeat_due false) ch = if heartbeat_interval == 0 then none else some ended
  step now shutdown ch = some ended

  abbrev pub then_step : ℕ → Event → Option Next → Option Next
  then_step now e none = none
  then_step now e (some (running ch)) = step now e ch
  then_step now e (some ended) = none
  then_step now e (some stuck) = none

  -- Where a trace leads from the start.
  unfoldable pub run : List (ℕ × Event) → Option Next
  unfolding step
  run [] = some (running start)
  run ((now, e) ∷ trace) = then_step now e (run trace)
