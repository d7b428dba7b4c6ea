-- ===== src/Client/Control/Orderly.antt =====
-- The order that the task of a control channel in src/client.rs keeps when it is shut down.
use rathole_x.Base.{
  ℕ, suc, ◌≤◌, ◌≡◌, Bool, true, false, not, ◌||◌, List, nat_eq, text_eq, if◌then◌else◌, arith,
}
use rathole_x.Client.Control.{
  Place, resolving, dialing, online, broken, sleeping, stopped, crashed, Task, Event, shutdown_sent,
  setup_failed, resolved, dialed, command_read, heartbeat_timed_out, rebuild_received,
  shutdown_received, backed_off, slept,
}
use rathole_x.Client.Control.Moves.{watched}

-- Whether a shutdown was sent, whether the back-off gave up, and the attempts that began after the shutdown.
pub record Seen : Type 0 where
  pub shut : Bool
  pub exhausted : Bool
  pub late_attempts : ℕ

abbrev pub see : Event → Seen → Seen
see shutdown_sent x = record x { shut = true }
see slept x = record x { late_attempts = if x.shut then suc x.late_attempts else x.late_attempts }
see (backed_off _ more) x = record x { exhausted = x.exhausted || not more }
see (setup_failed _) x = x
see (resolved _ _) x = x
see (dialed _ _ _) x = x
see (command_read _ _ _) x = x
see (heartbeat_timed_out _ _) x = x
see (rebuild_received _) x = x
see shutdown_received x = x

abbrev pub seen : List Event → Seen
seen es = watched see es (record { shut = false; exhausted = false; late_attempts = 0 })

-- After a shutdown, no attempt begins but the one that the task sleeps before.
abbrev pub LateOk : Bool → Place → ℕ → Type 0
LateOk false place n = n ≡ 0
LateOk true sleeping n = n ≡ 0
LateOk true resolving n = n ≤ 1
LateOk true dialing n = n ≤ 1
LateOk true (online _) n = n ≤ 1
LateOk true (broken _) n = n ≤ 1
LateOk true stopped n = n ≤ 1
LateOk true crashed n = n ≤ 1

-- What ends the task.
abbrev pub EndOk : Place → Seen → Type 0
EndOk stopped x = (x.shut || x.exhausted) ≡ true
EndOk resolving x = Unit
EndOk dialing x = Unit
EndOk (online _) x = Unit
EndOk (broken _) x = Unit
EndOk sleeping x = Unit
EndOk crashed x = Unit

pub record IsOrderly (x : Seen) (s : Task) : Type 0 where
  pub agree : s.shutdown ≡ x.shut
  pub late : LateOk x.shut s.place x.late_attempts
  pub over : EndOk s.place x

pub late-most : (b : Bool) (place : Place) (n : ℕ) → LateOk b place n → n ≤ 1
late-most false place n h = omega (arith, h)
late-most true sleeping n h = omega (arith, h)
late-most true resolving n h = h
late-most true dialing n h = h
late-most true (online _) n h = h
late-most true (broken _) n h = h
late-most true stopped n h = h
late-most true crashed n h = h

-- A place that allows a late attempt to be under way.
abbrev pub Awake : Place → Type 0
Awake stopped = ⊥
Awake sleeping = ⊥
Awake resolving = Unit
Awake dialing = Unit
Awake (online _) = Unit
Awake (broken _) = Unit
Awake crashed = Unit

pub late-Awake : (b : Bool) (from to : Place) (n : ℕ) → Awake to → LateOk b from n → LateOk b to n
late-Awake false from to n a h = h
late-Awake true from resolving n a h = late-most true from n h
late-Awake true from dialing n a h = late-most true from n h
late-Awake true from (online _) n a h = late-most true from n h
late-Awake true from (broken _) n a h = late-most true from n h
late-Awake true from crashed n a h = late-most true from n h
late-Awake true from stopped n a h = absurd a
late-Awake true from sleeping n a h = absurd a

pub over-Awake : (to : Place) (x : Seen) → Awake to → EndOk to x
over-Awake resolving x a = tt
over-Awake dialing x a = tt
over-Awake (online _) x a = tt
over-Awake (broken _) x a = tt
over-Awake crashed x a = tt
over-Awake stopped x a = absurd a
over-Awake sleeping x a = absurd a
