-- ===== src/Client/Control/Moves.antt =====
-- The steps of the task of a control channel in src/client.rs as a relation.
use mathlib.Core.Path.{subst}
use rathole_x.Base.{
  ℕ, ◌≡◌, refl, Bool, true, false, Option, none, some, List, [], ◌∷◌, nat_eq, Text, if◌then◌else◌,
}
use rathole_x.Base.Net.{SocketAddr}
use rathole_x.Config.{ClientServiceConfig}
use rathole_x.Protocol.{Wire, ControlChannelCmd}
use rathole_x.Server.{Conn}
use rathole_x.Status.{client_resolved}
use rathole_x.Client.{Outcome, try_send}
use rathole_x.Client.Control.{
  Place, resolving, dialing, online, broken, sleeping, stopped, crashed, Task, Event, shutdown_sent,
  setup_failed, resolved, dialed, command_read, heartbeat_timed_out, rebuild_received,
  shutdown_received, backed_off, slept, broke, obeyed, rebuild, begin_run, stop, stop_when,
  after_failure, after_handshake, timer_fired, place_step, step, and_then, run,
}

abbrev pub watched : {X : Type 0} → (Event → X → X) → List Event → X → X
watched watch [] x = x
watched watch (e ∷ es) x = watched watch es (watch e x)

module _ (service : ClientServiceConfig) (w : Wire) (heartbeat_timeout : ℕ) where
  pub data Moves (s : Task) : Event → Task → Type 0 where
    sent : Moves s shutdown_sent (record s { shutdown = true })
    noted :
        (n : ℕ) → Moves s (setup_failed n) (record s { force_rebuild = try_send n s.force_rebuild })
    looked_up :
        (addr : SocketAddr) (m : Text)
        → s.place ≡ resolving
        → Moves s
            (resolved (some addr) m)
            (record s { place = dialing; runtime = client_resolved service.name addr s.runtime })
    not_found : (m : Text) → s.place ≡ resolving → Moves s (resolved none m) (broke m s)
    shaken :
        (now : ℕ) (conn : Conn) (m : Text) (o : Outcome Text)
        → s.place ≡ dialing
        → Moves s (dialed now (some conn) m) (after_handshake service now m o s)
    not_dialed : (now : ℕ) (m : Text) → s.place ≡ dialing → Moves s (dialed now none m) (broke m s)
    commanded :
        (now since : ℕ) (cmd : ControlChannelCmd) (m : Text)
        → s.place ≡ online since
        → Moves s (command_read now (some cmd) m) (obeyed now cmd s)
    not_read :
        (now since : ℕ) (m : Text)
        → s.place ≡ online since
        → Moves s (command_read now none m) (broke m s)
    timed_out :
        (now since : ℕ) (m : Text)
        → s.place ≡ online since
        → timer_fired service w heartbeat_timeout since now ≡ true
        → Moves s (heartbeat_timed_out now m) (broke m s)
    rebuilt :
        (since n : ℕ) (m : Text)
        → s.place ≡ online since
        → s.force_rebuild ≡ some n
        → Moves s (rebuild_received m) (record s { place = broken m; force_rebuild = none })
    ended :
        (since : ℕ)
        → s.place ≡ online since
        → s.shutdown ≡ true
        → Moves s shutdown_received (stop service s)
    gave_up :
        (now : ℕ) (more : Bool) (m : Text) (b : Bool)
        → s.place ≡ broken m
        → s.shutdown ≡ b
        → Moves s (backed_off now more) (after_failure service now b more m s)
    again : s.place ≡ sleeping → Moves s slept (begin_run service s)

  some-eq : {a b : Task} → ◌≡◌ {A = Option Task} (some a) (some b) → a ≡ b
  some-eq h = cc

  module _ {s r : Task} where
    stuck : {e : Event} → ◌≡◌ {A = Option Task} none (some r) → Moves s e r
    stuck h = cc

    went :
        {e : Event} {a : Task} → Moves s e a → ◌≡◌ {A = Option Task} (some a) (some r) → Moves s e r
    went {e} m h = subst (Moves s e) (some-eq h) m

    rebuild-Moves :
        (since : ℕ) (m : Text) (o : Option ℕ)
        → s.place ≡ online since
        → s.force_rebuild ≡ o
        → rebuild m o s ≡ some r
        → Moves s (rebuild_received m) r
    rebuild-Moves since m none p q h = stuck h
    rebuild-Moves since m (some n) p q h = went (rebuilt since n m p q) h

    stop_when-Moves :
        (since : ℕ) (b : Bool)
        → s.place ≡ online since
        → s.shutdown ≡ b
        → stop_when service b s ≡ some r
        → Moves s shutdown_received r
    stop_when-Moves since true p q h = went (ended since p q) h
    stop_when-Moves since false p q h = stuck h

    timer-Moves :
        (now since : ℕ) (m : Text) (b : Bool)
        → s.place ≡ online since
        → timer_fired service w heartbeat_timeout since now ≡ b
        → (if b then some (broke m s) else none) ≡ some r
        → Moves s (heartbeat_timed_out now m) r
    timer-Moves now since m true p q h = went (timed_out now since m p q) h
    timer-Moves now since m false p q h = stuck h

    place_step-Moves :
        (e : Event) (place : Place)
        → s.place ≡ place
        → place_step service w heartbeat_timeout e place s ≡ some r
        → Moves s e r
    place_step-Moves (resolved (some addr) m) resolving p h = went (looked_up addr m p) h
    place_step-Moves (resolved (some addr) m) dialing p h = stuck h
    place_step-Moves (resolved (some addr) m) (online since) p h = stuck h
    place_step-Moves (resolved (some addr) _) (broken _) p h = stuck h
    place_step-Moves (resolved (some addr) m) sleeping p h = stuck h
    place_step-Moves (resolved (some addr) m) stopped p h = stuck h
    place_step-Moves (resolved (some addr) m) crashed p h = stuck h
    place_step-Moves (resolved none m) resolving p h = went (not_found m p) h
    place_step-Moves (resolved none m) dialing p h = stuck h
    place_step-Moves (resolved none m) (online since) p h = stuck h
    place_step-Moves (resolved none _) (broken _) p h = stuck h
    place_step-Moves (resolved none m) sleeping p h = stuck h
    place_step-Moves (resolved none m) stopped p h = stuck h
    place_step-Moves (resolved none m) crashed p h = stuck h
    place_step-Moves (dialed now (some conn) m) resolving p h = stuck h
    place_step-Moves (dialed now (some conn) m) dialing p h = went (shaken now conn m _ p) h
    place_step-Moves (dialed now (some conn) m) (online since) p h = stuck h
    place_step-Moves (dialed now (some conn) _) (broken _) p h = stuck h
    place_step-Moves (dialed now (some conn) m) sleeping p h = stuck h
    place_step-Moves (dialed now (some conn) m) stopped p h = stuck h
    place_step-Moves (dialed now (some conn) m) crashed p h = stuck h
    place_step-Moves (dialed now none m) resolving p h = stuck h
    place_step-Moves (dialed now none m) dialing p h = went (not_dialed now m p) h
    place_step-Moves (dialed now none m) (online since) p h = stuck h
    place_step-Moves (dialed now none _) (broken _) p h = stuck h
    place_step-Moves (dialed now none m) sleeping p h = stuck h
    place_step-Moves (dialed now none m) stopped p h = stuck h
    place_step-Moves (dialed now none m) crashed p h = stuck h
    place_step-Moves (command_read now (some cmd) m) resolving p h = stuck h
    place_step-Moves (command_read now (some cmd) m) dialing p h = stuck h
    place_step-Moves (command_read now (some cmd) m) (online since) p h =
        went (commanded now since cmd m p) h
    place_step-Moves (command_read now (some cmd) _) (broken _) p h = stuck h
    place_step-Moves (command_read now (some cmd) m) sleeping p h = stuck h
    place_step-Moves (command_read now (some cmd) m) stopped p h = stuck h
    place_step-Moves (command_read now (some cmd) m) crashed p h = stuck h
    place_step-Moves (command_read now none m) resolving p h = stuck h
    place_step-Moves (command_read now none m) dialing p h = stuck h
    place_step-Moves (command_read now none m) (online since) p h = went (not_read now since m p) h
    place_step-Moves (command_read now none _) (broken _) p h = stuck h
    place_step-Moves (command_read now none m) sleeping p h = stuck h
    place_step-Moves (command_read now none m) stopped p h = stuck h
    place_step-Moves (command_read now none m) crashed p h = stuck h
    place_step-Moves (heartbeat_timed_out now m) resolving p h = stuck h
    place_step-Moves (heartbeat_timed_out now m) dialing p h = stuck h
    place_step-Moves (heartbeat_timed_out now m) (online since) p h =
        timer-Moves now since m _ p refl h
    place_step-Moves (heartbeat_timed_out now _) (broken _) p h = stuck h
    place_step-Moves (heartbeat_timed_out now m) sleeping p h = stuck h
    place_step-Moves (heartbeat_timed_out now m) stopped p h = stuck h
    place_step-Moves (heartbeat_timed_out now m) crashed p h = stuck h
    place_step-Moves (rebuild_received m) resolving p h = stuck h
    place_step-Moves (rebuild_received m) dialing p h = stuck h
    place_step-Moves (rebuild_received m) (online since) p h =
        rebuild-Moves since m s.force_rebuild p refl h
    place_step-Moves (rebuild_received _) (broken _) p h = stuck h
    place_step-Moves (rebuild_received m) sleeping p h = stuck h
    place_step-Moves (rebuild_received m) stopped p h = stuck h
    place_step-Moves (rebuild_received m) crashed p h = stuck h
    place_step-Moves shutdown_received resolving p h = stuck h
    place_step-Moves shutdown_received dialing p h = stuck h
    place_step-Moves shutdown_received (online since) p h =
        stop_when-Moves since s.shutdown p refl h
    place_step-Moves shutdown_received (broken _) p h = stuck h
    place_step-Moves shutdown_received sleeping p h = stuck h
    place_step-Moves shutdown_received stopped p h = stuck h
    place_step-Moves shutdown_received crashed p h = stuck h
    place_step-Moves (backed_off now more) resolving p h = stuck h
    place_step-Moves (backed_off now more) dialing p h = stuck h
    place_step-Moves (backed_off now more) (online since) p h = stuck h
    place_step-Moves (backed_off now more) (broken m) p h =
        went (gave_up now more m s.shutdown p refl) h
    place_step-Moves (backed_off now more) sleeping p h = stuck h
    place_step-Moves (backed_off now more) stopped p h = stuck h
    place_step-Moves (backed_off now more) crashed p h = stuck h
    place_step-Moves slept resolving p h = stuck h
    place_step-Moves slept dialing p h = stuck h
    place_step-Moves slept (online since) p h = stuck h
    place_step-Moves slept (broken _) p h = stuck h
    place_step-Moves slept sleeping p h = went (again p) h
    place_step-Moves slept stopped p h = stuck h
    place_step-Moves slept crashed p h = stuck h
    place_step-Moves shutdown_sent place p h = stuck h
    place_step-Moves (setup_failed n) place p h = stuck h

    pub step-Moves : (e : Event) → step service w heartbeat_timeout e s ≡ some r → Moves s e r
    unfolding step
    step-Moves shutdown_sent h = went sent h
    step-Moves (setup_failed n) h = went (noted n) h
    step-Moves (resolved o m) h = place_step-Moves (resolved o m) s.place refl h
    step-Moves (dialed now o m) h = place_step-Moves (dialed now o m) s.place refl h
    step-Moves (command_read now o m) h = place_step-Moves (command_read now o m) s.place refl h
    step-Moves (heartbeat_timed_out now m) h =
        place_step-Moves (heartbeat_timed_out now m) s.place refl h
    step-Moves (rebuild_received m) h = place_step-Moves (rebuild_received m) s.place refl h
    step-Moves shutdown_received h = place_step-Moves shutdown_received s.place refl h
    step-Moves (backed_off now more) h = place_step-Moves (backed_off now more) s.place refl h
    step-Moves slept h = place_step-Moves slept s.place refl h

  -- What a step keeps, about the state and a digest of the events so far, a run keeps.
  pub run-kept :
      {X : Type 0} (P : X → Task → Type 0) (watch : Event → X → X)
      → ((x : X) (s : Task) (e : Event) (r : Task) → P x s → Moves s e r → P (watch e x) r)
      → (es : List Event) (x : X) {s r : Task} → P x s
      → run service w heartbeat_timeout es s ≡ some r
      → P (watched watch es x) r
  unfolding run
  run-kept P watch keep [] x {s} {r} i h = subst (P x) (some-eq h) i
  run-kept P watch keep (e ∷ es) x {s} {r} i h =
      by_step (λ a j q. run-kept P watch keep es (watch e x) {s = a} {r = r} j q)
        (step service w heartbeat_timeout e s) refl h
    where
      by_step :
          ((a : Task)
            → P (watch e x) a
            → run service w heartbeat_timeout es a ≡ some r
            → P (watched watch es (watch e x)) r)
          → (o : Option Task) → step service w heartbeat_timeout e s ≡ o
          → and_then service w heartbeat_timeout o (run service w heartbeat_timeout es) ≡ some r
          → P (watched watch es (watch e x)) r
      by_step later none q h = cc
      by_step later (some a) q h = later a (keep x s e a i (step-Moves {s = s} {r = a} e q)) h
