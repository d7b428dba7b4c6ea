-- ===== src/Client/Control/Shutdown.antt =====
-- How the task of a control channel in src/client.rs ends.
use rathole_x.Base.{
  ℕ, suc, ◌≤◌, ◌≡◌, refl, sym, ◌∙◌, Bool, true, false, not, ◌||◌, Option, none, some, List, nat_eq,
  Text, text_eq, if◌then◌else◌, arith,
}
use rathole_x.Config.{ClientServiceConfig}
use rathole_x.Protocol.{Wire, ControlChannelCmd, create_data_channel, heart_beat}
use rathole_x.Status.{RuntimeSnapshot, client_retrying}
use rathole_x.Client.{
  unreadable, unexpected_hello, authentication_failed, write_failed, panicked, Outcome, connected,
  failed,
}
use rathole_x.Client.Control.{
  Place, resolving, dialing, online, broken, sleeping, stopped, crashed, Task, Event, backed_off,
  slept, obeyed, begin_run, stop, retried, after_failure, after_handshake, run, start,
}
use rathole_x.Client.Control.Moves.{
  Moves, sent, noted, looked_up, not_found, shaken, not_dialed, commanded, not_read, timed_out,
  rebuilt, ended, gave_up, again, run-kept,
}
use mathlib.Core.Path.{subst}
use rathole_x.Client.Control.Orderly.{
  Seen, see, seen, LateOk, EndOk, IsOrderly, late-most, Awake, late-Awake, over-Awake,
}

module _ (service : ClientServiceConfig) (w : Wire) (heartbeat_timeout : ℕ) where
  module _ {x : Seen} {s : Task} (i : IsOrderly x s) where
    awake : {r : Task} → r.shutdown ≡ s.shutdown → Awake r.place → IsOrderly x r
    awake {r} same a = record {
      agree = same ∙ i.agree;
      late = late-Awake x.shut s.place r.place x.late_attempts a i.late;
      over = over-Awake r.place x a;
    }

    stopped-IsOrderly : (x.shut || x.exhausted) ≡ true → IsOrderly x (stop service s)
    stopped-IsOrderly e = record { agree = i.agree; late = at_end x.shut i.late; over = e }
      where
        at_end : (b : Bool) → LateOk b s.place x.late_attempts → LateOk b stopped x.late_attempts
        at_end true h = late-most true s.place x.late_attempts h
        at_end false h = h

    handshake-awake :
        (now : ℕ) (m : Text) (o : Outcome Text) → IsOrderly x (after_handshake service now m o s)
    handshake-awake now m (connected _ _) = awake refl tt
    handshake-awake now m (failed panicked) = awake refl tt
    handshake-awake now m (failed (unreadable _)) = awake refl tt
    handshake-awake now m (failed unexpected_hello) = awake refl tt
    handshake-awake now m (failed (authentication_failed _)) = awake refl tt
    handshake-awake now m (failed write_failed) = awake refl tt

    obeyed-awake : (now : ℕ) (cmd : ControlChannelCmd) → IsOrderly x (obeyed now cmd s)
    obeyed-awake now create_data_channel = awake refl tt
    obeyed-awake now heart_beat = awake refl tt

    sent-IsOrderly : IsOrderly (record x { shut = true }) (record s { shutdown = true })
    sent-IsOrderly = record {
      agree = refl;
      late = by_shut x.shut i.late;
      over = by_place s.place i.over;
    }
      where
        by_shut :
            (b : Bool) → LateOk b s.place x.late_attempts → LateOk true s.place x.late_attempts
        by_shut true h = h
        by_shut false h = any s.place
          where
            any : (place : Place) → LateOk true place x.late_attempts
            any sleeping = h
            any resolving = omega (arith, h)
            any dialing = omega (arith, h)
            any (online _) = omega (arith, h)
            any (broken _) = omega (arith, h)
            any stopped = omega (arith, h)
            any crashed = omega (arith, h)

        by_place : (place : Place) → EndOk place x → EndOk place (record x { shut = true })
        by_place stopped h = refl
        by_place resolving h = tt
        by_place dialing h = tt
        by_place (online _) h = tt
        by_place (broken _) h = tt
        by_place sleeping h = tt
        by_place crashed h = tt

    again-IsOrderly : s.place ≡ sleeping → IsOrderly (see slept x) (begin_run service s)
    again-IsOrderly p = record {
      agree = i.agree;
      late = by_shut x.shut (subst (λ pl. LateOk x.shut pl x.late_attempts) p i.late);
      over = tt;
    }
      where
        by_shut :
            (b : Bool)
            → LateOk b sleeping x.late_attempts
            → LateOk b resolving (if b then suc x.late_attempts else x.late_attempts)
        by_shut true h = omega (arith, h)
        by_shut false h = h

  or_true : (b : Bool) → (b || true) ≡ true
  or_true true = refl
  or_true false = refl

  failure-IsOrderly :
      (now : ℕ) (b more : Bool) (m : Text) {x : Seen} {s : Task}
      → IsOrderly x s
      → s.shutdown ≡ b
      → IsOrderly (see (backed_off now more) x) (after_failure service now b more m s)
  failure-IsOrderly now b more m {x} {s} i q = by_case b more q
    where
      weaker : (more : Bool) → IsOrderly (see (backed_off now more) x) s
      weaker more = record { agree = i.agree; late = i.late; over = by_place s.place i.over }
        where
          kept : (a b c : Bool) → (a || b) ≡ true → (a || (b || c)) ≡ true
          kept true b c h = refl
          kept false true c h = refl
          kept false false c h = cc

          by_place : (place : Place) → EndOk place x → EndOk place (see (backed_off now more) x)
          by_place stopped h = kept x.shut x.exhausted (not more) h
          by_place resolving h = tt
          by_place dialing h = tt
          by_place (online _) h = tt
          by_place (broken _) h = tt
          by_place sleeping h = tt
          by_place crashed h = tt

      by_report :
          s.shutdown ≡ false
          → (o : Option RuntimeSnapshot)
          → IsOrderly (see (backed_off now true) x) (retried service o s)
      by_report q none = awake (weaker true) refl tt
      by_report q (some r) =
          let open_yet : false ≡ x.shut = sym q ∙ i.agree in
          record {
            agree = i.agree;
            late =
                subst (λ b. LateOk b sleeping x.late_attempts) open_yet
                  (none_late x.shut (sym open_yet) i.late);
            over = tt;
          }
        where
          none_late :
              (b : Bool) → b ≡ false → LateOk b s.place x.late_attempts → x.late_attempts ≡ 0
          none_late false e h = h
          none_late true e h = cc

      by_case :
          (b more : Bool)
          → s.shutdown ≡ b
          → IsOrderly (see (backed_off now more) x) (after_failure service now b more m s)
      by_case true more q =
          let shut : x.shut ≡ true = sym i.agree ∙ q in
          stopped-IsOrderly (weaker more) (rw shut refl)
      by_case false false q =
          stopped-IsOrderly (weaker false) (rw (or_true x.exhausted, or_true x.shut) refl)
      by_case false true q = by_report q (client_retrying now service.name m s.runtime)

  step-IsOrderly :
      (x : Seen) (s : Task) (e : Event) (r : Task)
      → IsOrderly x s
      → Moves service w heartbeat_timeout s e r
      → IsOrderly (see e x) r
  step-IsOrderly x s e r i sent = sent-IsOrderly i
  step-IsOrderly x s e r i (noted n) = record { agree = i.agree; late = i.late; over = i.over }
  step-IsOrderly x s e r i (looked_up addr m p) = awake i refl tt
  step-IsOrderly x s e r i (not_found m p) = awake i refl tt
  step-IsOrderly x s e r i (shaken now conn m o p) = handshake-awake i now m o
  step-IsOrderly x s e r i (not_dialed now m p) = awake i refl tt
  step-IsOrderly x s e r i (commanded now since cmd m p) = obeyed-awake i now cmd
  step-IsOrderly x s e r i (not_read now since m p) = awake i refl tt
  step-IsOrderly x s e r i (timed_out now since m p q) = awake i refl tt
  step-IsOrderly x s e r i (rebuilt since n m p q) = awake i refl tt
  step-IsOrderly x s e r i (ended since p q) =
      let shut : x.shut ≡ true = sym i.agree ∙ q in stopped-IsOrderly i (rw shut refl)
  step-IsOrderly x s e r i (gave_up now more m b p q) = failure-IsOrderly now b more m i q
  step-IsOrderly x s e r i (again p) = again-IsOrderly i p

  -- However the task of a control channel runs, it ends only after a shutdown or when the back-off
  -- gives up, and after a shutdown it begins at most one more attempt to connect.
  pub run-shutdown :
      (es : List Event) (before : RuntimeSnapshot) (r : Task)
      → run service w heartbeat_timeout es (start service before) ≡ some r
      → EndOk r.place (seen es) × ((seen es).late_attempts ≤ 1)
  run-shutdown es before r h =
      let i =
        run-kept service w heartbeat_timeout IsOrderly see step-IsOrderly es _
          {s = start service before} {r = r} (record { agree = refl; late = refl; over = tt }) h in
      (i.over, late-most (seen es).shut r.place (seen es).late_attempts i.late)
