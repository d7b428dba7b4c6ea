-- ===== src/Client/Control/Heartbeat.antt =====
-- The heartbeat timeout of a control channel in src/client.rs.
use rathole_x.Base.{
  ℕ, ◌+◌, ◌≤◌, ◌≡◌, ◌≢◌, ◌↔◌, inl, inr, refl, Bool, true, false, Option, none, some, List, nat_eq,
  Text, text_eq, if◌then◌else◌, arith, leb, ==-cases,
}
use rathole_x.Config.{ClientServiceConfig}
use rathole_x.Protocol.{Wire, create_data_channel, heart_beat}
use rathole_x.Status.{RuntimeSnapshot, client_retrying}
use rathole_x.Client.{
  unreadable, unexpected_hello, authentication_failed, write_failed, panicked, Outcome, connected,
  failed,
}
use rathole_x.Client.Control.{
  Place, resolving, dialing, online, broken, sleeping, stopped, crashed, Task, Event, shutdown_sent,
  setup_failed, resolved, dialed, command_read, heartbeat_timed_out, rebuild_received,
  shutdown_received, backed_off, slept, broke, retried, after_failure, after_handshake, timer_fired,
  step, run, start,
}
use rathole_x.Client.Control.Moves.{
  watched, Moves, sent, noted, looked_up, not_found, shaken, not_dialed, commanded, not_read,
  timed_out, rebuilt, ended, gave_up, again, run-kept,
}
use mathlib.Core.Path.{subst}

-- The time at which the task last heard of the server: the end of its handshake, or a command.
abbrev pub hear : Event → ℕ → ℕ
hear (dialed now (some _) _) t = now
hear (dialed _ none _) t = t
hear (command_read now (some _) _) t = now
hear (command_read _ none _) t = t
hear shutdown_sent t = t
hear slept t = t
hear (backed_off _ _) t = t
hear (setup_failed _) t = t
hear (resolved _ _) t = t
hear (heartbeat_timed_out _ _) t = t
hear (rebuild_received _) t = t
hear shutdown_received t = t

abbrev pub last_heard : List Event → ℕ
last_heard es = watched hear es 0

abbrev SinceOk : ℕ → Place → Type 0
SinceOk t (online since) = since ≡ t
SinceOk t resolving = Unit
SinceOk t dialing = Unit
SinceOk t (broken _) = Unit
SinceOk t sleeping = Unit
SinceOk t stopped = Unit
SinceOk t crashed = Unit

module _ (service : ClientServiceConfig) (w : Wire) (heartbeat_timeout : ℕ) where
  handshake-SinceOk :
      (now : ℕ) (m : Text) (o : Outcome Text) (s : Task)
      → SinceOk now (after_handshake service now m o s).place
  handshake-SinceOk now m (connected _ _) s = refl
  handshake-SinceOk now m (failed panicked) s = tt
  handshake-SinceOk now m (failed (unreadable _)) s = tt
  handshake-SinceOk now m (failed unexpected_hello) s = tt
  handshake-SinceOk now m (failed (authentication_failed _)) s = tt
  handshake-SinceOk now m (failed write_failed) s = tt

  failure-SinceOk :
      (now t : ℕ) (b more : Bool) (m : Text) (s : Task)
      → SinceOk t (after_failure service now b more m s).place
  failure-SinceOk now t true more m s = tt
  failure-SinceOk now t false false m s = tt
  failure-SinceOk now t false true m s = by_report (client_retrying now service.name m s.runtime)
    where
      by_report : (o : Option RuntimeSnapshot) → SinceOk t (retried service o s).place
      by_report none = tt
      by_report (some _) = tt

  step-SinceOk :
      (t : ℕ) (s : Task) (e : Event) (r : Task)
      → SinceOk t s.place
      → Moves service w heartbeat_timeout s e r
      → SinceOk (hear e t) r.place
  step-SinceOk t s e r i sent = i
  step-SinceOk t s e r i (noted n) = i
  step-SinceOk t s e r i (looked_up addr m p) = tt
  step-SinceOk t s e r i (not_found m p) = tt
  step-SinceOk t s e r i (shaken now conn m o p) = handshake-SinceOk now m o s
  step-SinceOk t s e r i (not_dialed now m p) = tt
  step-SinceOk t s e r i (commanded now since create_data_channel m p) = refl
  step-SinceOk t s e r i (commanded now since heart_beat m p) = refl
  step-SinceOk t s e r i (not_read now since m p) = tt
  step-SinceOk t s e r i (timed_out now since m p q) = tt
  step-SinceOk t s e r i (rebuilt since n m p q) = tt
  step-SinceOk t s e r i (ended since p q) = tt
  step-SinceOk t s e r i (gave_up now more m b p q) = failure-SinceOk now t b more m s
  step-SinceOk t s e r i (again p) = tt

  timer_fired_iff :
      (since now : ℕ)
      → ((heartbeat_timeout ≢ 0) × (since + heartbeat_timeout ≤ now))
        ↔ (timer_fired service w heartbeat_timeout since now ≡ true)
  timer_fired_iff since now = elim (==-cases heartbeat_timeout 0) [
    | inl (t, z) ↦ (λ h. absurd (h.0 z), λ h. let bad : false ≡ true = rw t at h in cc)
    | inr (t, nz) ↦ (
      λ h. rw t (ground (arith, h.1)),
      λ h.
          let late : leb (since + heartbeat_timeout) now ≡ true = rw t at h in
          (nz, ground (arith, late)),
    )
  ]

  broke-when :
      (b : Bool) (m : Text) (r : Task)
      → (b ≡ true) ↔ ((if b then some (broke m r) else none) ≡ some (broke m r))
  broke-when true m r = (λ _. refl, λ _. refl)
  broke-when false m r = (λ h. cc, λ h. cc)

  -- An established control channel gives up its connection for want of a heartbeat at exactly the
  -- times that are at least the heartbeat timeout after the server was last heard of, by a command or
  -- the handshake, and never if the timeout is 0.
  pub run-heartbeat :
      (es : List Event) (before : RuntimeSnapshot) (r : Task) (since now : ℕ) (m : Text)
      → run service w heartbeat_timeout es (start service before) ≡ some r
      → r.place ≡ online since
      → ((heartbeat_timeout ≢ 0) × (last_heard es + heartbeat_timeout ≤ now))
        ↔ (step service w heartbeat_timeout (heartbeat_timed_out now m) r ≡ some (broke m r))
  unfolding step
  run-heartbeat es before r since now m h p =
      let heard : since ≡ last_heard es = subst (SinceOk (last_heard es)) p (
        run-kept service w heartbeat_timeout (λ t s. SinceOk t s.place) hear step-SinceOk es 0
          {s = start service before} {r = r} tt h) in
      let fires = timer_fired_iff since now in
      let breaks = broke-when (timer_fired service w heartbeat_timeout since now) m r in
      (
        λ x. rw p (breaks.0 (fires.0 (rw heard x))),
        λ x. rw (← heard) (fires.1 (breaks.1 (rw p at x))),
      )
