-- ===== src/Client/Control/Shown.antt =====
-- What the status of src/runtime_status.rs shows of the task of a control channel in src/client.rs.
use rathole_x.Base.{
  ℕ, ◌≡◌, ◌≢◌, ◌⊎◌, inl, inr, refl, ◌∙◌, Bool, true, false, Option, none, some, List, nat_eq, Text,
  text_eq, eq_self,
}
use rathole_x.Base.Dict.{get, get-insert}
use rathole_x.Base.Net.{SocketAddr}
use rathole_x.Config.{ClientServiceConfig}
use rathole_x.Protocol.{Wire, ControlChannelCmd, create_data_channel, heart_beat}
use rathole_x.Status.{
  RuntimeSnapshot, client, ClientSnapshot, ClientControlState, RuntimeEvent, on_client,
  client_retry_entry, write_entry, safe_error, client_connecting, client_resolved, client_connected,
  client_retrying, client_stopped,
}
use rathole_x.Client.{
  unreadable, unexpected_hello, authentication_failed, write_failed, panicked, Outcome, connected,
  failed,
}
use rathole_x.Client.Control.{
  Place, resolving, dialing, online, broken, sleeping, stopped, crashed, Task, Event, broke, obeyed,
  retried, after_failure, after_handshake, run, start,
}
use rathole_x.Client.Control.Moves.{
  Moves, sent, noted, looked_up, not_found, shaken, not_dialed, commanded, not_read, timed_out,
  rebuilt, ended, gave_up, again, run-kept,
}
use mathlib.Core.Path.{subst}

-- What the entry of a service says while its task is at a place.
abbrev pub Matches : Place → ClientSnapshot → Type 0
Matches resolving c = c.state ≡ ClientControlState.connecting
Matches dialing c = (c.state ≡ ClientControlState.connecting) × (c.resolved_control_target ≢ none)
Matches (online _) c =
    (c.state ≡ ClientControlState.connected)
    × (c.last_connected_at_unix_ms ≢ none)
    × (c.last_error ≡ none)
Matches (broken _) c =
    (c.state ≡ ClientControlState.connecting) ⊎ (c.state ≡ ClientControlState.connected)
Matches sleeping c = (c.state ≡ ClientControlState.retrying) × (c.last_error ≢ none)
Matches stopped c = c.state ≡ ClientControlState.stopped
Matches crashed c = Unit

pub record IsShown (name target : Text) (place : Place) (r : RuntimeSnapshot) : Type 0 where
  pub entry : ClientSnapshot
  pub listed : get name r.services ≡ some (client entry)
  pub matches : Matches place entry
  pub same_target : entry.configured_control_target ≡ target

module _ (name target : Text) where
  write-IsShown :
      (place : Place) (c : ClientSnapshot) (r : RuntimeSnapshot)
      → Matches place c
      → c.configured_control_target ≡ target
      → IsShown name target place (write_entry name (client c) r)
  write-IsShown place c r m t = record {
    entry = c;
    listed = get-insert name name (client c) r.services ∙ rw (eq_self name) refl;
    matches = m;
    same_target = t;
  }

  on_client-IsShown :
      {before after : Place} (f : ClientSnapshot → ClientSnapshot) {r : RuntimeSnapshot}
      → ((c : ClientSnapshot)
          → Matches before c
          → Matches after (f c) × ((f c).configured_control_target ≡ c.configured_control_target))
      → IsShown name target before r
      → IsShown name target after (on_client f name r)
  on_client-IsShown {before} {after} f {r} keeps i =
      let (m, t) = keeps i.entry i.matches in
      rw i.listed (write-IsShown after (f i.entry) r m (t ∙ i.same_target))

  moved-IsShown :
      {before after : Place} {r : RuntimeSnapshot}
      → ((c : ClientSnapshot) → Matches before c → Matches after c)
      → IsShown name target before r
      → IsShown name target after r
  moved-IsShown keeps i = record {
    entry = i.entry;
    listed = i.listed;
    matches = keeps i.entry i.matches;
    same_target = i.same_target;
  }

  module _ {before : Place} {r : RuntimeSnapshot} (i : IsShown name target before r) where
    connecting-IsShown : IsShown name target resolving (client_connecting name r)
    unfolding client_connecting
    connecting-IsShown = on_client-IsShown _ (λ c m. (refl, refl)) i

    stopped-IsShown : IsShown name target stopped (client_stopped name r)
    unfolding client_stopped
    stopped-IsShown = on_client-IsShown _ (λ c m. (refl, refl)) i

    connected-IsShown :
        (now since : ℕ) → IsShown name target (online since) (client_connected now name r)
    unfolding client_connected
    connected-IsShown now since = on_client-IsShown _ (λ c m. ((refl, λ h. cc, refl), refl)) i

    crashed-IsShown : IsShown name target crashed r
    crashed-IsShown = moved-IsShown (λ c m. tt) i

  resolved-IsShown :
      (addr : SocketAddr) {r : RuntimeSnapshot}
      → IsShown name target resolving r
      → IsShown name target dialing (client_resolved name addr r)
  unfolding client_resolved
  resolved-IsShown addr i =
      on_client-IsShown {before = resolving} {after = dialing} _ (λ c m. ((m, λ h. cc), refl)) i

abbrev Shows : ClientServiceConfig → Text → Task → Type 0
Shows service target s = IsShown service.name target s.place s.runtime

module _ (service : ClientServiceConfig) (w : Wire) (heartbeat_timeout : ℕ) (target : Text) where
  module _ (s : Task) where
    at_place :
        (place : Place)
        → Shows service target s
        → s.place ≡ place
        → IsShown service.name target place s.runtime
    at_place place i p = subst (λ pl. IsShown service.name target pl s.runtime) p i

    -- A failure at a place where the entry says connecting or connected.
    broke-Shows :
        (m : Text) (place : Place)
        → ((c : ClientSnapshot) → Matches place c → Matches (broken m) c)
        → Shows service target s
        → s.place ≡ place
        → Shows service target (broke m s)
    broke-Shows m place says i p = moved-IsShown service.name target says (at_place place i p)

    retried-Shows :
        (now : ℕ) (m : Text) (place : Place)
        → IsShown service.name target place s.runtime
        → Shows service target (retried service (client_retrying now service.name m s.runtime) s)
    unfolding client_retrying
    retried-Shows now m place i = rw i.listed (by_event (safe_error now m))
      where
        by_event :
            (o : Option RuntimeEvent)
            → Shows service target (
                retried service
                  (client_retry_entry service.name s.runtime (some (client i.entry)) o)
                  s)
        by_event none = crashed-IsShown service.name target i
        by_event (some e) =
            write-IsShown service.name target sleeping
              (record i.entry { state = ClientControlState.retrying; last_error = some e })
              s.runtime (refl, λ h. cc) i.same_target

    failure-Shows :
        (now : ℕ) (b more : Bool) (m : Text)
        → Shows service target s
        → Shows service target (after_failure service now b more m s)
    failure-Shows now true more m i = stopped-IsShown service.name target i
    failure-Shows now false false m i = stopped-IsShown service.name target i
    failure-Shows now false true m i = retried-Shows now m s.place i

    handshake-Shows :
        (now : ℕ) (m : Text) (o : Outcome Text)
        → Shows service target s
        → s.place ≡ dialing
        → Shows service target (after_handshake service now m o s)
    handshake-Shows now m (connected _ _) i p = connected-IsShown service.name target i now now
    handshake-Shows now m (failed panicked) i p = crashed-IsShown service.name target i
    handshake-Shows now m (failed (unreadable _)) i p = broke-Shows m dialing (λ c h. inl h.0) i p
    handshake-Shows now m (failed unexpected_hello) i p = broke-Shows m dialing (λ c h. inl h.0) i p
    handshake-Shows now m (failed (authentication_failed _)) i p =
        broke-Shows m dialing (λ c h. inl h.0) i p
    handshake-Shows now m (failed write_failed) i p = broke-Shows m dialing (λ c h. inl h.0) i p

    obeyed-Shows :
        (now since : ℕ) (cmd : ControlChannelCmd)
        → Shows service target s
        → s.place ≡ online since
        → Shows service target (obeyed now cmd s)
    obeyed-Shows now since create_data_channel i p =
        moved-IsShown service.name target (λ c h. h) (at_place (online since) i p)
    obeyed-Shows now since heart_beat i p =
        moved-IsShown service.name target (λ c h. h) (at_place (online since) i p)

  step-Shows :
      (x : Unit {0}) (s : Task) (e : Event) (r : Task)
      → Shows service target s
      → Moves service w heartbeat_timeout s e r
      → Shows service target r
  step-Shows x s e r i sent = i
  step-Shows x s e r i (noted n) = i
  step-Shows x s e r i (looked_up addr m p) =
      resolved-IsShown service.name target addr (at_place s resolving i p)
  step-Shows x s e r i (not_found m p) = broke-Shows s m resolving (λ c h. inl h) i p
  step-Shows x s e r i (shaken now conn m o p) = handshake-Shows s now m o i p
  step-Shows x s e r i (not_dialed now m p) = broke-Shows s m dialing (λ c h. inl h.0) i p
  step-Shows x s e r i (commanded now since cmd m p) = obeyed-Shows s now since cmd i p
  step-Shows x s e r i (not_read now since m p) =
      broke-Shows s m (online since) (λ c h. inr h.0) i p
  step-Shows x s e r i (timed_out now since m p q) =
      broke-Shows s m (online since) (λ c h. inr h.0) i p
  step-Shows x s e r i (rebuilt since n m p q) =
      moved-IsShown service.name target {after = broken m} (λ c h. inr h.0)
        (at_place s (online since) i p)
  step-Shows x s e r i (ended since p q) = stopped-IsShown service.name target i
  step-Shows x s e r i (gave_up now more m b p q) = failure-Shows s now b more m i
  step-Shows x s e r i (again p) = connecting-IsShown service.name target i

  -- While only its own task writes it, the entry of a client's service says what the task does: it is
  -- connecting until the handshake is done, connected with a time and no error in the loop, retrying
  -- with an error in the sleep of the back-off, and stopped behind the loop; and it keeps its target.
  pub run-Shows :
      (es : List Event) (before : RuntimeSnapshot) (c : ClientSnapshot) (r : Task)
      → get service.name before.services ≡ some (client c)
      → c.configured_control_target ≡ target
      → run service w heartbeat_timeout es (start service before) ≡ some r
      → IsShown service.name target r.place r.runtime
  run-Shows es before c r listed same h =
      run-kept service w heartbeat_timeout (λ _ s. Shows service target s) (λ _ x. x) step-Shows es
        tt {s = start service before} {r = r}
        (connecting-IsShown service.name target {before = crashed}
          (record { entry = c; listed = listed; matches = tt; same_target = same }))
        h
