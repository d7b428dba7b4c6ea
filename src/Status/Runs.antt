-- ===== src/Status/Runs.antt =====
-- Sequences of calls of the operations of src/runtime_status.rs.
use mathlib.Core.Path.{subst}
use rathole_x.Base.{
  ℕ, zero, suc, ◌≡◌, refl, ◌≢◌, inl, inr, false, Option, none, some, List, [], ◌∷◌, arith, nat_eq,
  text_eq, Text, ◌==◌, All, Bool-cases,
}
use rathole_x.Base.Dict.{get, get-insert}
use rathole_x.Base.Net.{SocketAddr}
use rathole_x.Status.{
  RuntimeRole, client_role, server_role, RuntimeEvent, RuntimeServiceSnapshot, client, server,
  RuntimeSnapshot, safe_error, new_client, ServerListenerSnapshot, new_server, collect,
  client_registry, server_registry, server_listener_error, client_retrying, server_disconnected,
  detail_event, listener_failed, disconnected_entry, client_retry_entry, owns,
}
use rathole_x.Status.Invariant.{
  Op, listener_pending, listener_listening, listener_error, listener_stopped, add_client,
  add_server, remove_op, connecting_op, resolved_op, client_connected_op, retrying_op, stopped_op,
  server_connected_op, disconnected_op, step, continue, run, EntryOk, IsCoherent, Fits,
}
use rathole_x.Status.{truncate, truncate_at, continues, event_of}
use rathole_x.Status.Steps.{some-inj, step-IsCoherent}
use rathole_x.Base.{take, drop, ◌<◌, ◌≤◌, ◌⊎◌, length}

run-IsCoherent :
    {role : RuntimeRole} (ops : List Op) {r r' : RuntimeSnapshot}
    → IsCoherent role r
    → All (Fits role) ops
    → run ops r ≡ some r'
    → IsCoherent role r'
unfolding run
run-IsCoherent [] i fits h = subst (IsCoherent _) (some-inj h) i
run-IsCoherent {role} (op ∷ ops) {r} {r'} i fits h =
    by_step (λ s q h. run-IsCoherent ops (step-IsCoherent i op fits.0 q) fits.1 h) (step op r) refl
      h
  where
    by_step :
        ((s : RuntimeSnapshot) → step op r ≡ some s → run ops s ≡ some r' → IsCoherent role r')
        → (o : Option RuntimeSnapshot) → step op r ≡ o
        → continue o (run ops) ≡ some r'
        → IsCoherent role r'
    by_step later none q h = cc
    by_step later (some s) q h = later s q h

collect-entries :
    (role : RuntimeRole) (fresh : RuntimeServiceSnapshot) (names : List Text)
    → EntryOk role (some fresh)
    → (name : Text) → EntryOk role (get name (collect fresh names))
unfolding collect get
collect-entries role fresh [] ok name = tt
collect-entries role fresh (n ∷ names) ok name = elim (Bool-cases (n == name)) [
  | inl h ↦ rw (get-insert n name fresh (collect fresh names), h) ok
  | inr h ↦
      rw (get-insert n name fresh (collect fresh names), h)
        (collect-entries role fresh names ok name)
]

-- However the tasks of a server call the registry, from the registry of its services on: every entry
-- is a server's, a waiting one has no source and no time of connection, a connected one has both and
-- no error, none is stopped, and each diagnostic, the listener's too, is at most 512 bytes long.
pub run-server_registry :
    (version pid now : ℕ) (names : List Text) (ops : List Op) (r : RuntimeSnapshot)
    → All (Fits server_role) ops
    → run ops (server_registry version pid now names) ≡ some r
    → IsCoherent server_role r
unfolding server_registry
run-server_registry version pid now names ops r fits h =
    run-IsCoherent ops
      (record {
        same_role = refl;
        listener = tt;
        entries = collect-entries server_role new_server names ((refl, refl), tt);
      })
      fits h

-- However the tasks of a client call the registry, from the registry of its services on: every entry
-- is a client's, a connected one has a time of connection and no error, a retrying one has an error,
-- and each diagnostic is at most 512 bytes long.
pub run-client_registry :
    (version pid now : ℕ) (target : Text) (names : List Text) (ops : List Op) (r : RuntimeSnapshot)
    → All (Fits client_role) ops
    → run ops (client_registry version pid now target names) ≡ some r
    → IsCoherent client_role r
unfolding client_registry
run-client_registry version pid now target names ops r fits h =
    run-IsCoherent ops
      (record {
        same_role = refl;
        listener = tt;
        entries = collect-entries client_role (new_client target) names (tt, tt);
      })
      fits h

-- A message that is ASCII, or at most 512 bytes long.
abbrev pub IsPlain : Text → Type 0
IsPlain m = All (λ b. b < 128) m ⊎ (length m ≤ 512)

abbrev pub PlainOp : Op → Type 0
PlainOp (listener_error now m) = IsPlain m
PlainOp (retrying_op now name m) = IsPlain m
PlainOp (disconnected_op now name source since (some m)) = IsPlain m
PlainOp _ = Unit

-- An ASCII message can be cut.
truncate-ascii : (n : ℕ) (m : Text) → All (λ b. b < 128) m → truncate n m ≢ none
unfolding truncate
truncate-ascii n m a = by_rest (take n m) n m a
  where
    by_rest :
        (start : Text) (n : ℕ) (rest : Text)
        → All (λ b. b < 128) rest
        → truncate_at m start (drop n rest) ≢ none
    by_rest start zero [] a h = cc
    by_rest start zero (b ∷ rest) a h =
        let low : continues b ≡ false = ground (arith, a.0) in
        let bad : some start ≡ none = rw low at h in cc
    by_rest start (suc n) [] a h = cc
    by_rest start (suc n) (b ∷ rest) a h = by_rest start n rest a.1 h

-- A text that is no longer than the bound is kept.
truncate-short : (n : ℕ) (m : Text) → length m ≤ n → truncate n m ≢ none
unfolding truncate
truncate-short n m s = by_rest (take n m) n m s
  where
    by_rest :
        (start : Text) (n : ℕ) (rest : Text)
        → length rest ≤ n
        → truncate_at m start (drop n rest) ≢ none
    by_rest start zero [] s h = cc
    by_rest start zero (b ∷ rest) s h = omega (arith, s)
    by_rest start (suc n) [] s h = cc
    by_rest start (suc n) (b ∷ rest) s h = by_rest start n rest (omega (arith, s)) h

abbrev Goes : {A : Type 0} → Option A → Type 0
Goes {A} o = (a : A) × (o ≡ some a)

truncate-plain : (m : Text) → IsPlain m → truncate 512 m ≢ none
truncate-plain m (inl a) = truncate-ascii 512 m a
truncate-plain m (inr s) = truncate-short 512 m s

safe_error-Goes : (now : ℕ) (m : Text) → IsPlain m → Goes (safe_error now m)
unfolding safe_error
safe_error-Goes now m c = by_cut (truncate 512 m) (truncate-plain m c)
  where
    by_cut : (o : Option Text) → o ≢ none → Goes (event_of now o)
    by_cut none c = absurd (c refl)
    by_cut (some t) c = (_, refl)

detail-Goes :
    (now : ℕ) (detail : Option Text) (name : Text) (source : SocketAddr) (since : ℕ)
    → PlainOp (disconnected_op now name source since detail)
    → Goes (detail_event now detail)
detail-Goes now none name source since c = (_, refl)
detail-Goes now (some m) name source since c =
    let (e, p) = safe_error-Goes now m c in (some e, rw p)

step-Goes : (op : Op) (r : RuntimeSnapshot) → PlainOp op → Goes (step op r)
unfolding step server_listener_error client_retrying server_disconnected
step-Goes listener_pending r c = (_, refl)
step-Goes listener_listening r c = (_, refl)
step-Goes (listener_error now m) r c =
    let (e, p) = safe_error-Goes now m c in rw p (failed r.server_listener e)
  where
    failed :
        (l : Option ServerListenerSnapshot) (e : RuntimeEvent) → Goes (listener_failed r l (some e))
    failed none e = (_, refl)
    failed (some l) e = (_, refl)
step-Goes listener_stopped r c = (_, refl)
step-Goes (add_client name target) r c = (_, refl)
step-Goes (add_server name) r c = (_, refl)
step-Goes (remove_op name) r c = (_, refl)
step-Goes (connecting_op name) r c = (_, refl)
step-Goes (resolved_op name addr) r c = (_, refl)
step-Goes (client_connected_op now name) r c = (_, refl)
step-Goes (retrying_op now name m) r c =
    let (e, p) = safe_error-Goes now m c in rw p (retried (get name r.services) e)
  where
    retried :
        (o : Option RuntimeServiceSnapshot) (e : RuntimeEvent)
        → Goes (client_retry_entry name r o (some e))
    retried none e = (_, refl)
    retried (some (server _)) e = (_, refl)
    retried (some (client _)) e = (_, refl)
step-Goes (stopped_op name) r c = (_, refl)
step-Goes (server_connected_op now name source) r c = (_, refl)
step-Goes (disconnected_op now name source since detail) r c =
    let (e, p) = detail-Goes now detail name source since c in
    rw p (released (get name r.services) e)
  where
    released :
        (o : Option RuntimeServiceSnapshot) (e : Option RuntimeEvent)
        → Goes (disconnected_entry name source since (some e) r o)
    released none e = (_, refl)
    released (some (client _)) e = (_, refl)
    released (some (server s)) e = elim (Bool-cases (owns source since s)) [
      | inl h ↦ rw h (_, refl)
      | inr h ↦ rw h (_, refl)
    ]

-- No sequence of calls panics when each message that it reports is ASCII or at most 512 bytes long.
pub run-total :
    (ops : List Op) (r : RuntimeSnapshot)
    → All PlainOp ops
    → (s : RuntimeSnapshot) × (run ops r ≡ some s)
unfolding run
run-total [] r c = (r, refl)
run-total (op ∷ ops) r c =
    let (s, p) = step-Goes op r c.0 in let (t, q) = run-total ops s c.1 in (t, rw (p, q))
