-- ===== src/Status/Owner.antt =====
-- The channel that owns a service's entry of src/runtime_status.rs keeps it: what `server_disconnected`
-- of a superseded task is for.
use mathlib.Core.Path.{subst}
use rathole_x.Base.{
  ℕ, ◌≡◌, refl, sym, ◌≢◌, ◌⊎◌, inl, inr, false, Option, none, some, List, [], ◌∷◌, nat_eq, text_eq,
  Text, eq_self, ◌==◌, ==-cases, All, Bool-cases,
}
use rathole_x.Base.Dict.{get, remove, get-insert, get-remove}
use rathole_x.Base.Net.{SocketAddr, socket_addr_eq}
use rathole_x.Status.{
  ServerControlState, RuntimeEvent, ClientSnapshot, ServerSnapshot, RuntimeServiceSnapshot, client,
  server, RuntimeSnapshot, safe_error, ServerListenerSnapshot, server_listener_pending,
  server_listener_listening, server_listener_error, server_listener_stopped, client_add, server_add,
  remove_service, client_connecting, client_resolved, client_connected, client_retrying,
  client_stopped, server_connected, server_disconnected, detail_event, listener_failed, write_entry,
  released_entry, disconnected_entry, client_retry_entry, on_client, client_entry, connected_entry,
  owns,
}
use rathole_x.Status.Invariant.{
  Op, listener_pending, listener_listening, listener_error, listener_stopped, add_client,
  add_server, remove_op, connecting_op, resolved_op, client_connected_op, retrying_op, stopped_op,
  server_connected_op, disconnected_op, step, continue, run,
}
use rathole_x.Status.Steps.{some-inj}

-- A call that does not concern the channel of `source` that connected at `since`: it is about
-- another service, or it is the disconnection of another channel.
abbrev pub LeavesAlone : Text → SocketAddr → ℕ → Op → Type 0
LeavesAlone name source since (add_client n _) = n ≢ name
LeavesAlone name source since (add_server n) = n ≢ name
LeavesAlone name source since (remove_op n) = n ≢ name
LeavesAlone name source since (server_connected_op _ n _) = n ≢ name
LeavesAlone name source since (disconnected_op _ n a t _) =
    (n ≢ name) ⊎ ((a ≢ source) ⊎ (t ≢ since))
LeavesAlone name source since _ = Unit

abbrev pub connected_snapshot : SocketAddr → ℕ → ServerSnapshot
connected_snapshot source since = record {
  state = ServerControlState.connected;
  control_channel_source = some source;
  connected_since_unix_ms = some since;
  last_disconnected_or_error = none;
}

abbrev pub waiting_snapshot : ServerSnapshot
waiting_snapshot = record {
  state = ServerControlState.waiting;
  control_channel_source = none;
  connected_since_unix_ms = none;
  last_disconnected_or_error = none;
}

module _ (name : Text) (source : SocketAddr) (since : ℕ) where
  abbrev Owned : RuntimeSnapshot → Type 0
  Owned r = get name r.services ≡ some (server (connected_snapshot source since))

  keep-eq : {r r' : RuntimeSnapshot} → Owned r → some r ≡ some r' → Owned r'
  keep-eq o h = subst Owned (some-inj h) o

  write-other :
      (n : Text) (entry : RuntimeServiceSnapshot) (r : RuntimeSnapshot)
      → n ≢ name
      → Owned r
      → Owned (write_entry n entry r)
  write-other n entry r d o = elim (==-cases n name) [
    | inl h ↦ absurd (d h.1)
    | inr h ↦ rw (get-insert n name entry r.services, h.0) o
  ]

  remove-other :
      (n : Text) (r : RuntimeSnapshot)
      → n ≢ name
      → Owned r
      → get name (remove n r.services) ≡ get name r.services
  remove-other n r d o = elim (==-cases n name) [
    | inl h ↦ absurd (d h.1)
    | inr h ↦ rw (get-remove n name r.services, h.0)
  ]

  on_client-Owned :
      (f : ClientSnapshot → ClientSnapshot) (n : Text) (r : RuntimeSnapshot)
      → Owned r
      → Owned (on_client f n r)
  on_client-Owned f n r o = by_entry (get n r.services) refl
    where
      by_entry :
          (e : Option RuntimeServiceSnapshot) → get n r.services ≡ e → Owned (client_entry f n r e)
      by_entry none q = o
      by_entry (some (server _)) q = o
      by_entry (some (client c)) q =
          write-other n (client (f c)) r
            (λ same. let p : get name r.services ≡ some (client c) = rw (← same) q in cc) o

  retry-Owned :
      (n : Text) (event : Option RuntimeEvent) (r : RuntimeSnapshot) {r' : RuntimeSnapshot}
      → Owned r
      → client_retry_entry n r (get n r.services) event ≡ some r'
      → Owned r'
  retry-Owned n event r {r'} o h = by_entry (get n r.services) refl event h
    where
      by_entry :
          (e : Option RuntimeServiceSnapshot)
          → get n r.services ≡ e
          → (event : Option RuntimeEvent) → client_retry_entry n r e event ≡ some r'
          → Owned r'
      by_entry none q event h = keep-eq o h
      by_entry (some (server _)) q event h = keep-eq o h
      by_entry (some (client c)) q none h = cc
      by_entry (some (client c)) q (some e) h =
          keep-eq
            (write-other n _ r
              (λ same. let p : get name r.services ≡ some (client c) = rw (← same) q in cc) o)
            h

  connected-other :
      (now : ℕ) (n : Text) (a : SocketAddr) (r : RuntimeSnapshot)
      → n ≢ name
      → Owned r
      → Owned ((server_connected now n a r).1)
  unfolding server_connected
  connected-other now n a r d o = by_entry (get n r.services)
    where
      by_entry : (e : Option RuntimeServiceSnapshot) → Owned ((connected_entry now n a r e).1)
      by_entry none = o
      by_entry (some (client _)) = o
      by_entry (some (server s)) = write-other n _ r d o

  failed-Owned :
      (r : RuntimeSnapshot) (l : Option ServerListenerSnapshot) (e : Option RuntimeEvent)
      {r' : RuntimeSnapshot}
      → Owned r
      → listener_failed r l e ≡ some r'
      → Owned r'
  failed-Owned r none e o h = keep-eq o h
  failed-Owned r (some l) none o h = cc
  failed-Owned r (some l) (some e) o h = keep-eq {r = record r { server_listener = _ }} o h

  disconnected-other :
      (now : ℕ) (n : Text) (a : SocketAddr) (t : ℕ) (detail : Option Text) (r : RuntimeSnapshot)
      {r' : RuntimeSnapshot}
      → (n ≢ name) ⊎ ((a ≢ source) ⊎ (t ≢ since))
      → Owned r
      → server_disconnected now n a t detail r ≡ some r'
      → Owned r'
  unfolding server_disconnected
  disconnected-other now n a t detail r {r'} alone o h = by_entry (get n r.services) refl h
    where
      released :
          (e : Option (Option RuntimeEvent)) → n ≢ name → released_entry n r e ≡ some r' → Owned r'
      released none d h = cc
      released (some e) d h = keep-eq (write-other n _ r d o) h

      refused : n ≡ name → owns a t (connected_snapshot source since) ≡ false
      refused same = elim alone [
        | inl d ↦ absurd (d same)
        | inr (inl d) ↦ elim (==-cases source a) [
          | inl (_, q) ↦ absurd (d (sym q))
          | inr (q, _) ↦ rw q refl
        ]
        | inr (inr d) ↦ elim (==-cases since t) [
          | inl (_, q) ↦ absurd (d (sym q))
          | inr (q, _) ↦ elim (Bool-cases (source == a)) [
            | inl w ↦ rw (w, q) refl
            | inr w ↦ rw w refl
          ]
        ]
      ]

      by_entry :
          (e : Option RuntimeServiceSnapshot)
          → get n r.services ≡ e
          → disconnected_entry n a t (detail_event now detail) r e ≡ some r'
          → Owned r'
      by_entry none q h = keep-eq o h
      by_entry (some (client _)) q h = keep-eq o h
      by_entry (some (server s)) q h = elim (==-cases n name) [
        | inr (_, d) ↦ elim (Bool-cases (owns a t s)) [
          | inl w ↦ released (detail_event now detail) d (rw w at h)
          | inr w ↦ keep-eq o (rw w at h)
        ]
        | inl (_, same) ↦
            let p : get name r.services ≡ some (server s) = rw (← same) q in
            let s-eq : s ≡ connected_snapshot source since = cc in
            keep-eq o (rw (s-eq, refused same) at h)
      ]

  step-Owned :
      (op : Op) (r : RuntimeSnapshot) {r' : RuntimeSnapshot}
      → LeavesAlone name source since op
      → Owned r
      → step op r ≡ some r'
      → Owned r'
  unfolding step server_listener_pending server_listener_listening server_listener_error
      server_listener_stopped client_add server_add remove_service client_connecting client_resolved
      client_connected client_retrying client_stopped
  step-Owned listener_pending r alone o h = subst Owned (some-inj h) o
  step-Owned listener_listening r alone o h = subst Owned (some-inj h) o
  step-Owned (listener_error now m) r alone o h =
      failed-Owned r r.server_listener (safe_error now m) o h
  step-Owned listener_stopped r alone o h = subst Owned (some-inj h) o
  step-Owned (add_client n target) r alone o h = keep-eq (write-other n _ r alone o) h
  step-Owned (add_server n) r alone o h = keep-eq (write-other n _ r alone o) h
  step-Owned (remove_op n) r alone o h = subst Owned (some-inj h) (rw (remove-other n r alone o) o)
  step-Owned (connecting_op n) r alone o h = keep-eq (on_client-Owned _ n r o) h
  step-Owned (resolved_op n addr) r alone o h = keep-eq (on_client-Owned _ n r o) h
  step-Owned (client_connected_op now n) r alone o h = keep-eq (on_client-Owned _ n r o) h
  step-Owned (retrying_op now n m) r alone o h = retry-Owned n (safe_error now m) r o h
  step-Owned (stopped_op n) r alone o h = keep-eq (on_client-Owned _ n r o) h
  step-Owned (server_connected_op now n a) r alone o h =
      keep-eq (connected-other now n a r alone o) h
  step-Owned (disconnected_op now n a t detail) r alone o h =
      disconnected-other now n a t detail r alone o h

  run-Owned :
      (ops : List Op) (r r' : RuntimeSnapshot)
      → All (LeavesAlone name source since) ops
      → Owned r
      → run ops r ≡ some r'
      → Owned r'
  unfolding run
  run-Owned [] r r' alone o h = keep-eq o h
  run-Owned (op ∷ ops) r r' alone o h =
      by_step (λ s o'. run-Owned ops s r' alone.1 o') (step op r) refl h
    where
      by_step :
          ((s : RuntimeSnapshot) → Owned s → run ops s ≡ some r' → Owned r')
          → (e : Option RuntimeSnapshot) → step op r ≡ e
          → continue e (run ops) ≡ some r'
          → Owned r'
      by_step later none q h = cc
      by_step later (some s) q h = later s (step-Owned op r alone.0 o q) h

  connected-Owned :
      (r : RuntimeSnapshot) (s : ServerSnapshot)
      → get name r.services ≡ some (server s)
      → Owned ((server_connected since name source r).1)
  unfolding server_connected
  connected-Owned r s e =
      rw
        (
          e,
          get-insert name name (server (connected_snapshot source since)) r.services,
          eq_self name,
        )
        refl

  release-Owned :
      (now : ℕ) (r : RuntimeSnapshot)
      → Owned r
      → (r' : RuntimeSnapshot) × (server_disconnected now name source since none r ≡ some r')
        × (get name r'.services ≡ some (server waiting_snapshot))
  unfolding server_disconnected
  release-Owned now r o = (
    write_entry name (server waiting_snapshot) r,
    rw (o, eq_self source, eq_self since) refl,
    rw (get-insert name name (server waiting_snapshot) r.services, eq_self name) refl,
  )

-- Once the registry shows a server's service connected from `source` at `since`, no sequence of
-- calls about other services, other channels' disconnections included those of superseded channels
-- of this service, changes that entry; and the disconnection of the channel itself, without an
-- error, then makes the service wait again.
pub server_connected-Owned :
    (name : Text) (source : SocketAddr) (since later : ℕ) (r r' : RuntimeSnapshot)
    (s : ServerSnapshot) (ops : List Op)
    → get name r.services ≡ some (server s)
    → All (LeavesAlone name source since) ops
    → run ops ((server_connected since name source r).1) ≡ some r'
    → (get name r'.services ≡ some (server (connected_snapshot source since)))
      × ((r'' : RuntimeSnapshot) × (server_disconnected later name source since none r' ≡ some r'')
          × (get name r''.services ≡ some (server waiting_snapshot)))
server_connected-Owned name source since later r r' s ops e alone h =
    let o =
      run-Owned name source since ops _ r' alone (connected-Owned name source since r s e) h in
    (o, release-Owned name source since later r' o)
