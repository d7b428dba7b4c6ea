-- ===== src/Status/Steps.antt =====
-- Each operation of src/runtime_status.rs keeps the registry coherent.
use mathlib.Core.Path.{subst}
use rathole_x.Base.{
  ℕ, ◌≡◌, refl, ◌≤◌, inl, inr, Option, none, some, nat_eq, text_eq, Text, ◌==◌, length, Bool-cases,
}
use rathole_x.Base.Dict.{get, get-insert, get-remove}
use rathole_x.Base.Net.{SocketAddr}
use rathole_x.Status.{
  RuntimeRole, client_role, server_role, ClientControlState, ServerControlState, RuntimeEvent,
  ClientSnapshot, ServerSnapshot, RuntimeServiceSnapshot, client, server, RuntimeSnapshot,
  safe_error, new_client, ServerListenerSnapshot, new_server, server_listener_pending,
  server_listener_listening, server_listener_error, server_listener_stopped, client_add, server_add,
  remove_service, client_connecting, client_resolved, client_connected, client_retrying,
  client_stopped, server_connected, server_disconnected, detail_event, some_event, listener_failed,
  on_listener, listener_entry, write_entry, released_entry, disconnected_entry, client_retry_entry,
  on_client, client_entry, connected_entry, owns,
}
use rathole_x.Status.Invariant.{
  Op, listener_pending, listener_listening, listener_error, listener_stopped, add_client,
  add_server, remove_op, connecting_op, resolved_op, client_connected_op, retrying_op, stopped_op,
  server_connected_op, disconnected_op, step, IsBounded, ClientOk, ServerOk, EntryOk, IsCoherent,
  ListenerOk, Fits, safe_error-bound,
}

abbrev ClientFine : ClientSnapshot → Type 0
ClientFine c = ClientOk c.state c × IsBounded c.last_error

abbrev ServerFine : ServerSnapshot → Type 0
ServerFine s = ServerOk s.state s × IsBounded s.last_disconnected_or_error

pub some-inj : {A : Type 0} {a b : A} → some a ≡ some b → a ≡ b
some-inj h = cc

change_client :
    (role : RuntimeRole) (c c' : ClientSnapshot)
    → EntryOk role (some (client c))
    → (ClientFine c → ClientFine c')
    → EntryOk role (some (client c'))
change_client client_role c c' ok f = f ok
change_client server_role c c' ok f = ok

change_server :
    (role : RuntimeRole) (s s' : ServerSnapshot)
    → EntryOk role (some (server s))
    → (ServerFine s → ServerFine s')
    → EntryOk role (some (server s'))
change_server client_role s s' ok f = ok
change_server server_role s s' ok f = f ok

detail-bound :
    (now : ℕ) (detail : Option Text) (e : Option RuntimeEvent)
    → detail_event now detail ≡ some e
    → IsBounded e
detail-bound now none e h = let same : none ≡ e = cc in subst IsBounded same tt
detail-bound now (some m) e h = by_event (safe_error now m) refl h
  where
    by_event :
        (o : Option RuntimeEvent) → safe_error now m ≡ o → some_event o ≡ some e → IsBounded e
    by_event none q h = cc
    by_event (some x) q h =
        let same : some x ≡ e = cc in subst IsBounded same (safe_error-bound now m x q)

module _ {role : RuntimeRole} {r : RuntimeSnapshot} (i : IsCoherent role r) where
  write-IsCoherent :
      (name : Text) (entry : RuntimeServiceSnapshot)
      → EntryOk role (some entry)
      → IsCoherent role (write_entry name entry r)
  write-IsCoherent name entry ok = record {
    same_role = i.same_role;
    listener = i.listener;
    entries = λ n. elim (Bool-cases (name == n)) [
      | inl h ↦ rw (get-insert name n entry r.services, h) ok
      | inr h ↦ rw (get-insert name n entry r.services, h) (i.entries n)
    ];
  }

  remove-IsCoherent : (name : Text) → IsCoherent role (remove_service name r)
  unfolding remove_service
  remove-IsCoherent name = record {
    same_role = i.same_role;
    listener = i.listener;
    entries = λ n. elim (Bool-cases (name == n)) [
      | inl h ↦ rw (get-remove name n r.services, h) tt
      | inr h ↦ rw (get-remove name n r.services, h) (i.entries n)
    ];
  }

  listener-IsCoherent :
      (l : Option ServerListenerSnapshot)
      → ListenerOk l
      → IsCoherent role (record r { server_listener = l })
  listener-IsCoherent l ok = record { same_role = i.same_role; listener = ok; entries = i.entries }

  -- A change of the listener that keeps its diagnostic bounded.
  on_listener-IsCoherent :
      (f : ServerListenerSnapshot → ServerListenerSnapshot)
      → ((l : ServerListenerSnapshot) → IsBounded l.last_error → IsBounded ((f l).last_error))
      → IsCoherent role (on_listener f r)
  on_listener-IsCoherent f keep = by_listener r.server_listener i.listener
    where
      by_listener :
          (o : Option ServerListenerSnapshot)
          → ListenerOk o
          → IsCoherent role (record r { server_listener = listener_entry f o })
      by_listener none ok = listener-IsCoherent none tt
      by_listener (some l) ok = listener-IsCoherent (some (f l)) (keep l ok)

  on_client-IsCoherent :
      (f : ClientSnapshot → ClientSnapshot) (name : Text)
      → ((c : ClientSnapshot) → ClientFine c → ClientFine (f c))
      → IsCoherent role (on_client f name r)
  on_client-IsCoherent f name keep = by_entry (get name r.services) (i.entries name)
    where
      by_entry :
          (e : Option RuntimeServiceSnapshot)
          → EntryOk role e
          → IsCoherent role (client_entry f name r e)
      by_entry none ok = i
      by_entry (some (server _)) ok = i
      by_entry (some (client c)) ok =
          write-IsCoherent name (client (f c)) (change_client role c (f c) ok (keep c))

  retry-IsCoherent :
      (name : Text) (event : Option RuntimeEvent) {r' : RuntimeSnapshot}
      → ((e : RuntimeEvent) → event ≡ some e → length e.message ≤ 512)
      → client_retry_entry name r (get name r.services) event ≡ some r'
      → IsCoherent role r'
  retry-IsCoherent name event {r'} short h =
      by_entry (get name r.services) (i.entries name) event short h
    where
      by_entry :
          (e : Option RuntimeServiceSnapshot)
          → EntryOk role e
          → (event : Option RuntimeEvent)
          → ((e : RuntimeEvent) → event ≡ some e → length e.message ≤ 512)
          → client_retry_entry name r e event ≡ some r'
          → IsCoherent role r'
      by_entry none ok event short h = let same : r ≡ r' = cc in subst (IsCoherent role) same i
      by_entry (some (server _)) ok event short h =
          let same : r ≡ r' = cc in subst (IsCoherent role) same i
      by_entry (some (client c)) ok none short h = cc
      by_entry (some (client c)) ok (some e) short h =
          let c' : ClientSnapshot = record c {
            state = ClientControlState.retrying;
            last_error = some e;
          } in
          let fine : ClientFine c' = (λ q. cc, short e refl) in
          let same : write_entry name (client c') r ≡ r' = cc in
          subst (IsCoherent role) same
            (write-IsCoherent name (client c') (change_client role c c' ok (λ _. fine)))

  connected-IsCoherent :
      (now : ℕ) (name : Text) (source : SocketAddr)
      → IsCoherent role ((server_connected now name source r).1)
  unfolding server_connected
  connected-IsCoherent now name source = by_entry (get name r.services) (i.entries name)
    where
      by_entry :
          (e : Option RuntimeServiceSnapshot)
          → EntryOk role e
          → IsCoherent role ((connected_entry now name source r e).1)
      by_entry none ok = i
      by_entry (some (client _)) ok = i
      by_entry (some (server s)) ok =
          write-IsCoherent name _ (change_server role s _ ok (λ _. ((λ q. cc, λ q. cc, refl), tt)))

  released-IsCoherent :
      (name : Text) (s : ServerSnapshot) (event : Option (Option RuntimeEvent))
      {r' : RuntimeSnapshot}
      → EntryOk role (some (server s))
      → ((e : Option RuntimeEvent) → event ≡ some e → IsBounded e)
      → released_entry name r event ≡ some r'
      → IsCoherent role r'
  released-IsCoherent name s none ok short h = cc
  released-IsCoherent name s (some e) {r'} ok short h =
      let s' : ServerSnapshot = record {
        state = ServerControlState.waiting;
        control_channel_source = none;
        connected_since_unix_ms = none;
        last_disconnected_or_error = e;
      } in
      let same : write_entry name (server s') r ≡ r' = cc in
      subst (IsCoherent role) same (
        write-IsCoherent name (server s')
          (change_server role s s' ok (λ _. ((refl, refl), short e refl))))

  disconnected-IsCoherent :
      (now : ℕ) (name : Text) (source : SocketAddr) (since : ℕ) (detail : Option Text)
      {r' : RuntimeSnapshot}
      → server_disconnected now name source since detail r ≡ some r'
      → IsCoherent role r'
  unfolding server_disconnected
  disconnected-IsCoherent now name source since detail {r'} h =
      by_entry (get name r.services) (i.entries name) h
    where
      by_entry :
          (e : Option RuntimeServiceSnapshot)
          → EntryOk role e
          → disconnected_entry name source since (detail_event now detail) r e ≡ some r'
          → IsCoherent role r'
      by_entry none ok h = let same : r ≡ r' = cc in subst (IsCoherent role) same i
      by_entry (some (client _)) ok h = let same : r ≡ r' = cc in subst (IsCoherent role) same i
      by_entry (some (server s)) ok h = elim (Bool-cases (owns source since s)) [
        | inl t ↦
            released-IsCoherent name s (detail_event now detail) ok (detail-bound now detail)
              (rw t at h)
        | inr t ↦
            let h' : some r ≡ some r' = rw t at h in
            let same : r ≡ r' = cc in subst (IsCoherent role) same i
      ]

  failed-IsCoherent :
      (l : Option ServerListenerSnapshot) (e : Option RuntimeEvent) {r' : RuntimeSnapshot}
      → ((x : RuntimeEvent) → e ≡ some x → length x.message ≤ 512)
      → listener_failed r l e ≡ some r'
      → IsCoherent role r'
  failed-IsCoherent none e {r'} short h = let same : r ≡ r' = cc in subst (IsCoherent role) same i
  failed-IsCoherent (some l) none short h = cc
  failed-IsCoherent (some l) (some e) {r'} short h =
      subst (IsCoherent role) (some-inj h) (listener-IsCoherent _ (short e refl))

  -- A call that fits the role and does not panic keeps the registry coherent.
  pub step-IsCoherent :
      (op : Op) {r' : RuntimeSnapshot} → Fits role op → step op r ≡ some r' → IsCoherent role r'
  unfolding step server_listener_pending server_listener_listening server_listener_error
      server_listener_stopped client_add server_add remove_service client_connecting client_resolved
      client_connected client_retrying client_stopped
  step-IsCoherent listener_pending fits h =
      subst (IsCoherent role) (some-inj h) (on_listener-IsCoherent _ (λ l ok. tt))
  step-IsCoherent listener_listening fits h =
      subst (IsCoherent role) (some-inj h) (on_listener-IsCoherent _ (λ l ok. tt))
  step-IsCoherent (listener_error now m) fits h =
      failed-IsCoherent r.server_listener (safe_error now m) (safe_error-bound now m) h
  step-IsCoherent listener_stopped fits h =
      subst (IsCoherent role) (some-inj h) (on_listener-IsCoherent _ (λ l ok. ok))
  step-IsCoherent (add_client name target) fits h =
      subst (IsCoherent role) (some-inj h)
        (write-IsCoherent name (new_client target) (new_client-ok role fits))
    where
      new_client-ok :
          (role : RuntimeRole)
          → Fits role (add_client name target)
          → EntryOk role (some (new_client target))
      new_client-ok client_role fits = (tt, tt)
      new_client-ok server_role fits = fits
  step-IsCoherent (add_server name) fits h =
      subst (IsCoherent role) (some-inj h)
        (write-IsCoherent name new_server (new_server-ok role fits))
    where
      new_server-ok :
          (role : RuntimeRole) → Fits role (add_server name) → EntryOk role (some new_server)
      new_server-ok client_role fits = fits
      new_server-ok server_role fits = ((refl, refl), tt)
  step-IsCoherent (remove_op name) fits h =
      subst (IsCoherent role) (some-inj h) (remove-IsCoherent name)
  step-IsCoherent (connecting_op name) fits h =
      subst (IsCoherent role) (some-inj h) (on_client-IsCoherent _ name (λ c fine. (tt, fine.1)))
  step-IsCoherent (resolved_op name addr) fits h =
      subst (IsCoherent role) (some-inj h)
        (on_client-IsCoherent _ name (λ c fine. (resolved-ok c.state c addr fine.0, fine.1)))
    where
      resolved-ok :
          (s : ClientControlState) (c : ClientSnapshot) (addr : SocketAddr)
          → ClientOk s c
          → ClientOk s (record c { resolved_control_target = some addr })
      resolved-ok ClientControlState.connecting c addr ok = ok
      resolved-ok ClientControlState.connected c addr ok = ok
      resolved-ok ClientControlState.retrying c addr ok = ok
      resolved-ok ClientControlState.stopped c addr ok = ok
  step-IsCoherent (client_connected_op now name) fits h =
      subst (IsCoherent role) (some-inj h)
        (on_client-IsCoherent _ name (λ c fine. ((λ q. cc, refl), tt)))
  step-IsCoherent (retrying_op now name m) fits h =
      retry-IsCoherent name (safe_error now m) (safe_error-bound now m) h
  step-IsCoherent (stopped_op name) fits h =
      subst (IsCoherent role) (some-inj h) (on_client-IsCoherent _ name (λ c fine. (tt, fine.1)))
  step-IsCoherent (server_connected_op now name source) fits h =
      subst (IsCoherent role) (some-inj h) (connected-IsCoherent now name source)
  step-IsCoherent (disconnected_op now name source since detail) fits h =
      disconnected-IsCoherent now name source since detail h
