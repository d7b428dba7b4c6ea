-- ===== src/Server/Pool/Steps.antt =====
-- Every step of the listener and the pool of src/server.rs makes the moves of Server.Pool.Progress.
use mathlib.Core.Path.{subst}
use rathole_x.Base.{
  ℕ, suc, ◌≡◌, refl, sym, inl, inr, Bool, true, false, Option, none, some, List, [], ◌∷◌, ◌++◌,
  if◌then◌else◌, ltb, length, Bool-cases,
}
use rathole_x.Server.{chan_size}
use rathole_x.Server.Pool.{
  Place, idle, serving, ended, Pool, Event, visitor_accepted, visitor_sent, listener_stopped,
  channel_arrived, visitor_received, channel_received, channels_closed, visitors_closed,
  send_visitor, listen_step, receive_visitor, receive_channel, close, pool_step, step,
}
use rathole_x.Server.Pool.Progress.{
  IsRunning, some-eq, Moves, stuck, accepted-Moves, still-Moves, sent-Moves, arrived-Moves,
  received-Moves, paired-Moves, broken-Moves,
}

module _ {s r : Pool} where
  receive_visitor-Moves :
      (vs : List ℕ)
      → s.place ≡ idle
      → s.visitors ≡ vs
      → IsRunning r.place
      → receive_visitor vs s ≡ some r
      → Moves s visitor_received r
  receive_visitor-Moves [] p q on h = stuck h
  receive_visitor-Moves (v ∷ rest) p q on h =
      subst (Moves s visitor_received) (some-eq h) (received-Moves s v rest p q)

  receive_channel-Moves :
      (v : ℕ) (wrote asked : Bool) (cs : List ℕ)
      → s.place ≡ serving v
      → s.channels ≡ cs
      → IsRunning r.place
      → receive_channel v wrote asked cs s ≡ some r
      → Moves s (channel_received wrote asked) r
  receive_channel-Moves v wrote asked [] p q on h = stuck h
  receive_channel-Moves v true asked (c ∷ rest) p q on h =
      subst (Moves s (channel_received true asked)) (some-eq h) (paired-Moves s v c rest asked p q)
  receive_channel-Moves v false true (c ∷ rest) p q on h =
      subst (Moves s (channel_received false true)) (some-eq h) (broken-Moves s v c rest p q)
  receive_channel-Moves v false false (c ∷ rest) p q on h =
      let e : record s { place = ended; channels = rest; taken = s.taken ++ (c, none) ∷ [] } ≡ r =
        some-eq h in
      absurd (subst (λ x. IsRunning x.place) (sym e) on)

  close-Moves : (e : Event) (xs : List ℕ) → IsRunning r.place → close xs s ≡ some r → Moves s e r
  close-Moves e [] on h =
      let q : record s { place = ended } ≡ r = some-eq h in
      absurd (subst (λ x. IsRunning x.place) (sym q) on)
  close-Moves e (_ ∷ _) on h = stuck h

  visitors_closed-Moves :
      (b : Bool)
      → IsRunning r.place
      → (if b then none else close s.visitors s) ≡ some r
      → Moves s visitors_closed r
  visitors_closed-Moves true on h = stuck h
  visitors_closed-Moves false on h = close-Moves visitors_closed s.visitors on h

  pool_step-Moves :
      (e : Event) (place : Place)
      → s.place ≡ place
      → IsRunning r.place
      → pool_step e place s ≡ some r
      → Moves s e r
  pool_step-Moves visitor_received idle p on h = receive_visitor-Moves s.visitors p refl on h
  pool_step-Moves visitors_closed idle p on h = visitors_closed-Moves s.listening on h
  pool_step-Moves (channel_received wrote asked) (serving v) p on h =
      receive_channel-Moves v wrote asked s.channels p refl on h
  pool_step-Moves channels_closed (serving v) p on h = close-Moves channels_closed s.channels on h
  pool_step-Moves visitor_received (serving _) p on h = stuck h
  pool_step-Moves visitor_received ended p on h = stuck h
  pool_step-Moves visitors_closed (serving _) p on h = stuck h
  pool_step-Moves visitors_closed ended p on h = stuck h
  pool_step-Moves (channel_received _ _) idle p on h = stuck h
  pool_step-Moves (channel_received _ _) ended p on h = stuck h
  pool_step-Moves channels_closed idle p on h = stuck h
  pool_step-Moves channels_closed ended p on h = stuck h
  pool_step-Moves (visitor_accepted _ _) place p on h = stuck h
  pool_step-Moves visitor_sent place p on h = stuck h
  pool_step-Moves listener_stopped place p on h = stuck h
  pool_step-Moves (channel_arrived _) place p on h = stuck h

  send_visitor-Moves :
      (v : ℕ) (place : Place)
      → s.place ≡ place
      → s.accepted ≡ some v
      → IsRunning r.place
      → send_visitor v place s ≡ some r
      → Moves s visitor_sent r
  send_visitor-Moves v ended p q on h =
      let e : record s { accepted = none } ≡ r = some-eq h in
      absurd (subst IsRunning p (subst (λ x. IsRunning x.place) (sym e) on))
  send_visitor-Moves v idle p q on h = elim (Bool-cases (ltb (length s.visitors) chan_size)) [
    | inl t ↦
        subst (Moves s visitor_sent) (some-eq (rw t at h))
          (sent-Moves s v (subst IsRunning (sym p) tt) q)
    | inr t ↦ stuck (rw t at h)
  ]
  send_visitor-Moves v (serving _) p q on h =
      elim (Bool-cases (ltb (length s.visitors) chan_size)) [
        | inl t ↦
            subst (Moves s visitor_sent) (some-eq (rw t at h))
              (sent-Moves s v (subst IsRunning (sym p) tt) q)
        | inr t ↦ stuck (rw t at h)
      ]

  listen_step-Moves :
      (e : Event) (b : Bool) (o : Option ℕ)
      → s.accepted ≡ o
      → IsRunning r.place
      → listen_step e b o s ≡ some r
      → Moves s e r
  listen_step-Moves (visitor_accepted v true) true none q on h =
      let e : record s { accepted = some v; requests = suc s.requests } ≡ r = some-eq h in
      subst (Moves s (visitor_accepted v true)) e
        (accepted-Moves s v (subst (λ x. IsRunning x.place) (sym e) on) q)
  listen_step-Moves (visitor_accepted v false) true none q on h =
      let e : record s { listening = false } ≡ r = some-eq h in
      subst (Moves s (visitor_accepted v false)) e (
        still-Moves s false (visitor_accepted v false) (subst (λ x. IsRunning x.place) (sym e) on)
          refl refl)
  listen_step-Moves visitor_sent true (some v) q on h = send_visitor-Moves v s.place refl q on h
  listen_step-Moves listener_stopped true none q on h =
      let e : record s { listening = false } ≡ r = some-eq h in
      subst (Moves s listener_stopped) e
        (still-Moves s false listener_stopped (subst (λ x. IsRunning x.place) (sym e) on) refl refl)
  listen_step-Moves (visitor_accepted v true) true (some _) q on h = stuck h
  listen_step-Moves (visitor_accepted v false) true (some _) q on h = stuck h
  listen_step-Moves (visitor_accepted v true) false _ q on h = stuck h
  listen_step-Moves (visitor_accepted v false) false _ q on h = stuck h
  listen_step-Moves visitor_sent true none q on h = stuck h
  listen_step-Moves visitor_sent false _ q on h = stuck h
  listen_step-Moves listener_stopped true (some _) q on h = stuck h
  listen_step-Moves listener_stopped false _ q on h = stuck h
  listen_step-Moves (channel_arrived _) _ _ q on h = stuck h
  listen_step-Moves visitor_received _ _ q on h = stuck h
  listen_step-Moves (channel_received _ _) _ _ q on h = stuck h
  listen_step-Moves channels_closed _ _ q on h = stuck h
  listen_step-Moves visitors_closed _ _ q on h = stuck h

  pub step-Moves : (e : Event) → IsRunning r.place → step e s ≡ some r → Moves s e r
  unfolding step
  step-Moves (channel_arrived c) on h =
      let e : record s { channels = s.channels ++ c ∷ [] } ≡ r = some-eq h in
      subst (Moves s (channel_arrived c)) e
        (arrived-Moves s c (subst (λ x. IsRunning x.place) (sym e) on))
  step-Moves (visitor_accepted v asked) on h =
      listen_step-Moves (visitor_accepted v asked) s.listening s.accepted refl on h
  step-Moves visitor_sent on h = listen_step-Moves visitor_sent s.listening s.accepted refl on h
  step-Moves listener_stopped on h =
      listen_step-Moves listener_stopped s.listening s.accepted refl on h
  step-Moves visitor_received on h = pool_step-Moves visitor_received s.place refl on h
  step-Moves (channel_received wrote asked) on h =
      pool_step-Moves (channel_received wrote asked) s.place refl on h
  step-Moves channels_closed on h = pool_step-Moves channels_closed s.place refl on h
  step-Moves visitors_closed on h = pool_step-Moves visitors_closed s.place refl on h
