-- ===== src/Server/UdpPool/Session.antt =====
-- The UDP pool of src/server.rs asks for one data channel at a time.
use mathlib.Core.Path.{subst}
use mathlib.Core.List.{append-nil, append_assoc}
use rathole_x.Base.{
  ℕ, suc, ◌≤◌, ◌≡◌, refl, sym, ◌∙◌, ◌++◌, ap, Bool, true, false, Option, none, some, List, [], ◌∷◌,
  length, length-append, arith, length-take_le, All, All-append,
}
use rathole_x.Protocol.{UdpTraffic}
use rathole_x.Client.Udp.{udp_buffer_size}
use rathole_x.Server.UdpPool.{
  Place, waiting, forwarding, ended, UdpPool, Event, channel_arrived, channels_closed,
  channel_received, inbound, inbound_error, outbound, outbound_failed, shutdown, start, replace,
  begin, close, place_step, step, and_then, run,
}

-- How many channels were asked for, by where the pool is.
abbrev pub Asked : Place → ℕ → ℕ → Type 0
Asked waiting requests taken = requests ≡ suc taken
Asked (forwarding c) requests taken = requests ≡ taken
Asked ended requests taken = Unit

-- A session is over the channel that was taken last.
abbrev pub IsLatest : Place → List ℕ → Type 0
IsLatest waiting taken = Unit
IsLatest (forwarding c) taken = (before : List ℕ) × (taken ≡ before ++ c ∷ [])
IsLatest ended taken = Unit

-- The data channels that arrived, in order.
abbrev pub arrivals : List Event → List ℕ
arrivals [] = []
arrivals (channel_arrived c ∷ es) = c ∷ arrivals es
arrivals (channels_closed ∷ es) = arrivals es
arrivals (channel_received _ _ ∷ es) = arrivals es
arrivals (inbound _ _ _ _ ∷ es) = arrivals es
arrivals (inbound_error ∷ es) = arrivals es
arrivals (outbound _ ∷ es) = arrivals es
arrivals (outbound_failed _ ∷ es) = arrivals es
arrivals (shutdown ∷ es) = arrivals es

-- A frame for the client, of at most a buffer's length.
abbrev pub ShortFrame : ℕ × UdpTraffic → Type 0
ShortFrame x = length x.1.payload ≤ udp_buffer_size

pub record IsPool (n : List ℕ) (s : UdpPool) : Type 0 where
  pub asked : Asked s.place s.requests (length s.taken)
  pub used : s.taken ++ s.channels ≡ n
  pub latest : IsLatest s.place s.taken
  pub short : All ShortFrame s.to_client

some-eq : {a b : UdpPool} → ◌≡◌ {A = Option UdpPool} (some a) (some b) → a ≡ b
some-eq h = cc

stuck : {n : List ℕ} {r : UdpPool} → ◌≡◌ {A = Option UdpPool} none (some r) → IsPool n r
stuck h = cc

module _ (n : List ℕ) where
  replace-IsPool :
      (asked : Bool) (s : UdpPool)
      → s.requests ≡ length s.taken
      → s.taken ++ s.channels ≡ n
      → All ShortFrame s.to_client
      → IsPool n (replace asked s)
  replace-IsPool true s a c h = record { asked = ap suc a; used = c; latest = tt; short = h }
  replace-IsPool false s a c h = record { asked = tt; used = c; latest = tt; short = h }

  -- Taking a channel answers the open request, and moves the channel from the queue.
  taken_one :
      (c : ℕ) {s : UdpPool}
      → IsPool n s
      → s.place ≡ waiting
      → s.requests ≡ length (s.taken ++ c ∷ [])
  taken_one c {s} i p =
      let a : s.requests ≡ suc (length s.taken) =
        subst (λ x. Asked x s.requests (length s.taken)) p i.asked in
      omega (arith, a, length-append s.taken (c ∷ []))

  used_one :
      (c : ℕ) (rest : List ℕ) {s : UdpPool}
      → IsPool n s
      → s.channels ≡ c ∷ rest
      → (s.taken ++ c ∷ []) ++ rest ≡ n
  used_one c rest {s} i q =
      let u : s.taken ++ c ∷ rest ≡ n = subst (λ x. s.taken ++ x ≡ n) q i.used in
      append_assoc s.taken (c ∷ []) rest ∙ u

  begin-IsPool :
      (wrote asked : Bool) (cs : List ℕ) {s r : UdpPool}
      → IsPool n s
      → s.place ≡ waiting
      → s.channels ≡ cs
      → begin wrote asked cs s ≡ some r
      → IsPool n r
  begin-IsPool wrote asked [] i p q h = stuck h
  begin-IsPool true asked (c ∷ rest) {s} {r} i p q h = subst (IsPool n) (some-eq h) (record {
    asked = taken_one c i p;
    used = used_one c rest i q;
    latest = (s.taken, refl);
    short = i.short;
  })
  begin-IsPool false asked (c ∷ rest) {s} {r} i p q h = subst (IsPool n) (some-eq h) (
      replace-IsPool asked (record s { channels = rest; taken = s.taken ++ c ∷ [] })
        (taken_one c i p) (used_one c rest i q) i.short)

  close-IsPool : (cs : List ℕ) {s r : UdpPool} → IsPool n s → close cs s ≡ some r → IsPool n r
  close-IsPool [] i h =
      subst (IsPool n) (some-eq h)
        (record { asked = tt; used = i.used; latest = tt; short = i.short })
  close-IsPool (_ ∷ _) i h = stuck h

  place_step-IsPool :
      (e : Event) (place : Place) {s r : UdpPool}
      → IsPool n s
      → s.place ≡ place
      → place_step e place s ≡ some r
      → IsPool n r
  place_step-IsPool (channel_received wrote asked) waiting {s} i p h =
      begin-IsPool wrote asked s.channels i p refl h
  place_step-IsPool channels_closed waiting {s} i p h = close-IsPool s.channels i h
  place_step-IsPool (inbound from payload true asked) (forwarding c) {s} i p h =
      subst (IsPool n) (some-eq h) (record {
        asked = i.asked;
        used = i.used;
        latest = i.latest;
        short =
            All-append ShortFrame s.to_client _ i.short
              (length-take_le udp_buffer_size payload, tt);
      })
  place_step-IsPool (inbound from payload false asked) (forwarding c) {s} i p h =
      subst (IsPool n) (some-eq h) (
        replace-IsPool asked s (subst (λ x. Asked x s.requests (length s.taken)) p i.asked) i.used
          i.short)
  place_step-IsPool inbound_error (forwarding c) i p h = subst (IsPool n) (some-eq h) i
  place_step-IsPool (outbound t) (forwarding c) i p h =
      subst (IsPool n) (some-eq h)
        (record { asked = i.asked; used = i.used; latest = i.latest; short = i.short })
  place_step-IsPool (outbound_failed asked) (forwarding c) {s} i p h =
      subst (IsPool n) (some-eq h) (
        replace-IsPool asked s (subst (λ x. Asked x s.requests (length s.taken)) p i.asked) i.used
          i.short)
  place_step-IsPool shutdown (forwarding c) i p h =
      subst (IsPool n) (some-eq h)
        (record { asked = tt; used = i.used; latest = tt; short = i.short })
  place_step-IsPool (channel_received wrote asked) (forwarding c) i p h = stuck h
  place_step-IsPool (channel_received wrote asked) ended i p h = stuck h
  place_step-IsPool channels_closed (forwarding c) i p h = stuck h
  place_step-IsPool channels_closed ended i p h = stuck h
  place_step-IsPool (inbound from payload true asked) waiting i p h = stuck h
  place_step-IsPool (inbound from payload true asked) ended i p h = stuck h
  place_step-IsPool (inbound from payload false asked) waiting i p h = stuck h
  place_step-IsPool (inbound from payload false asked) ended i p h = stuck h
  place_step-IsPool inbound_error waiting i p h = stuck h
  place_step-IsPool inbound_error ended i p h = stuck h
  place_step-IsPool (outbound t) waiting i p h = stuck h
  place_step-IsPool (outbound t) ended i p h = stuck h
  place_step-IsPool (outbound_failed asked) waiting i p h = stuck h
  place_step-IsPool (outbound_failed asked) ended i p h = stuck h
  place_step-IsPool shutdown waiting i p h = stuck h
  place_step-IsPool shutdown ended i p h = stuck h
  place_step-IsPool (channel_arrived c) place i p h = stuck h

more : (n : List ℕ) {r : UdpPool} → IsPool n r → IsPool (n ++ []) r
more n {r} i = subst (λ m. IsPool m r) (sym (append-nil n)) i

step-IsPool :
    (e : Event) (n : List ℕ) {s r : UdpPool}
    → IsPool n s
    → step e s ≡ some r
    → IsPool (n ++ arrivals (e ∷ [])) r
unfolding step
step-IsPool (channel_arrived c) n {s} i h = subst (IsPool (n ++ c ∷ [])) (some-eq h) (record {
  asked = i.asked;
  used =
      subst (λ m. s.taken ++ (s.channels ++ c ∷ []) ≡ m ++ c ∷ []) i.used
        (sym (append_assoc s.taken s.channels (c ∷ [])));
  latest = i.latest;
  short = i.short;
})
step-IsPool channels_closed n {s} i h =
    more n (place_step-IsPool n channels_closed s.place i refl h)
step-IsPool (channel_received a b) n {s} i h =
    more n (place_step-IsPool n (channel_received a b) s.place i refl h)
step-IsPool (inbound f p a b) n {s} i h =
    more n (place_step-IsPool n (inbound f p a b) s.place i refl h)
step-IsPool inbound_error n {s} i h = more n (place_step-IsPool n inbound_error s.place i refl h)
step-IsPool (outbound t) n {s} i h = more n (place_step-IsPool n (outbound t) s.place i refl h)
step-IsPool (outbound_failed a) n {s} i h =
    more n (place_step-IsPool n (outbound_failed a) s.place i refl h)
step-IsPool shutdown n {s} i h = more n (place_step-IsPool n shutdown s.place i refl h)

arrivals-cons : (e : Event) (es : List Event) → arrivals (e ∷ es) ≡ arrivals (e ∷ []) ++ arrivals es
arrivals-cons (channel_arrived c) es = refl
arrivals-cons channels_closed es = refl
arrivals-cons (channel_received _ _) es = refl
arrivals-cons (inbound _ _ _ _) es = refl
arrivals-cons inbound_error es = refl
arrivals-cons (outbound _) es = refl
arrivals-cons (outbound_failed _) es = refl
arrivals-cons shutdown es = refl

run_from-IsPool :
    (es : List Event) (n : List ℕ) {s r : UdpPool}
    → IsPool n s
    → run es s ≡ some r
    → IsPool (n ++ arrivals es) r
unfolding run
run_from-IsPool [] n i h = more n (subst (IsPool n) (some-eq h) i)
run_from-IsPool (e ∷ es) n {s} {r} i h =
    by_step (λ m j q. run_from-IsPool es (n ++ arrivals (e ∷ [])) {s = m} {r = r} j q) (step e s)
      refl h
  where
    by_step :
        ((m : UdpPool)
          → IsPool (n ++ arrivals (e ∷ [])) m
          → run es m ≡ some r
          → IsPool ((n ++ arrivals (e ∷ [])) ++ arrivals es) r)
        → (o : Option UdpPool) → step e s ≡ o
        → and_then o (run es) ≡ some r
        → IsPool (n ++ arrivals (e ∷ es)) r
    by_step later none q h = cc
    by_step later (some m) q h =
        subst (λ k. IsPool k r)
          (append_assoc n (arrivals (e ∷ [])) (arrivals es)
            ∙ ap (◌++◌ n) (sym (arrivals-cons e es)))
          (later m (step-IsPool e n {s = s} {r = m} i q) h)

-- However its steps are ordered, the UDP pool has asked for one data channel more than it took while
-- it waits for one, and for as many as it took while it forwards, so that at most one request is
-- ever open; the channels taken, followed by those in the
-- queue, are exactly those that arrived, in the order in which they arrived, and it forwards over
-- the one taken last; and a frame for the client
-- carries at most 2048 bytes.
pub run-IsPool : (es : List Event) (r : UdpPool) → run es start ≡ some r → IsPool (arrivals es) r
run-IsPool es r h =
    run_from-IsPool es [] {s = start} {r = r}
      (record { asked = refl; used = refl; latest = tt; short = tt }) h

-- A UDP service recovers: when the pool waits and the data channels that it asked for have arrived,
-- it takes one and forwards over it, if the command can be written.
pub run-resumes :
    (es : List Event) (r : UdpPool)
    → run es start ≡ some r
    → r.place ≡ waiting
    → r.requests ≡ length (arrivals es)
    → (c : ℕ) × (s : UdpPool) × (step (channel_received true true) r ≡ some s)
      × (s.place ≡ forwarding c)
unfolding step
run-resumes es r h here all_came = by_channels (run-IsPool es r h) r.channels refl
  where
    by_channels :
        IsPool (arrivals es) r
        → (cs : List ℕ) → r.channels ≡ cs
        → (c : ℕ) × (s : UdpPool) × (step (channel_received true true) r ≡ some s)
          × (s.place ≡ forwarding c)
    by_channels i [] q =
        let a : r.requests ≡ suc (length r.taken) =
          subst (λ x. Asked x r.requests (length r.taken)) here i.asked in
        absurd (
          omega
            (arith, a, ap length i.used, length-append r.taken r.channels, all_came, ap length q))
    by_channels i (c ∷ rest) q = (
      c,
      record r { place = forwarding c; channels = rest; taken = r.taken ++ c ∷ [] },
      rw (here, q) refl,
      refl,
    )
