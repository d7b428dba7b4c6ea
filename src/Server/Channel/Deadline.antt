-- ===== src/Server/Channel/Deadline.antt =====
-- The deadline of `ControlChannel::run` of src/server.rs stands for an outstanding request.
use mathlib.Core.Path.{subst}
use native.Mathlib.Nat.{mod-eq_of_lt}
use rathole_x.Base.{
  ℕ, suc, ◌+◌, ◌-◌, ◌%◌, ◌^◌, ◌≤◌, ◌<◌, ◌≡◌, refl, sym, ◌∙◌, ◌⊎◌, ◌↔◌, inl, inr, Bool, true, false,
  Option, none, some, List, [], ◌∷◌, ◌++◌, if◌then◌else◌, leb, ltb, ◌==◌, nat_eq, arith, Bool-cases,
  is_some,
}
use rathole_x.Protocol.{ControlChannelCmd, create_data_channel}
use rathole_x.Server.Channel.{
  ControlChannel, Event, data_ch_req, data_ch_arrived, deadline_fired, heartbeat_due, shutdown,
  Next, running, ended, stuck, start, arm_if_none, fire, step, then_step, run,
}

abbrev pub requests : List (ℕ × Event) → ℕ
requests [] = 0
requests ((_, data_ch_req true true) ∷ trace) = suc (requests trace)
requests ((_, data_ch_req true false) ∷ trace) = requests trace
requests ((_, data_ch_req false _) ∷ trace) = requests trace
requests ((_, data_ch_arrived _) ∷ trace) = requests trace
requests ((_, deadline_fired) ∷ trace) = requests trace
requests ((_, heartbeat_due _) ∷ trace) = requests trace
requests ((_, shutdown) ∷ trace) = requests trace

-- The steps from which a deadline counts.
abbrev pub Arms : Event → Type 0
Arms (data_ch_req true true) = Unit
Arms (data_ch_arrived true) = Unit
Arms _ = ⊥

abbrev pub NoArrival : Event → Type 0
NoArrival (data_ch_arrived true) = ⊥
NoArrival _ = Unit

-- A deadline counts from a request or an arrival after which no data channel arrived.
abbrev pub ArmedIn : ℕ → List (ℕ × Event) → ℕ → Type 0
ArmedIn timeout [] d = ⊥
ArmedIn timeout ((t, e) ∷ trace) d =
    (Arms e × (d ≡ t + timeout)) ⊎ (NoArrival e × ArmedIn timeout trace d)

abbrev pub CountedIn : ℕ → List (ℕ × Event) → Option ℕ → Type 0
CountedIn timeout trace none = Unit
CountedIn timeout trace (some d) = ArmedIn timeout trace d

to_counted :
    (timeout : ℕ) (trace : List (ℕ × Event)) (o : Option ℕ)
    → ((d : ℕ) → o ≡ some d → ArmedIn timeout trace d)
    → CountedIn timeout trace o
to_counted timeout trace none f = tt
to_counted timeout trace (some d) f = f d refl

counted_at :
    (timeout : ℕ) (trace : List (ℕ × Event)) (o : Option ℕ)
    → CountedIn timeout trace o
    → (d : ℕ) → o ≡ some d
    → ArmedIn timeout trace d
counted_at timeout trace none c d h = cc
counted_at timeout trace (some x) c d h =
    let same : x ≡ d = cc in subst (ArmedIn timeout trace) same c

pub record IsArmed (timeout : ℕ) (trace : List (ℕ × Event)) (ch : ControlChannel) : Type 0 where
  pub outstanding : (is_some ch.data_ch_deadline ≡ true) ↔ (0 < ch.pending_data_ch)
  pub requested : ch.pending_data_ch ≤ requests trace
  pub counted : CountedIn timeout trace ch.data_ch_deadline

running-inj :
    {a b : ControlChannel} → ◌≡◌ {A = Option Next} (some (running a)) (some (running b)) → a ≡ b
running-inj h = cc

fire-stops : (now : ℕ) (ch : ControlChannel) (o : Option ℕ) → fire now o ≡ some (running ch) → ⊥
fire-stops now ch none h = cc
fire-stops now ch (some d) h = elim (Bool-cases (leb d now)) [
  | inl t ↦ let bad : ◌≡◌ {A = Option Next} (some stuck) (some (running ch)) = rw t at h in cc
  | inr t ↦ let bad : ◌≡◌ {A = Option Next} none (some (running ch)) = rw t at h in cc
]

module _ (interval timeout : ℕ) where
  start-IsArmed : IsArmed timeout [] start
  start-IsArmed = record {
    outstanding = (λ h. cc, λ h. absurd (omega (arith, h)));
    requested = omega arith;
    counted = tt;
  }

  -- A step that leaves the deadline and the count as they are.
  still-IsArmed :
      {trace : List (ℕ × Event)} {ch ch' : ControlChannel} (now : ℕ) (e : Event)
      → IsArmed timeout trace ch
      → NoArrival e
      → requests ((now, e) ∷ trace) ≡ requests trace
      → ch'.pending_data_ch ≡ ch.pending_data_ch
      → ch'.data_ch_deadline ≡ ch.data_ch_deadline
      → IsArmed timeout ((now, e) ∷ trace) ch'
  still-IsArmed {trace} {ch} {ch'} now e i quiet same p q = record {
    outstanding = rw (p, q) i.outstanding;
    requested = omega (arith, i.requested, p, same);
    counted =
        to_counted timeout ((now, e) ∷ trace) _
          (λ d h. inr (quiet, counted_at timeout trace _ i.counted d (sym q ∙ h)));
  }

  request-IsArmed :
      (trace : List (ℕ × Event)) (ch : ControlChannel) (now : ℕ) (cmds : List ControlChannelCmd)
      → IsArmed timeout trace ch
      → requests ((now, data_ch_req true true) ∷ trace) < 2 ^ 32
      → IsArmed timeout ((now, data_ch_req true true) ∷ trace) (record ch {
        pending_data_ch = (ch.pending_data_ch + 1) % 2 ^ 32;
        data_ch_deadline = arm_if_none (now + timeout) ch.data_ch_deadline;
        sent = cmds;
      })
  request-IsArmed trace ch now cmds i few =
      let m : (ch.pending_data_ch + 1) % 2 ^ 32 ≡ ch.pending_data_ch + 1 =
        mod-eq_of_lt (omega (arith, few, i.requested)) in
      record {
        outstanding = rw m (λ h. omega arith, λ h. armed ch.data_ch_deadline);
        requested = rw m (omega (arith, i.requested));
        counted =
            to_counted timeout ((now, data_ch_req true true) ∷ trace) _
              (λ d h. by_deadline ch.data_ch_deadline refl d h);
      }
    where
      armed : (o : Option ℕ) → is_some (arm_if_none (now + timeout) o) ≡ true
      armed none = refl
      armed (some d) = refl

      by_deadline :
          (o : Option ℕ)
          → ch.data_ch_deadline ≡ o
          → (d : ℕ) → arm_if_none (now + timeout) o ≡ some d
          → ArmedIn timeout ((now, data_ch_req true true) ∷ trace) d
      by_deadline none q d h = inl (tt, cc)
      by_deadline (some x) q d h = inr (tt, counted_at timeout trace _ i.counted d (q ∙ h))

  arrived-IsArmed :
      (trace : List (ℕ × Event)) (ch : ControlChannel) (now : ℕ) (closed : Bool)
      → IsArmed timeout trace ch
      → IsArmed timeout ((now, data_ch_arrived true) ∷ trace) (record ch {
        arrived_rx_closed = closed;
        pending_data_ch = ch.pending_data_ch - 1;
        data_ch_deadline = if ltb 0 (ch.pending_data_ch - 1) then some (now + timeout) else none;
      })
  arrived-IsArmed trace ch now closed i = record {
    outstanding = ground arith;
    requested = omega (arith, i.requested);
    counted =
        to_counted timeout ((now, data_ch_arrived true) ∷ trace) _
          (λ d h. inl (tt, ground (arith, h)));
  }

  -- While the loop runs, its deadline is armed exactly when requests are outstanding, there are at
  -- most as many of those as were written, and an armed deadline lies the timeout after a request
  -- or an arrival since which no data channel has arrived. A channel that makes fewer than 2 ^ 32
  -- requests is meant.
  pub run-IsArmed :
      (trace : List (ℕ × Event)) (ch : ControlChannel)
      → requests trace < 2 ^ 32
      → run interval timeout trace ≡ some (running ch)
      → IsArmed timeout trace ch
  unfolding run step
  run-IsArmed [] ch few h = let e : start ≡ ch = cc in subst (IsArmed timeout []) e start-IsArmed
  run-IsArmed ((now, e) ∷ trace) ch few h =
      by_before (λ x q lt. run-IsArmed trace x lt q) (run interval timeout trace) refl e few h
    where
      by_before :
          ((x : ControlChannel)
            → run interval timeout trace ≡ some (running x)
            → requests trace < 2 ^ 32
            → IsArmed timeout trace x)
          → (o : Option Next) → run interval timeout trace ≡ o
          → (e : Event) → requests ((now, e) ∷ trace) < 2 ^ 32
          → then_step interval timeout now e o ≡ some (running ch)
          → IsArmed timeout ((now, e) ∷ trace) ch
      by_before ih none q e few h = cc
      by_before ih (some ended) q e few h = cc
      by_before ih (some stuck) q e few h = cc
      by_before ih (some (running x)) q (data_ch_req true true) few h =
          let r =
            request-IsArmed trace x now (x.sent ++ create_data_channel ∷ [])
              (ih x q (omega (arith, few))) few in
          subst (IsArmed timeout _) (cc) r
      by_before ih (some (running x)) q (data_ch_req true false) few h = cc
      by_before ih (some (running x)) q (data_ch_req false _) few h = cc
      by_before ih (some (running x)) q (data_ch_arrived true) few h =
          elim (Bool-cases x.arrived_rx_closed) [
            | inl t ↦ let bad : ◌≡◌ {A = Option Next} none (some (running ch)) = rw t at h in cc
            | inr t ↦
                subst (IsArmed timeout _) (running-inj (rw t at h))
                  (arrived-IsArmed trace x now false (ih x q few))
          ]
      by_before ih (some (running x)) q (data_ch_arrived false) few h =
          elim (Bool-cases x.arrived_rx_closed) [
            | inl t ↦ let bad : ◌≡◌ {A = Option Next} none (some (running ch)) = rw t at h in cc
            | inr t ↦
                subst (IsArmed timeout _) (running-inj (rw t at h))
                  (still-IsArmed now (data_ch_arrived false) (ih x q few) tt refl refl refl)
          ]
      by_before ih (some (running x)) q deadline_fired few h =
          absurd (fire-stops now ch x.data_ch_deadline h)
      by_before ih (some (running x)) q (heartbeat_due true) few h =
          elim (Bool-cases (interval == 0)) [
            | inl t ↦ let bad : ◌≡◌ {A = Option Next} none (some (running ch)) = rw t at h in cc
            | inr t ↦
                subst (IsArmed timeout _) (running-inj (rw t at h))
                  (still-IsArmed now (heartbeat_due true) (ih x q few) tt refl refl refl)
          ]
      by_before ih (some (running x)) q (heartbeat_due false) few h =
          elim (Bool-cases (interval == 0)) [
            | inl t ↦ let bad : ◌≡◌ {A = Option Next} none (some (running ch)) = rw t at h in cc
            | inr t ↦
                let bad : ◌≡◌ {A = Option Next} (some ended) (some (running ch)) = rw t at h in cc
          ]
      by_before ih (some (running x)) q shutdown few h = cc

  fired-overdue :
      (trace : List (ℕ × Event)) (now : ℕ) (x : ControlChannel)
      → IsArmed timeout trace x
      → fire now x.data_ch_deadline ≡ some stuck
      → (d : ℕ) × ArmedIn timeout trace d × (d ≤ now)
  fired-overdue trace now x i h = by_deadline x.data_ch_deadline refl h
    where
      by_deadline :
          (o : Option ℕ)
          → x.data_ch_deadline ≡ o
          → fire now o ≡ some stuck
          → (d : ℕ) × ArmedIn timeout trace d × (d ≤ now)
      by_deadline none q h = cc
      by_deadline (some d) q h = elim (Bool-cases (leb d now)) [
        | inl t ↦ (d, counted_at timeout trace _ i.counted d q, ground arith)
        | inr t ↦ let bad : ◌≡◌ {A = Option Next} none (some stuck) = rw t at h in cc
      ]

  -- The loop fails with "no data channel arrived" only when its deadline fires, and only when a
  -- request, or an arrival, lies at least the timeout back and no data channel has arrived since. A
  -- channel that makes fewer than 2 ^ 32 requests is meant.
  pub run-stuck :
      (trace : List (ℕ × Event)) (now : ℕ) (e : Event)
      → requests trace < 2 ^ 32
      → run interval timeout ((now, e) ∷ trace) ≡ some stuck
      → (e ≡ deadline_fired) × ((d : ℕ) × ArmedIn timeout trace d × (d ≤ now))
  unfolding run step
  run-stuck trace now e few h = by_before (run interval timeout trace) refl e h
    where
      by_before :
          (o : Option Next)
          → run interval timeout trace ≡ o
          → (e : Event) → then_step interval timeout now e o ≡ some stuck
          → (e ≡ deadline_fired) × ((d : ℕ) × ArmedIn timeout trace d × (d ≤ now))
      by_before none q e h = cc
      by_before (some ended) q e h = cc
      by_before (some stuck) q e h = cc
      by_before (some (running x)) q (data_ch_req true true) h = cc
      by_before (some (running x)) q (data_ch_req true false) h = cc
      by_before (some (running x)) q (data_ch_req false _) h = cc
      by_before (some (running x)) q (data_ch_arrived true) h = ground arith
      by_before (some (running x)) q (data_ch_arrived false) h = ground arith
      by_before (some (running x)) q deadline_fired h =
          (refl, fired-overdue trace now x (run-IsArmed trace x few q) h)
      by_before (some (running x)) q (heartbeat_due true) h = ground arith
      by_before (some (running x)) q (heartbeat_due false) h = ground arith
      by_before (some (running x)) q shutdown h = cc
