-- ===== src/Server/Pool/Served.antt =====
-- What any run of the listener and the pool of src/server.rs keeps.
use mathlib.Core.Path.{subst}
use mathlib.Core.List.{append_assoc}
use rathole_x.Base.{
  ℕ, ◌+◌, ◌≡◌, refl, sym, ap, true, false, Option, none, some, List, [], ◌∷◌, ◌++◌, map, length,
  length-append, arith,
}
use rathole_x.Server.{tcp_pool_size}
use rathole_x.Server.Pool.{
  idle, serving, Pool, Event, visitor_accepted, visitor_sent, listener_stopped, channel_arrived,
  visitor_received, channel_received, channels_closed, visitors_closed, start, step, and_then, run,
}
use rathole_x.Server.Pool.Steps.{step-Moves}
use rathole_x.Server.Pool.Progress.{
  channel, served, broken, came, arrived, waiting, IsRunning, some-eq, Moves, list_laws,
}

came-cons : (e : Event) (es : List Event) → came (e ∷ es) ≡ came (e ∷ []) ++ came es
came-cons (visitor_accepted v true) es = refl
came-cons (visitor_accepted v false) es = refl
came-cons visitor_sent es = refl
came-cons listener_stopped es = refl
came-cons (channel_arrived c) es = refl
came-cons visitor_received es = refl
came-cons (channel_received _ _) es = refl
came-cons channels_closed es = refl
came-cons visitors_closed es = refl

arrived-cons : (e : Event) (es : List Event) → arrived (e ∷ es) ≡ arrived (e ∷ []) ++ arrived es
arrived-cons (visitor_accepted _ _) es = refl
arrived-cons visitor_sent es = refl
arrived-cons listener_stopped es = refl
arrived-cons (channel_arrived c) es = refl
arrived-cons visitor_received es = refl
arrived-cons (channel_received _ _) es = refl
arrived-cons channels_closed es = refl
arrived-cons visitors_closed es = refl

record Runs (s : Pool) (es : List Event) (r : Pool) : Type 0 where
  pub running : IsRunning s.place
  pub in_order : served r.taken ++ waiting r ≡ (served s.taken ++ waiting s) ++ came es
  pub asked : r.requests + broken s.taken ≡ s.requests + length (came es) + broken r.taken
  pub used : map channel r.taken ++ r.channels ≡ (map channel s.taken ++ s.channels) ++ arrived es

Moves-Runs :
    (e : Event) (es : List Event) {s m r : Pool} → Moves s e m → Runs m es r → Runs s (e ∷ es) r
Moves-Runs e es one rest = record {
  running = one.running;
  in_order =
      rw (rest.in_order, one.in_order, came-cons e es) (append_assoc _ (came (e ∷ [])) (came es));
  asked =
      rw (came-cons e es)
        (omega (arith, one.asked, rest.asked, length-append (came (e ∷ [])) (came es)));
  used =
      rw (rest.used, one.used, arrived-cons e es) (append_assoc _ (arrived (e ∷ [])) (arrived es));
}

run-Runs : (es : List Event) {s r : Pool} → IsRunning r.place → run es s ≡ some r → Runs s es r
unfolding run
run-Runs [] {s} {r} on h =
    let e : s ≡ r = some-eq h in
    subst (Runs s []) e (record {
      running = subst (λ x. IsRunning x.place) (sym e) on;
      in_order = simp list_laws;
      asked = omega arith;
      used = simp list_laws;
    })
run-Runs (e ∷ es) {s} {r} on h = by_step (λ m q. run-Runs es {s = m} {r = r} on q) (step e s) refl h
  where
    by_step :
        ((m : Pool) → run es m ≡ some r → Runs m es r)
        → (o : Option Pool) → step e s ≡ o
        → and_then o (run es) ≡ some r
        → Runs s (e ∷ es) r
    by_step later none q h = cc
    by_step later (some m) q h =
        let rest = later m h in Moves-Runs e es (step-Moves {s = s} {r = m} e rest.running q) rest

pub run-served :
    (es : List Event) (r : Pool)
    → IsRunning r.place
    → run es start ≡ some r
    → (served r.taken ++ waiting r ≡ came es)
      × (r.requests ≡ tcp_pool_size + length (came es) + broken r.taken)
      × (map channel r.taken ++ r.channels ≡ arrived es)
run-served es r on h =
    let i = run-Runs es {s = start} {r = r} on h in (i.in_order, omega (arith, i.asked), i.used)

length-taken : (xs : List (ℕ × Option ℕ)) → length (map channel xs) ≡ length (served xs) + broken xs
length-taken [] = refl
length-taken ((c, some v) ∷ xs) = omega (arith, length-taken xs)
length-taken ((c, none) ∷ xs) = omega (arith, length-taken xs)

-- No visitor waits in vain: once the pool holds a visitor and every data channel that was asked for
-- has arrived, there is a channel to take, and if the command can be written to it, it serves that
-- visitor.
pub run-progress :
    (es : List Event) (r : Pool) (v : ℕ)
    → run es start ≡ some r
    → r.place ≡ serving v
    → r.requests ≡ length (arrived es)
    → (c : ℕ) × (s : Pool) × (step (channel_received true true) r ≡ some s)
      × (s.taken ≡ r.taken ++ (c, some v) ∷ [])
unfolding step
run-progress es r v h here all_came =
    by_channels (run-served es r (subst IsRunning (sym here) tt) h) r.channels refl
  where
    by_channels :
        (served r.taken ++ waiting r ≡ came es)
          × (r.requests ≡ tcp_pool_size + length (came es) + broken r.taken)
          × (map channel r.taken ++ r.channels ≡ arrived es)
        → (cs : List ℕ) → r.channels ≡ cs
        → (c : ℕ) × (s : Pool) × (step (channel_received true true) r ≡ some s)
          × (s.taken ≡ r.taken ++ (c, some v) ∷ [])
    by_channels (in_order, asked, used) [] q =
        let none_left : length r.channels ≡ 0 = ap length q in
        absurd (
          omega (
            arith,
            ap length in_order,
            asked,
            ap length used,
            all_came,
            none_left,
            length-append (served r.taken) (waiting r),
            length-append (map channel r.taken) r.channels,
            length-taken r.taken,
          ))
    by_channels counts (c ∷ rest) q = (
      c,
      record r { place = idle; channels = rest; taken = r.taken ++ (c, some v) ∷ [] },
      rw (here, q) refl,
      refl,
    )
