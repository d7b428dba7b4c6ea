-- ===== src/Server/Pool/Progress.antt =====
-- The pool of src/server.rs serves its visitors in order, and asks for enough data channels.
use mathlib.Core.Path.{subst}
use mathlib.Core.List.{append-nil, append_assoc, map-append}
use rathole_x.Base.{
  ℕ, suc, ◌+◌, ◌≡◌, refl, ap, sym, Bool, true, false, Option, none, some, List, [], ◌∷◌, ◌++◌, map,
  length, arith,
}
use rathole_x.Server.Pool.{
  Place, idle, serving, ended, Pool, Event, visitor_accepted, visitor_sent, listener_stopped,
  channel_arrived, visitor_received, channel_received, channels_closed, visitors_closed,
}

abbrev pub channel : ℕ × Option ℕ → ℕ
channel x = x.0

-- The visitors that the channels taken serve, in their order.
abbrev pub served : List (ℕ × Option ℕ) → List ℕ
served [] = []
served ((c, some v) ∷ taken) = v ∷ served taken
served ((c, none) ∷ taken) = served taken

abbrev pub broken : List (ℕ × Option ℕ) → ℕ
broken [] = 0
broken ((c, some v) ∷ taken) = broken taken
broken ((c, none) ∷ taken) = suc (broken taken)

pub served-append : (xs ys : List (ℕ × Option ℕ)) → served (xs ++ ys) ≡ served xs ++ served ys
served-append [] ys = refl
served-append ((c, some v) ∷ xs) ys = ap (◌∷◌ v) (served-append xs ys)
served-append ((c, none) ∷ xs) ys = served-append xs ys

pub broken-append : (xs ys : List (ℕ × Option ℕ)) → broken (xs ++ ys) ≡ broken xs + broken ys
broken-append [] ys = omega arith
broken-append ((c, some v) ∷ xs) ys = broken-append xs ys
broken-append ((c, none) ∷ xs) ys = omega (arith, broken-append xs ys)

abbrev pub held : Place → List ℕ
held idle = []
held (serving v) = v ∷ []
held ended = []

abbrev pub pending : Option ℕ → List ℕ
pending none = []
pending (some v) = v ∷ []

-- The visitors for whom a data channel was asked, in the order in which they came.
abbrev pub came : List Event → List ℕ
came [] = []
came (visitor_accepted v true ∷ es) = v ∷ came es
came (visitor_accepted v false ∷ es) = came es
came (visitor_sent ∷ es) = came es
came (listener_stopped ∷ es) = came es
came (channel_arrived c ∷ es) = came es
came (visitor_received ∷ es) = came es
came (channel_received _ _ ∷ es) = came es
came (channels_closed ∷ es) = came es
came (visitors_closed ∷ es) = came es

-- The data channels that arrived, in order.
abbrev pub arrived : List Event → List ℕ
arrived [] = []
arrived (channel_arrived c ∷ es) = c ∷ arrived es
arrived (visitor_accepted _ _ ∷ es) = arrived es
arrived (visitor_sent ∷ es) = arrived es
arrived (listener_stopped ∷ es) = arrived es
arrived (visitor_received ∷ es) = arrived es
arrived (channel_received _ _ ∷ es) = arrived es
arrived (channels_closed ∷ es) = arrived es
arrived (visitors_closed ∷ es) = arrived es

-- Those whom the pool still has.
abbrev pub waiting : Pool → List ℕ
waiting s = held s.place ++ (s.visitors ++ pending s.accepted)

abbrev pub IsRunning : Place → Type 0
IsRunning ended = ⊥
IsRunning _ = Unit

pub some-eq : {a b : Pool} → ◌≡◌ {A = Option Pool} (some a) (some b) → a ≡ b
some-eq h = cc

-- What one step does to the visitors and to the counts.
pub record Moves (s : Pool) (e : Event) (r : Pool) : Type 0 where
  pub running : IsRunning s.place
  pub in_order : served r.taken ++ waiting r ≡ (served s.taken ++ waiting s) ++ came (e ∷ [])
  pub asked : r.requests + broken s.taken ≡ s.requests + length (came (e ∷ [])) + broken r.taken
  pub used :
      map channel r.taken ++ r.channels ≡ (map channel s.taken ++ s.channels) ++ arrived (e ∷ [])

pub stuck : {s r : Pool} {e : Event} → ◌≡◌ {A = Option Pool} none (some r) → Moves s e r
stuck h = cc

pub ruleset list_laws = (append-nil, append_assoc, map-append, served-append, broken-append)

module _ (s : Pool) where
  pub accepted-Moves :
      (v : ℕ)
      → IsRunning s.place
      → s.accepted ≡ none
      → Moves s
          (visitor_accepted v true)
          (record s { accepted = some v; requests = suc s.requests })
  accepted-Moves v on free = record {
    running = on;
    in_order = rw free (simp list_laws);
    asked = omega arith;
    used = simp list_laws;
  }

  -- A step that changes no queue and asks for nothing.
  pub still-Moves :
      (b : Bool) (e : Event)
      → IsRunning s.place
      → came (e ∷ []) ≡ []
      → arrived (e ∷ []) ≡ []
      → Moves s e (record s { listening = b })
  still-Moves b e on nobody nothing = record {
    running = on;
    in_order = rw nobody (simp list_laws);
    asked = rw nobody (omega arith);
    used = rw nothing (simp list_laws);
  }

  pub sent-Moves :
      (v : ℕ)
      → IsRunning s.place
      → s.accepted ≡ some v
      → Moves s visitor_sent (record s { accepted = none; visitors = s.visitors ++ v ∷ [] })
  sent-Moves v on has = record {
    running = on;
    in_order = rw has (simp list_laws);
    asked = omega arith;
    used = simp list_laws;
  }

  pub arrived-Moves :
      (c : ℕ)
      → IsRunning s.place
      → Moves s (channel_arrived c) (record s { channels = s.channels ++ c ∷ [] })
  arrived-Moves c on = record {
    running = on;
    in_order = simp list_laws;
    asked = omega arith;
    used = simp list_laws;
  }

  pub received-Moves :
      (v : ℕ) (rest : List ℕ)
      → s.place ≡ idle
      → s.visitors ≡ v ∷ rest
      → Moves s visitor_received (record s { place = serving v; visitors = rest })
  received-Moves v rest at_idle has = record {
    running = subst IsRunning (sym at_idle) tt;
    in_order = rw (at_idle, has) (simp list_laws);
    asked = omega arith;
    used = simp list_laws;
  }

  pub paired-Moves :
      (v c : ℕ) (rest : List ℕ) (asked : Bool)
      → s.place ≡ serving v
      → s.channels ≡ c ∷ rest
      → Moves s
          (channel_received true asked)
          (record s { place = idle; channels = rest; taken = s.taken ++ (c, some v) ∷ [] })
  paired-Moves v c rest asked at_visitor has = record {
    running = subst IsRunning (sym at_visitor) tt;
    in_order = rw at_visitor (simp list_laws);
    asked = rw (broken-append s.taken ((c, some v) ∷ [])) (omega arith);
    used = rw has (simp list_laws);
  }

  pub broken-Moves :
      (v c : ℕ) (rest : List ℕ)
      → s.place ≡ serving v
      → s.channels ≡ c ∷ rest
      → Moves s (channel_received false true) (record s {
        channels = rest;
        requests = suc s.requests;
        taken = s.taken ++ (c, none) ∷ [];
      })
  broken-Moves v c rest at_visitor has = record {
    running = subst IsRunning (sym at_visitor) tt;
    in_order = simp list_laws;
    asked = rw (broken-append s.taken ((c, none) ∷ [])) (omega arith);
    used = rw has (simp list_laws);
  }
