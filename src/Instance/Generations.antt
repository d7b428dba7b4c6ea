-- ===== src/Instance/Generations.antt =====
-- The instances that src/lib.rs runs: one at a time, each in the role of its configuration.
use rathole_x.Base.{
  ◌≡◌, ◌≢◌, ◌↔◌, ◌⊎◌, refl, Bool, true, false, Option, none, some, List, [], ◌∷◌, is_some, arith,
}
use rathole_x.Config.{Config}
use rathole_x.Watcher.{ConfigChange, general, server_change, client_change}
use rathole_x.Instance.{
  Run, ambiguous_roles, no_role, panicked, runs_client, runs_server, determine_run_mode,
  run_instance, Action, start, stop, update, instance_loop,
}

-- A sequence of actions in which an instance starts only while none runs, stops and gets changes
-- only while it runs, and none is left at the end.
unfoldable pub one_at_a_time : Bool → List Action → Bool
one_at_a_time true [] = false
one_at_a_time false [] = true
one_at_a_time true (start _ ∷ rest) = false
one_at_a_time false (start _ ∷ rest) = one_at_a_time true rest
one_at_a_time true (stop ∷ rest) = one_at_a_time false rest
one_at_a_time false (stop ∷ rest) = false
one_at_a_time true (update _ ∷ rest) = one_at_a_time true rest
one_at_a_time false (update _ ∷ rest) = false

-- The updates that reach an instance, each with the configuration that the instance started with.
abbrev pub deliveries : Option Config → List Action → List (Config × ConfigChange)
deliveries c [] = []
deliveries c (start d ∷ rest) = deliveries (some d) rest
deliveries c (stop ∷ rest) = deliveries none rest
deliveries none (update e ∷ rest) = deliveries none rest
deliveries (some c) (update e ∷ rest) = (c, e) ∷ deliveries (some c) rest

-- Each service change, with the latest whole configuration before it.
abbrev pub addressed : Config → List ConfigChange → List (Config × ConfigChange)
addressed c [] = []
addressed c (general d ∷ rest) = addressed d rest
addressed c (server_change e ∷ rest) = (c, server_change e) ∷ addressed c rest
addressed c (client_change e ∷ rest) = (c, client_change e) ∷ addressed c rest

loop-one_at_a_time :
    (running : Bool) (events : List ConfigChange)
    → one_at_a_time running (instance_loop running events) ≡ true
unfolding one_at_a_time instance_loop
loop-one_at_a_time true [] = refl
loop-one_at_a_time false [] = refl
loop-one_at_a_time true (general c ∷ rest) = loop-one_at_a_time true rest
loop-one_at_a_time false (general c ∷ rest) = loop-one_at_a_time true rest
loop-one_at_a_time true (server_change e ∷ rest) = loop-one_at_a_time true rest
loop-one_at_a_time false (server_change e ∷ rest) = loop-one_at_a_time false rest
loop-one_at_a_time true (client_change e ∷ rest) = loop-one_at_a_time true rest
loop-one_at_a_time false (client_change e ∷ rest) = loop-one_at_a_time false rest

loop-addressed :
    (c : Config) (events : List ConfigChange)
    → deliveries (some c) (instance_loop true events) ≡ addressed c events
unfolding instance_loop
loop-addressed c [] = refl
loop-addressed c (general d ∷ rest) = loop-addressed d rest
loop-addressed c (server_change e ∷ rest) = rw (loop-addressed c rest) refl
loop-addressed c (client_change e ∷ rest) = rw (loop-addressed c rest) refl

-- From the first configuration on, whatever changes follow: instances never overlap, none is left
-- at the end, and each service change reaches the instance of the latest whole configuration.
pub instance_loop-one_at_a_time :
    (c : Config) (events : List ConfigChange)
    → (one_at_a_time false (instance_loop false (general c ∷ events)) ≡ true)
      × (deliveries none (instance_loop false (general c ∷ events)) ≡ addressed c events)
unfolding instance_loop
instance_loop-one_at_a_time c events =
    (loop-one_at_a_time false (general c ∷ events), loop-addressed c events)

-- A role is chosen by its flag alone, or without flags by being the only section.
abbrev pub IsChosen : Bool → Bool → Bool → Bool → Type 0
IsChosen flag other section other_section =
    (other ≡ false) × ((flag ≡ true) ⊎ ((section ≡ true) × (other_section ≡ false)))

-- What a run says of the configuration and of the flags for the client and for the server.
abbrev pub Explains : Config → Bool → Bool → Run → Type 0
Explains config client server (runs_client c) =
    (config.client ≡ some c)
    × IsChosen client server (is_some config.client) (is_some config.server)
Explains config client server (runs_server s) =
    (config.server ≡ some s)
    × IsChosen server client (is_some config.server) (is_some config.client)
Explains config client server ambiguous_roles =
    (client ≡ false) × (server ≡ false) × (config.client ≢ none) × (config.server ≢ none)
Explains config client server no_role =
    ((client ≡ true) × (server ≡ true))
    ⊎ ((client ≡ false) × (server ≡ false) × (config.client ≡ none) × (config.server ≡ none))
Explains config client server panicked =
    ((client ≡ true) × (server ≡ false) × (config.client ≡ none))
    ⊎ ((client ≡ false) × (server ≡ true) × (config.server ≡ none))

-- A configuration runs as a client with its own section exactly when it has one and the client's flag
-- is given alone, or no flag is and it has no other section; as a server likewise. Two sections
-- without a flag are refused; no role is found exactly with both flags, or with no flag and no
-- section; and a flag given alone panics exactly when its section is missing.
pub run_instance-role :
    (config : Config) (client server : Bool) (r : Run)
    → (run_instance config client server ≡ r) ↔ Explains config client server r
unfolding run_instance determine_run_mode
run_instance-role config client server (runs_client d) = ground arith
run_instance-role config client server (runs_server d) = ground arith
run_instance-role config client server ambiguous_roles = ground arith
run_instance-role config client server no_role = ground arith
run_instance-role config client server panicked = ground arith
