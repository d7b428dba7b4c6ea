-- ===== src/Server/Reload.antt =====
-- Hot reload end to end: the events that src/config_watcher.rs computes from two configurations,
-- handled by src/server.rs, turn the services of the old configuration into those of the new one.
use rathole_x.Base.{
  ◌≡◌, refl, ap, ◌∙◌, inl, inr, Bool, true, false, not, ◌&&◌, ◌||◌, Option, none, some, List, [],
  ◌∷◌, ◌++◌, map, if◌then◌else◌, nat_eq, text_eq, Text, ◌==◌, ==-cases, Bool-cases, eq_self,
  is_some, is_none, All, select, option_beq,
}
use rathole_x.Base.Dict.{Dict, get, insert, get-insert, get-remove, IsMap, keys}
use rathole_x.Config.{ServerServiceConfig, ServerConfig}
use rathole_x.Watcher.{
  ConfigChange, server_change, ServerServiceChange, server_service_eq, server_instance,
  calculate_instance_config_events, gone, fresh, entry_value,
}
use rathole_x.Server.{Server, handle_hot_reload, generate_service_hashmap, service_hashmap}

abbrev member : Text → List Text → Bool
member x [] = false
member x (y ∷ ys) = y == x || member x ys

-- The events, handled one after the other.
unfoldable pub apply_changes : (Text → Text) → List ConfigChange → Server → Server
apply_changes sha [] s = s
apply_changes sha (e ∷ es) s = apply_changes sha es (handle_hot_reload sha e s)

-- A service that validation named by its key.
abbrev pub Named : Dict Text ServerServiceConfig → Type 0
Named [] = Unit
Named ((k, s) ∷ m) = (s.name ≡ k) × Named m

abbrev pub KeysIn {ℓ} : (Text → Type ℓ) → Dict Text ServerServiceConfig → Type ℓ
KeysIn P [] = Unit
KeysIn P ((k, s) ∷ m) = P k × KeysIn P m

abbrev found_or :
    Option ServerServiceConfig → Option ServerServiceConfig → Option ServerServiceConfig
found_or none o = o
found_or (some s) o = some s

abbrev kept :
    (Text × ServerServiceConfig → Bool)
    → Text
    → Option ServerServiceConfig
    → Option ServerServiceConfig
kept p name none = none
kept p name (some s) = if p (name, s) then some s else none

abbrev delete_event : Text → ConfigChange
delete_event name = server_change (ServerServiceChange.delete name)

abbrev add_event : Text × ServerServiceConfig → ConfigChange
add_event x = server_change (ServerServiceChange.add (entry_value x))

apply_changes-append :
    (sha : Text → Text) (a b : List ConfigChange) (s : Server)
    → apply_changes sha (a ++ b) s ≡ apply_changes sha b (apply_changes sha a s)
unfolding apply_changes
apply_changes-append sha [] b s = refl
apply_changes-append sha (e ∷ a) b s = apply_changes-append sha a b (handle_hot_reload sha e s)

select-KeysIn :
    (P : Text → Type 0) (p : Text × ServerServiceConfig → Bool) (m : Dict Text ServerServiceConfig)
    → Named m
    → KeysIn P m
    → Named (select p m) × KeysIn P (select p m)
select-KeysIn P p [] n a = (tt, tt)
select-KeysIn P p ((k, s) ∷ m) n a =
    let (n', a') = select-KeysIn P p m n.1 a.1 in
    elim (Bool-cases (p (k, s))) [ inl t ↦ rw t ((n.0, n'), (a.0, a')) | inr t ↦ rw t (n', a') ]

select-All :
    (P : Text → Type 0) (p : Text → Bool) (m : Dict Text ServerServiceConfig)
    → KeysIn P m
    → All P (select p (keys m))
select-All P p [] a = tt
select-All P p ((k, s) ∷ m) a = elim (Bool-cases (p k)) [
  | inl t ↦ rw t (a.0, select-All P p m a.1)
  | inr t ↦ rw t (select-All P p m a.1)
]

and_false : (b : Bool) → (b && false) ≡ false
and_false true = refl
and_false false = refl

-- Among the keys, the filter leaves those that it accepts.
member-select :
    (p : Text → Bool) (name : Text) (m : Dict Text ServerServiceConfig)
    → member name (select p (keys m)) ≡ (is_some (get name m) && p name)
unfolding get
member-select p name [] = refl
member-select p name ((k, s) ∷ m) = elim (==-cases k name) [
  | inl (t, e) ↦ elim (Bool-cases (p k)) [
    | inl q ↦ rw (q, t, ← e, q) refl
    | inr q ↦ rw (q, t, member-select p name m, ← e, q) (and_false (is_some (get k m)))
  ]
  | inr (t, e) ↦ elim (Bool-cases (p k)) [
    | inl q ↦ rw (q, t, member-select p name m) refl
    | inr q ↦ rw (q, t, member-select p name m) refl
  ]
]

-- The filtered additions: what the new configuration has, where the old has something else.
get-select :
    (p : Text × ServerServiceConfig → Bool) (name : Text) (m : Dict Text ServerServiceConfig)
    → IsMap m
    → get name (select p m) ≡ kept p name (get name m)
unfolding get
get-select p name [] u = refl
get-select p name ((k, s) ∷ m) u = elim (==-cases k name) [
  | inl (t, e) ↦ elim (Bool-cases (p (k, s))) [
    | inl q ↦ let q' : p (name, s) ≡ true = rw (← e) q in rw (q, t, q') refl
    | inr q ↦
        let q' : p (name, s) ≡ false = rw (← e) q in
        let absent : get name m ≡ none = rw (← e) u.0 in
        rw (q, t, q', get-select p name m u.1, absent) refl
  ]
  | inr (t, e) ↦ elim (Bool-cases (p (k, s))) [
    | inl q ↦ rw (q, t, get-select p name m u.1) refl
    | inr q ↦ rw (q, t, get-select p name m u.1) refl
  ]
]

IsMap-select :
    (p : Text × ServerServiceConfig → Bool) (m : Dict Text ServerServiceConfig)
    → IsMap m
    → IsMap (select p m)
IsMap-select p [] u = tt
IsMap-select p ((k, s) ∷ m) u = elim (Bool-cases (p (k, s))) [
  | inl q ↦ rw q ((get-select p k m u.1 ∙ ap (kept p k) u.0), IsMap-select p m u.1)
  | inr q ↦ rw q (IsMap-select p m u.1)
]

module _ (sha : Text → Text) (P : Text → Type 0)
    (inj : (a b : Text) → P a → P b → sha a ≡ sha b → a ≡ b) where
  sha-cases : (a b : Text) → P a → P b → (sha a == sha b) ≡ (a == b)
  sha-cases a b pa pb = elim (==-cases a b) [
    | inl (t, e) ↦ rw (t, e, eq_self (sha b)) refl
    | inr (t, d) ↦ elim (==-cases (sha a) (sha b)) [
      | inl (u, q) ↦ absurd (d (inj a b pa pb q))
      | inr (u, _) ↦ rw (t, u) refl
    ]
  ]

  deletions-services :
      (names : List Text) (s : Server) (name : Text)
      → P name
      → All P names
      → get (sha name) (apply_changes sha (map delete_event names) s).services
        ≡ (if member name names then none else get (sha name) s.services)
  unfolding apply_changes handle_hot_reload
  deletions-services [] s name p a = refl
  deletions-services (d ∷ names) s name p a =
      rw
        (
          deletions-services names (handle_hot_reload sha (delete_event d) s) name p a.1,
          get-remove (sha d) (sha name) s.services,
          sha-cases d name a.0 p,
        )
        (by_test (d == name) (member name names) (get (sha name) s.services))
    where
      by_test :
          (t u : Bool) (o : Option ServerServiceConfig)
          → (if u then none else if t then none else o) ≡ (if t || u then none else o)
      by_test true true o = refl
      by_test true false o = refl
      by_test false true o = refl
      by_test false false o = refl

  additions-services :
      (m : Dict Text ServerServiceConfig) (s : Server) (name : Text)
      → P name
      → KeysIn P m
      → Named m
      → IsMap m
      → get (sha name) (apply_changes sha (map add_event m) s).services
        ≡ found_or (get name m) (get (sha name) s.services)
  unfolding apply_changes handle_hot_reload get
  additions-services [] s name p a n u = refl
  additions-services ((k, c) ∷ m) s name p a n u =
      let ih =
        additions-services m (handle_hot_reload sha (add_event (k, c)) s) name p a.1 n.1 u.1 in
      let step : get (sha name) (insert (sha c.name) c s.services)
          ≡ (if k == name then some c else get (sha name) s.services) =
        ap (λ h. get (sha name) (insert (sha h) c s.services)) n.0
        ∙ get-insert (sha k) (sha name) c s.services
        ∙ ap (λ t. if t then some c else get (sha name) s.services) (sha-cases k name a.0 p) in
      elim (==-cases k name) [
        | inl (t, e) ↦
            let absent : get name m ≡ none = rw (← e) u.0 in rw (ih, step, t, absent) refl
        | inr (t, e) ↦ rw (ih, step, t) refl
      ]

  service_hashmap-get :
      (m ret : Dict Text ServerServiceConfig) (name : Text)
      → P name
      → KeysIn P m
      → IsMap m
      → get (sha name) (service_hashmap sha m ret) ≡ found_or (get name m) (get (sha name) ret)
  unfolding get
  service_hashmap-get [] ret name p a u = refl
  service_hashmap-get ((k, c) ∷ m) ret name p a u =
      let ih = service_hashmap-get m (insert (sha k) c ret) name p a.1 u.1 in
      let step : get (sha name) (insert (sha k) c ret)
          ≡ (if k == name then some c else get (sha name) ret) =
        get-insert (sha k) (sha name) c ret
        ∙ ap (λ t. if t then some c else get (sha name) ret) (sha-cases k name a.0 p) in
      elim (==-cases k name) [
        | inl (t, e) ↦
            let absent : get name m ≡ none = rw (← e) u.0 in rw (ih, step, t, absent) refl
        | inr (t, e) ↦ rw (ih, step, t) refl
      ]

  hashmap-get :
      (c : ServerConfig) (name : Text)
      → P name
      → KeysIn P c.services
      → IsMap c.services
      → get (sha name) (generate_service_hashmap sha c) ≡ get name c.services
  unfolding generate_service_hashmap get
  hashmap-get c name p a u =
      service_hashmap-get c.services [] name p a u ∙ by_found (get name c.services)
    where
      by_found : (o : Option ServerServiceConfig) → found_or o none ≡ o
      by_found none = refl
      by_found (some x) = refl

  section_events-services :
      (old new : Dict Text ServerServiceConfig) (s : Server) (name : Text)
      → IsMap new
      → KeysIn P old
      → KeysIn P new
      → Named new
      → P name
      → get (sha name) s.services ≡ get name old
      → get
          (sha name)
          (apply_changes sha
            (map delete_event (gone old new) ++ map add_event (fresh old new))
            s).services
        ≡ get name new
  section_events-services old new s name un ao an named p start =
      let is_gone : Text → Bool = λ n. is_none (get n new) in
      let is_fresh : Text × ServerServiceConfig → Bool =
        λ x. not (option_beq ◌==◌ (get (x.0) old) (some (x.1))) in
      let (fresh-named, fresh-keys) = select-KeysIn P is_fresh new named an in
      let middle = apply_changes sha (map delete_event (gone old new)) s in
      let added =
        additions-services (fresh old new) middle name p fresh-keys fresh-named
          (IsMap-select is_fresh new un) in
      let removed = deletions-services (gone old new) s name p (select-All P is_gone old ao) in
      rw
        (
          apply_changes-append sha (map delete_event (gone old new)) (map add_event (fresh old new))
              s,
          added,
          removed,
          get-select is_fresh name new un,
          member-select is_gone name old,
          start,
        )
        (by_found (get name old) (get name new) refl)
    where
      by_found :
          (a b : Option ServerServiceConfig)
          → get name old ≡ a
          → found_or
              (kept (λ x. not (option_beq ◌==◌ (get (x.0) old) (some (x.1)))) name b)
              (if is_some a && is_none b then none else a)
            ≡ b
      by_found none none q = refl
      by_found (some x) none q = refl
      by_found none (some y) q = rw q refl
      by_found (some x) (some y) q = elim (==-cases x y) [
        | inl (t, e) ↦ rw (q, t, e) refl
        | inr (t, e) ↦ rw (q, t) refl
      ]

  -- When two server sections differ in their services only, handling the events that the watcher
  -- computes turns the table of the old services into one that looks up every service name as the
  -- table of the new services does: removed ones are gone, changed ones are replaced, the others
  -- stay. The names of the services (those with `P`) have distinct digests, a map has no key
  -- twice, and validation has put each service's name into it.
  pub reload-services :
      (old new : ServerConfig) (events : List ConfigChange) (s : Server) (name : Text)
      → IsMap old.services
      → IsMap new.services
      → KeysIn P old.services
      → KeysIn P new.services
      → Named new.services
      → calculate_instance_config_events ServerServiceConfig old new ≡ some events
      → s.services ≡ generate_service_hashmap sha old
      → P name
      → get (sha name) (apply_changes sha events s).services
        ≡ get (sha name) (generate_service_hashmap sha new)
  unfolding calculate_instance_config_events
  reload-services old new events s name uo un ao an named computed start p =
      let begin : get (sha name) s.services ≡ get name old.services =
        rw start (hashmap-get old name p ao uo) in
      elim (Bool-cases (server_instance.equal_without_service old new)) [
        | inl t ↦
            let e : some (
                  map delete_event (gone old.services new.services)
                  ++ map add_event (fresh old.services new.services))
                ≡ some events =
              rw t at computed in
            let same : map delete_event (gone old.services new.services)
                  ++ map add_event (fresh old.services new.services)
                ≡ events =
              cc in
            rw (← same, hashmap-get new name p an un)
              (section_events-services old.services new.services s name un ao an named p begin)
        | inr t ↦ let bad : none ≡ some events = rw t at computed in cc
      ]
