-- ===== src/Watcher/Loop.antt =====
-- The loop of src/config_watcher.rs: files that are invalid, or that say what is already known, ask
-- nothing of the instance.
use rathole_x.Base.{◌≡◌, refl, none, some, List, [], ◌∷◌, ◌++◌, nat_eq, text_eq, All}
use rathole_x.Config.{Config}
use rathole_x.Watcher.{
  ConfigChange, FileEvent, rescan, notifications_ended, shutdown, flatten, config_watcher,
  calculate_events, server_service_eq, client_service_eq, transport_eq, option_text_eq,
  option_bool_eq,
}
use rathole_x.Watcher.Same.{
  SameConfig, SameConfig-trans, SameConfig-both, SameConfig-refl, IsMaps, SameConfig-IsMaps,
  calculate_events_same,
}

-- A file that is invalid or says the same as configuration `c`.
abbrev pub Says : Config → FileEvent → Type 0
Says c (rescan none) = Unit
Says c (rescan (some new)) = SameConfig c new
Says c notifications_ended = Unit
Says c shutdown = Unit

Says-both :
    (c d : Config) (events : List FileEvent)
    → SameConfig c d
    → All (Says c) events
    → All (Says d) events
Says-both c d [] h a = tt
Says-both c d (rescan none ∷ rest) h a = (tt, Says-both c d rest h a.1)
Says-both c d (rescan (some new) ∷ rest) h a =
    (SameConfig-both c d new h a.0, Says-both c d rest h a.1)
Says-both c d (notifications_ended ∷ rest) h a = (tt, Says-both c d rest h a.1)
Says-both c d (shutdown ∷ rest) h a = (tt, Says-both c d rest h a.1)

-- However often the file is written, while it is invalid or says the same as the configuration that
-- the instance runs, with the services of each section in any order, the watcher sends no event, and
-- what it remembers still says the same. A map has no key twice.
pub config_watcher-same :
    (c : Config) (events : List FileEvent)
    → IsMaps c
    → All (Says c) events
    → ((config_watcher c events).0 ≡ []) × SameConfig c ((config_watcher c events).1)
unfolding config_watcher
config_watcher-same c [] u a = (refl, SameConfig-refl c u)
config_watcher-same c (rescan none ∷ rest) u a = config_watcher-same c rest u a.1
config_watcher-same c (rescan (some new) ∷ rest) u a =
    let (silent, same) =
      config_watcher-same new rest (SameConfig-IsMaps c new a.0) (Says-both c new rest a.0 a.1) in
    (
      rw (calculate_events_same c new u a.0, silent) refl,
      SameConfig-trans c new ((config_watcher new rest).1) a.0 same,
    )
config_watcher-same c (notifications_ended ∷ rest) u a = (refl, SameConfig-refl c u)
config_watcher-same c (shutdown ∷ rest) u a = (refl, SameConfig-refl c u)

-- The valid configurations that the loop reads before it ends.
abbrev pub valid_configs : List FileEvent → List Config
valid_configs [] = []
valid_configs (rescan none ∷ rest) = valid_configs rest
valid_configs (rescan (some new) ∷ rest) = new ∷ valid_configs rest
valid_configs (notifications_ended ∷ rest) = []
valid_configs (shutdown ∷ rest) = []

-- Each change, against the valid configuration before it.
abbrev pub changes : Config → List Config → List ConfigChange
changes old [] = []
changes old (new ∷ rest) = flatten (calculate_events old new) ++ changes new rest

abbrev pub latest : Config → List Config → Config
latest old [] = old
latest old (new ∷ rest) = latest new rest

-- The watcher sends, for each valid configuration in turn, the events against the valid one before
-- it, and remembers the latest; invalid files between them change neither.
pub config_watcher-valid_configs :
    (old : Config) (events : List FileEvent)
    → config_watcher old events
      ≡ (changes old (valid_configs events), latest old (valid_configs events))
unfolding config_watcher
config_watcher-valid_configs old [] = refl
config_watcher-valid_configs old (rescan none ∷ rest) = config_watcher-valid_configs old rest
config_watcher-valid_configs old (rescan (some new) ∷ rest) =
    rw (config_watcher-valid_configs new rest) refl
config_watcher-valid_configs old (notifications_ended ∷ rest) = refl
config_watcher-valid_configs old (shutdown ∷ rest) = refl
