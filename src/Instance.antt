-- ===== src/Instance.antt =====
-- src/lib.rs: which role a configuration runs in, and the loop that keeps one instance running while
-- the configuration changes.
pub mod Generations
pub mod Tests
use rathole_x.Base.{
  Bool, true, false, ◌&&◌, Option, none, some, List, [], ◌∷◌, if◌then◌else◌, is_some,
}
use rathole_x.Config.{Config, ServerConfig, ClientConfig}
use rathole_x.Watcher.{ConfigChange, general, server_change, client_change}

pub data RunMode : Type 0 where
  server_mode client_mode ambiguous undetermine : RunMode

-- `determine_run_mode`
unfoldable pub determine_run_mode : Config → Bool → Bool → RunMode
determine_run_mode config client server =
    if client && server
    then undetermine
    else if client
    then client_mode
    else if server
    then server_mode
    else if is_some config.client && is_some config.server
    then ambiguous
    else if is_some config.client
    then client_mode
    else if is_some config.server
    then server_mode
    else undetermine

-- What `run_instance` does: an error, a panic of the `expect`, or a role with its section.
pub data Run : Type 0 where
  ambiguous_roles : Run
  no_role : Run
  panicked : Run
  runs_client : ClientConfig → Run
  runs_server : ServerConfig → Run

abbrev pub with_client : Option ClientConfig → Run
with_client none = panicked
with_client (some c) = runs_client c

abbrev pub with_server : Option ServerConfig → Run
with_server none = panicked
with_server (some c) = runs_server c

abbrev pub in_mode : Config → RunMode → Run
in_mode config ambiguous = ambiguous_roles
in_mode config undetermine = no_role
in_mode config client_mode = with_client config.client
in_mode config server_mode = with_server config.server

-- `run_instance`, up to the role that it runs.
unfoldable pub run_instance : Config → Bool → Bool → Run
unfolding determine_run_mode
run_instance config client server = in_mode config (determine_run_mode config client server)

-- What the loop of `run_with_config` does to the instances: it starts one, stops and joins it, or
-- sends it a change.
pub data Action : Type 0 where
  start : Config → Action
  stop : Action
  update : ConfigChange → Action

abbrev pub forward : Bool → ConfigChange → List Action → List Action
forward true e rest = update e ∷ rest
forward false e rest = rest

-- The loop of `run_with_config`, and the teardown behind it; the flag is `last_instance`.
unfoldable pub instance_loop : Bool → List ConfigChange → List Action
instance_loop true [] = stop ∷ []
instance_loop false [] = []
instance_loop true (general config ∷ rest) = stop ∷ start config ∷ instance_loop true rest
instance_loop false (general config ∷ rest) = start config ∷ instance_loop true rest
instance_loop running (server_change e ∷ rest) =
    forward running (server_change e) (instance_loop running rest)
instance_loop running (client_change e ∷ rest) =
    forward running (client_change e) (instance_loop running rest)
