-- ===== src/ConfigEdit/Remove/Tests.antt =====
-- Removing one of the two services of a server.
use rathole_x.Base.{◌≡◌, refl, true, some, text_eq, codes}
use rathole_x.ConfigEdit.{server, done}
use rathole_x.ConfigEdit.Toml.{Toml}
use rathole_x.ConfigEdit.Sample.{text, table, Fields, nil, field, sample_toml}
use rathole_x.ConfigEdit.Add.{File, content}
use rathole_x.ConfigEdit.Remove.{run_remove}
use rathole_x.ConfigEdit.Remove.Removed.{Ran, run_remove-Ran}

abbrev entry : Fields
entry = field (codes "bind_addr") (text (codes "0.0.0.0:22")) nil

abbrev toml : Toml
toml = sample_toml (
    field (codes "server")
      (table (
        field (codes "services")
          (table (field (codes "ssh") (table entry) (field (codes "web") (table entry) nil))) nil))
      nil)

abbrev file : File
file = content (codes "old")

run_remove_run :
    run_remove toml true (codes "ssh") file ≡ (done (some server), content (codes "server\n"))
unfolding run_remove
run_remove_run = refl

run_remove-Ran_example : Ran toml (codes "ssh") file (run_remove toml true (codes "ssh") file)
run_remove-Ran_example = run_remove-Ran toml true (codes "ssh") file
