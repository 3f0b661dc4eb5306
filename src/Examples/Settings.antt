-- ===== src/Examples/Settings.antt =====
-- Tables of settings as association lists, and programs that are started with them.
use Prim.Native.String.{String}
use text.Mathlib.Text.{◌==◌ as str_eq}
use hnet.Prelude.{ℕ, ◌≡◌, refl, List, [], ◌∷◌, Option, none, some, if◌then◌else◌}
use hnet.Prelude.Int.{ℤ, pos, ◌==ℤ◌}
use hnet.Prelude.Results.{Result, ok, err}
use hnet.Five.Config.{Toml, IsToml, config_save, config_load, load_value}
use hnet.Five.Program.{returned, setup_and_run, exit_code}
use hnet.Programs.Settings.{
  ServerConfig, UdpClientConfig, ClientConfig, OldServerConfig, server_fields, udp_client_fields,
  client_fields, old_server_fields, server_defaults, udp_client_defaults, client_defaults,
  old_server_defaults,
}
use hnet.Programs.Settings.Saved.{config_load-config_save}

mutual
  data Node : Type 0 where
    words : List ℕ → Node
    int : ℤ → Node
    table : Table → Node

  data Table : Type 0 where
    blank : Table
    entry : String → Node → Table → Table

abbrev find : String → Table → Option Node
find m blank = none
find m (entry n v tbl) = if str_eq n m then some v else find m tbl

abbrev as_string : Node → Option (List ℕ)
as_string (words x) = some x
as_string (int x) = none
as_string (table x) = none

abbrev as_int : Node → Option ℤ
as_int (words x) = none
as_int (int x) = some x
as_int (table x) = none

abbrev as_table : Node → Option Table
as_table (words x) = none
as_table (int x) = none
as_table (table x) = some x

abbrev toml : Toml
toml = record {
  Table = Table;
  Node = Node;
  empty = blank;
  find = find;
  put = entry;
  of_string = words;
  of_int = int;
  of_table = table;
  as_string = as_string;
  as_int = as_int;
  as_table = as_table;
}

abbrev toml_IsToml : IsToml toml
toml_IsToml = record {
  find-put = λ n m v tbl. refl;
  find-empty = λ n. refl;
  string_back = λ x. refl;
  int_back = λ x. refl;
  table_back = λ x. refl;
}

abbrev server : ServerConfig
server = record server_defaults { port = pos 7_000 }

abbrev old_server : OldServerConfig
old_server = record old_server_defaults { port = pos 7_001 }

abbrev udp_client : UdpClientConfig
udp_client = record udp_client_defaults { data_to_send = 104 ∷ 105 ∷ [] }

abbrev client : ClientConfig
client = record client_defaults { server = record { host = 58 ∷ 58 ∷ 49 ∷ []; port = pos 7 } }

config_load-config_save_example :
    (config_load
        (server_fields toml)
        (config_save (server_fields toml) server blank)
        server_defaults
      ≡ some server)
    × (config_load
          (old_server_fields toml)
          (config_save (old_server_fields toml) old_server blank)
          old_server_defaults
        ≡ some old_server)
    × (config_load
          (udp_client_fields toml)
          (config_save (udp_client_fields toml) udp_client blank)
          udp_client_defaults
        ≡ some udp_client)
    × (config_load
          (client_fields toml)
          (config_save (client_fields toml) client blank)
          client_defaults
        ≡ some client)
config_load-config_save_example =
    config_load-config_save toml_IsToml blank server server_defaults old_server old_server_defaults
      udp_client udp_client_defaults client client_defaults

-- A path stands for the port in its file, and the program throws at any port but 7000.
abbrev parse_file : List ℕ → Result ℕ Table
parse_file [] = err 8
parse_file (x ∷ path) = ok (entry "port" (int (pos x)) blank)

abbrev run : OldServerConfig → Result ℕ ℤ
run c = if c.port ==ℤ pos 7_000 then ok (pos 0) else err 9

exits : (code : ℤ) → exit_code (returned code) ≡ some code
unfolding exit_code
exits code = refl

loads :
    (port : ℕ)
    → config_load (old_server_fields toml) (entry "port" (int (pos port)) blank) old_server_defaults
      ≡ some (record old_server_defaults { port = pos port })
unfolding config_load load_value
loads port = refl

starts :
    setup_and_run (old_server_fields toml) old_server_defaults parse_file run 2 (7_000 ∷ [])
    ≡ some (returned (pos 0))
unfolding setup_and_run config_load load_value
starts = refl

abbrev argc : ℕ
argc = 2
