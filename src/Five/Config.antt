-- ===== src/Five/Config.antt =====
-- five/five/config.h: structures that are saved to a TOML table and loaded from one, field by field.
-- toml++ is not part of the repository: `Toml` has its calls, and `IsToml` what it documents.
-- `none` is undefined behaviour: the value of an empty `std::optional`.
pub mod RoundTrip
use Prim.Native.String.{String}
use text.Mathlib.Text.{◌==◌ as str_eq}
use hnet.Prelude.Options.{◌>>=◌}
use hnet.Prelude.{ℕ, ◌≡◌, List, [], ◌∷◌, Option, none, some, if◌then◌else◌}
use hnet.Prelude.Int.{ℤ}

pub record Toml : Type 1 where
  pub Table : Type 0
  pub Node : Type 0
  pub empty : Table
  -- `tbl[name]`, which `tbl.contains(name)` asks for
  pub find : String → Table → Option Node
  -- `insert_or_assign`
  pub put : String → Node → Table → Table
  pub of_string : List ℕ → Node
  pub of_int : ℤ → Node
  pub of_table : Table → Node
  pub as_string : Node → Option (List ℕ)
  pub as_int : Node → Option ℤ
  pub as_table : Node → Option Table

-- A table finds what was last put under a name, and a node gives its value back.
pub record IsToml (t : Toml) : Type 0 where
  pub find-put :
      (n m : String) (v : t.Node) (tbl : t.Table)
      → t.find m (t.put n v tbl) ≡ (if str_eq n m then some v else t.find m tbl)
  pub find-empty : (n : String) → t.find n t.empty ≡ none
  pub string_back : (x : List ℕ) → t.as_string (t.of_string x) ≡ some x
  pub int_back : (x : ℤ) → t.as_int (t.of_int x) ≡ some x
  pub table_back : (x : t.Table) → t.as_table (t.of_table x) ≡ some x

-- `TS_VALUE(name)` in a structure: the two overloads of `saveload` for its type.
pub record Field (t : Toml) (C : Type 0) : Type 0 where
  pub name : String
  pub save : C → t.Node
  pub load : Option t.Node → C → Option C

-- `CONFIG_DEFINE_SAVELOAD_FOR_TYPE`: the field keeps its value if the table has no such name.
unfoldable pub load_value :
    {N V C : Type 0} → (N → Option V) → (V → C → C) → Option N → C → Option C
load_value read set none c = some c
load_value read set (some node) c = do v ← read node; some (set v c)

module _ {t : Toml} {C : Type 0} where
  abbrev pub string_field : String → (C → List ℕ) → (List ℕ → C → C) → Field t C
  string_field name get set = record {
    name = name;
    save = λ c. t.of_string (get c);
    load = load_value t.as_string set;
  }

  abbrev pub int_field : String → (C → ℤ) → (ℤ → C → C) → Field t C
  int_field name get set = record {
    name = name;
    save = λ c. t.of_int (get c);
    load = load_value t.as_int set;
  }

  -- `config_save` and `config_load`: the fields in their order.
  unfoldable pub config_save : List (Field t C) → C → t.Table → t.Table
  config_save [] c tbl = tbl
  config_save (f ∷ fs) c tbl = config_save fs c (t.put f.name (f.save c) tbl)

  unfoldable pub config_load : List (Field t C) → t.Table → C → Option C
  config_load [] tbl c = some c
  config_load (f ∷ fs) tbl c = do c' ← f.load (t.find f.name tbl) c; config_load fs tbl c'

module _ {t : Toml} {C D : Type 0} where
  -- `TOML_STRUCT_DEFINE_SAVELOAD`: a structure in a structure is a table in a table.
  unfoldable pub load_struct :
      List (Field t D) → (C → D) → (D → C → C) → Option t.Node → C → Option C
  unfolding config_load
  load_struct fields get set none c = some c
  load_struct fields get set (some node) c = elim (t.as_table node) [
    | none ↦ some c
    | some inner ↦ (do d ← config_load fields inner (get c); some (set d c))
  ]

  abbrev pub struct_field : String → List (Field t D) → (C → D) → (D → C → C) → Field t C
  struct_field name fields get set = record {
    name = name;
    save = λ c. t.of_table (config_save fields (get c) t.empty);
    load = load_struct fields get set;
  }
