-- ===== src/Five/Config/RoundTrip.antt =====
-- What is loaded from a table that a structure was saved to.
use Prim.Native.String.{String}
use text.Mathlib.Text.{◌==◌ as str_eq}
use text.Mathlib.TextPositions.{eq_refl}
use hnet.Prelude.{
  ◌≡◌, refl, ◌∙◌, Bool, true, not, ◌&&◌, List, [], ◌∷◌, ◌++◌, Option, none, some, Option-cases, inl,
  inr, arith,
}
use hnet.Prelude.Int.{ℤ}
use hnet.Prelude.Options.{◌>>=◌}
use hnet.Five.Config.{Toml, IsToml, Field, load_value, int_field, config_save, config_load}

module _ {t : Toml} {C : Type 0} where
  -- No field has the name.
  abbrev pub lacks : String → List (Field t C) → Bool
  lacks n [] = true
  lacks n (f ∷ fs) = not (str_eq f.name n) && lacks n fs

  abbrev pub distinct : List (Field t C) → Bool
  distinct [] = true
  distinct (f ∷ fs) = lacks f.name fs && distinct fs

  -- Every field loaded from the node that it is saved as.
  abbrev pub transfer : List (Field t C) → C → C → Option C
  transfer [] c c0 = some c0
  transfer (f ∷ fs) c c0 = do c1 ← f.load (some (f.save c)) c0; transfer fs c c1

  -- The table has every field as it is saved.
  abbrev pub HasAll : List (Field t C) → C → t.Table → Type 0
  HasAll [] c tbl = Unit {0}
  HasAll (f ∷ fs) c tbl = (t.find f.name tbl ≡ some (f.save c)) × HasAll fs c tbl

  load-HasAll :
      (fs : List (Field t C)) (c c0 : C) (tbl : t.Table)
      → HasAll fs c tbl
      → config_load fs tbl c0 ≡ transfer fs c c0
  unfolding config_load
  load-HasAll [] c c0 tbl h = refl
  load-HasAll (f ∷ fs) c c0 tbl h = elim (Option-cases (f.load (some (f.save c)) c0)) [
    | inl undefined ↦ rw (h.0, config_load) (rw undefined refl)
    | inr (c1, loaded) ↦ rw (h.0, config_load) (rw loaded (load-HasAll fs c c1 tbl h.1))
  ]

  module _ (k : IsToml t) where
    find-config_save :
        (fs : List (Field t C)) (c : C) (n : String) (tbl : t.Table)
        → lacks n fs ≡ true
        → t.find n (config_save fs c tbl) ≡ t.find n tbl
    unfolding config_save
    find-config_save [] c n tbl h = refl
    find-config_save (f ∷ fs) c n tbl h =
        find-config_save fs c n (t.put f.name (f.save c) tbl) (ground arith)
        ∙ k.find-put f.name n (f.save c) tbl
        ∙ ground arith

    save-HasAll :
        (fs : List (Field t C)) (c : C) (tbl : t.Table)
        → distinct fs ≡ true
        → HasAll fs c (config_save fs c tbl)
    unfolding config_save
    save-HasAll [] c tbl h = tt
    save-HasAll (f ∷ fs) c tbl h = (
      find-config_save fs c f.name (t.put f.name (f.save c) tbl) (ground arith)
          ∙ k.find-put f.name f.name (f.save c) tbl
          ∙ ground (arith, eq_refl f.name),
      save-HasAll fs c (t.put f.name (f.save c) tbl) (ground arith),
    )

    -- Fields of distinct names are loaded from a table that they were saved to, whatever else it
    -- held, as each of them is loaded from its own node.
    pub load-save :
        (fs : List (Field t C)) (c c0 : C) (tbl : t.Table)
        → distinct fs ≡ true
        → config_load fs (config_save fs c tbl) c0 ≡ transfer fs c c0
    load-save fs c c0 tbl h = load-HasAll fs c c0 (config_save fs c tbl) (save-HasAll fs c tbl h)

  -- A value of another type than the field's is undefined behaviour, wherever the field stands.
  pub load-wrong_type :
      (before after : List (Field t C)) (name : String) (get : C → ℤ) (set : ℤ → C → C)
      (tbl : t.Table) (node : t.Node) (c : C)
      → t.find name tbl ≡ some node
      → t.as_int node ≡ none
      → config_load (before ++ int_field name get set ∷ after) tbl c ≡ none
  unfolding config_load load_value
  load-wrong_type [] after name get set tbl node c there wrong =
      rw (there, config_load) (rw (wrong, load_value) refl)
  load-wrong_type (f ∷ fs) after name get set tbl node c there wrong =
      elim (Option-cases (f.load (t.find f.name tbl) c)) [
        | inl undefined ↦ rw (undefined, config_load) refl
        | inr (c1, loaded) ↦
            rw (loaded, config_load) (load-wrong_type fs after name get set tbl node c1 there wrong)
      ]
