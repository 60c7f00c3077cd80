-- ===== src/Config/Values.antt =====
-- A parsed TOML document: what `tomllib.load` hands to `load_config`. `other` stands for the floats
-- and dates, of which the source asks only their `str` and `int`.
use omarchy_yolo.Prelude.{
  ℕ, ℤ, String, Bool, Option, none, some, List, [], ◌∷◌, ◌==◌, string_eq, if◌then◌else◌,
}

mutual
  pub data Value : Type 0 where
    text : String → Value
    integer : ℤ → Value
    boolean : Bool → Value
    array : Items → Value
    table : Entries → Value
    other : ℕ → Value

  pub data Items : Type 0 where
    no_items : Items
    item : Value → Items → Items

  pub data Entries : Type 0 where
    no_entries : Entries
    entry : String → Value → Entries → Entries

abbrev pub values_of : Items → List Value
values_of no_items = []
values_of (item v vs) = v ∷ values_of vs

abbrev pub entries_of : Entries → List (record { key : String; value : Value })
entries_of no_entries = []
entries_of (entry k v es) = record { key = k; value = v } ∷ entries_of es

-- `table.get(key)`
unfoldable pub get : Entries → String → Option Value
get no_entries key = none
get (entry k v es) key = let rest = get es key in if k == key then some v else rest

-- A value that is a dict, or `{}`.
abbrev pub dict_or_empty : Option Value → Entries
dict_or_empty (some (table es)) = es
dict_or_empty (some (text s)) = no_entries
dict_or_empty (some (integer n)) = no_entries
dict_or_empty (some (boolean b)) = no_entries
dict_or_empty (some (array vs)) = no_entries
dict_or_empty (some (other n)) = no_entries
dict_or_empty none = no_entries

-- `_section`
unfoldable pub section : Entries → String → Entries
section es key = dict_or_empty (get es key)
