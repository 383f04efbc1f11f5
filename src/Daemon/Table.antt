-- ===== src/Daemon/Table.antt =====
-- `name_map`: which watch descriptor stands for which directory.
pub mod Laws
use watch_it.Base.{
  ℕ, zero, suc, ◌-◌, ◌^◌, Bool, true, false, List, [], ◌∷◌, Option, none, some, get_elem?, set,
  length, leb, ltb, ◌==◌, if◌then◌else◌,
}
use watch_it.CString.{Str}

abbrev pub max_watch : ℕ
max_watch = 1024

-- `WD_NAME_TUPLE`
pub record WdNameTuple : Type 0 where
  pub wd : ℕ
  pub name : Str
  pub type : ℕ
  pub min_read_close : ℕ

-- The static `name_map`, an array of `MAX_WATCH` tuples, and `name_map_len`.
pub record Table : Type 0 where
  pub name_map : List WdNameTuple
  pub name_map_len : ℕ

-- `init_wd_name_tuple`; a `wd` of -1 is its 32-bit pattern.
abbrev pub init_wd_name_tuple : WdNameTuple → WdNameTuple
init_wd_name_tuple tuple = record tuple { wd = 2 ^ 32 - 1; type = 0; min_read_close = 0; name = [] }

-- `for (int i = 0; i < MAX_WATCH; ++i)`, from the back of the array to its front: the rounds touch
-- different tuples.
init_tuples : List WdNameTuple → List WdNameTuple
init_tuples [] = []
init_tuples (tuple ∷ rest) = init_wd_name_tuple tuple ∷ init_tuples rest

unfoldable pub init_name_map : Table → Table
unfolding init_tuples
init_name_map t = record t { name_map = init_tuples t.name_map }

-- `add_to_map`; `false` is the return value -1.
unfoldable pub add_to_map : Str → ℕ → ℕ → ℕ → Table → Table × Bool
add_to_map to_be_watched wd type min_read_close t =
    if leb max_watch t.name_map_len then (t, false) else (
      record {
        name_map = set t.name_map t.name_map_len (record {
          wd = wd;
          name = to_be_watched;
          type = type;
          min_read_close = min_read_close;
        });
        name_map_len = suc t.name_map_len;
      },
      true,
    )

-- `for (int i = 0; i < name_map_len; ++i)`: the first tuple for the descriptor among the first
-- `rounds` ones.
find_rounds : ℕ → List WdNameTuple → ℕ → Option WdNameTuple
find_rounds zero map wd = none
find_rounds (suc rounds) [] wd = none
find_rounds (suc rounds) (tuple ∷ rest) wd =
    let later = find_rounds rounds rest wd in if tuple.wd == wd then some tuple else later

unfoldable pub find_in_map : ℕ → Table → Option WdNameTuple
unfolding find_rounds
find_in_map wd t = find_rounds t.name_map_len t.name_map wd
