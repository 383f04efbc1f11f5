-- ===== src/Daemon/Table/Laws.antt =====
-- The table keeps its bounds, and finds the first watch that was added for a descriptor.
use watch_it.Base.{
  ℕ, zero, suc, ◌≤◌, ◌<◌, ◌≡◌, refl, true, false, List, [], ◌∷◌, Option, none, some, set, length,
  length-set, leb, ◌==◌, if◌then◌else◌, arith, Bool-cases, inl, inr, ◌⊎◌,
}
use watch_it.CString.{Str}
use watch_it.Daemon.Table.{
  max_watch, WdNameTuple, Table, init_tuples, init_name_map, add_to_map, find_rounds, find_in_map,
}

-- The array has its `MAX_WATCH` tuples, and `name_map_len` counts some of them.
pub record IsValid (t : Table) : Type 0 where
  pub size : length t.name_map ≡ max_watch
  pub bounded : t.name_map_len ≤ max_watch

init_tuples-length : (map : List WdNameTuple) → length (init_tuples map) ≡ length map
unfolding init_tuples
init_tuples-length [] = refl
init_tuples-length (x ∷ rest) = omega (arith, init_tuples-length rest)

pub init_name_map-IsValid : (t : Table) → IsValid t → IsValid (init_name_map t)
unfolding init_name_map
init_name_map-IsValid t v = ground (arith, init_tuples-length t.name_map, v)

add_to_map-IsValid :
    (name : Str) (wd type delay : ℕ) (t : Table)
    → IsValid t
    → IsValid (add_to_map name wd type delay t).0
unfolding add_to_map
add_to_map-IsValid name wd type delay t v = ground (
  arith,
  v,
  length-set t.name_map t.name_map_len
      (record { wd = wd; name = name; type = type; min_read_close = delay }),
)

-- The first of two answers.
abbrev pub or_else : Option WdNameTuple → Option WdNameTuple → Option WdNameTuple
or_else (some x) y = some x
or_else none y = y

find_rounds-set :
    (n : ℕ) (map : List WdNameTuple) (new : WdNameTuple) (wd : ℕ)
    → n < length map
    → find_rounds (suc n) (set map n new) wd
      ≡ or_else (find_rounds n map wd) (if new.wd == wd then some new else none)
unfolding find_rounds
find_rounds-set n [] new wd h = absurd (omega arith)
find_rounds-set zero (x ∷ rest) new wd h = ground arith
find_rounds-set (suc n) (x ∷ rest) new wd h =
    ground (arith, find_rounds-set n rest new wd (omega arith))

-- The tuple that `add_to_map` writes.
abbrev pub new_tuple : Str → ℕ → ℕ → ℕ → WdNameTuple
new_tuple name wd type delay = record { wd = wd; name = name; type = type; min_read_close = delay }

add_to_map-full :
    (name : Str) (wd type delay : ℕ) (t : Table)
    → leb max_watch t.name_map_len ≡ true
    → add_to_map name wd type delay t ≡ (t, false)
unfolding add_to_map
add_to_map-full name wd type delay t h = ground (arith, h)

-- On a table within its bounds `add_to_map` keeps the bounds. It fails exactly when the table is
-- full, and then changes nothing. Otherwise a descriptor is found in the new table as it was
-- before, or, if it was not found before, as the new tuple if that is its own.
pub find_in_map-add_to_map :
    (name : Str) (wd type delay : ℕ) (t : Table) (k : ℕ)
    → IsValid t
    → IsValid (add_to_map name wd type delay t).0
      × (((add_to_map name wd type delay t).1 ≡ false)
            × (max_watch ≤ t.name_map_len)
            × ((add_to_map name wd type delay t).0 ≡ t)
          ⊎ ((add_to_map name wd type delay t).1 ≡ true)
            × (t.name_map_len < max_watch)
            × (find_in_map k (add_to_map name wd type delay t).0
                ≡ or_else
                    (find_in_map k t)
                    (if wd == k then some (new_tuple name wd type delay) else none)))
unfolding find_in_map add_to_map
find_in_map-add_to_map name wd type delay t k v = (
  add_to_map-IsValid name wd type delay t v,
  elim (Bool-cases (leb max_watch t.name_map_len)) [
    | inl full ↦ inl (ground (arith, full), ground (arith, full), ground (arith, full))
    | inr room ↦
        let below : t.name_map_len < max_watch = ground (arith, room) in
        inr (
          ground (arith, room),
          below,
          rw room (
              find_rounds-set t.name_map_len t.name_map (new_tuple name wd type delay) k
                (omega (arith, v.size))),
        )
  ],
)
