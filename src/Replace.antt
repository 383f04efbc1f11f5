-- ===== src/Replace.antt =====
-- `str_replace` of src/event_handling.c, which puts the file's name for `@0` in a command.
pub mod Spec
pub mod Bounds
pub mod Examples
use watch_it.Base.{
  ℕ, zero, suc, ◌+◌, ◌-◌, ◌*◌, ◌%◌, ◌^◌, ◌≡◌, refl, Bool, true, false, List, [], ◌∷◌, ◌++◌, Option,
  none, some, length, take, drop, ◌&&◌, ltb, leb, ◌==◌, if◌then◌else◌,
}
use watch_it.CString.{Str, codes, strstr}

-- `for (count = 0; (tmp = strstr(ins, rep)); ++count) ins = tmp + len_rep;` with fuel for the
-- rounds; the result is the final `count`, or `none` when the fuel runs out. `len_rep` and `count`
-- fit an `int`: the one is tested before the loop, the other, which only grows, after it.
pub count_loop : ℕ → Str → Str → ℕ → Option ℕ
count_loop zero ins rep count = none
count_loop (suc fuel) ins rep count = elim (strstr ins rep) [
  | none ↦ some count
  | some tmp ↦ count_loop fuel (drop (tmp + length rep) ins) rep (suc count)
]

-- The call: NULL, or a string written into `size` bytes, or a wrong pointer. `overflow` is where a
-- number does not fit its `int`; what the code does from there on is not modelled.
pub data Replaced : Type 0 where
  null : Replaced
  result : (size : ℕ) → Str → Replaced
  fault : Replaced
  overflow : Replaced

-- A number that is not negative fits an `int`.
abbrev pub fits : ℕ → Bool
fits n = ltb n (2 ^ 31)

-- `(len_with - len_rep) * count` fits an `int`.
abbrev pub product_fits : Str → Str → ℕ → Bool
product_fits rep with count =
    ltb (length with * count) (length rep * count + 2 ^ 31)
    && leb (length rep * count) (length with * count + 2 ^ 31)

-- `while (count--)`, with the bytes written so far and the rest of `orig`; then the last `strcpy`.
-- `fault` is the use of a NULL `ins`.
pub copy_loop : ℕ → ℕ → Str → Str → Str → Str → Replaced
copy_loop size zero out orig rep with = result size (out ++ orig)
copy_loop size (suc count) out orig rep with = elim (strstr orig rep) [
  | none ↦ fault
  | some len_front ↦
      let onward =
        copy_loop size count (out ++ take len_front orig ++ with)
          (drop (len_front + length rep) orig) rep with in
      if fits len_front then onward else overflow
]

-- The size passed to `malloc`: `strlen(orig) + (len_with - len_rep) * count + 1`, where the
-- product, an `int`, is converted to a 64-bit `size_t`. `2 ^ 64` is added to keep ℕ's `-` from stopping at 0.
pub alloc_size : Str → Str → Str → ℕ → ℕ
alloc_size orig rep with count =
    (length orig + (2 ^ 64 + length with * count - length rep * count) + 1) % 2 ^ 64

-- From the count on: the size, the `malloc`, whose success is `granted`, and the copying.
replace_counted : Bool → Str → Str → Str → Option ℕ → Replaced
replace_counted granted orig rep with none = fault
replace_counted granted orig rep with (some count) =
    if fits count && product_fits rep with count
    then (if granted
        then copy_loop (alloc_size orig rep with count) count [] orig rep with
        else null)
    else overflow

-- `with` after `if (!with) with = "";`
abbrev pub or_empty : Option Str → Str
or_empty none = []
or_empty (some s) = s

-- From the first `strstr` on. The counting starts at `ins`, the first occurrence.
replace_found : Bool → Str → Str → Option Str → Replaced
replace_found granted orig rep with = elim (strstr orig rep) [
  | none ↦ null
  | some ins ↦
      if fits (length (or_empty with))
      then replace_counted granted orig rep (or_empty with)
          (count_loop (suc (length orig)) (drop ins orig) rep 0)
      else overflow
]

replace_guarded : Bool → Str → Str → Option Str → Replaced
replace_guarded granted orig rep with =
    if fits (length rep)
    then (if length rep == 0 then null else replace_found granted orig rep with)
    else overflow

-- `str_replace(orig, rep, with)`; a NULL argument is `none`.
unfoldable pub str_replace : Bool → Option Str → Option Str → Option Str → Replaced
unfolding count_loop copy_loop alloc_size replace_counted replace_found replace_guarded
str_replace granted none rep with = null
str_replace granted (some orig) none with = null
str_replace granted (some orig) (some rep) with = replace_guarded granted orig rep with

str_replace_test :
    str_replace true (some (codes "a @0 b @0")) (some (codes "@0")) (some (codes "xyz"))
    ≡ result 12 (codes "a xyz b xyz")
unfolding str_replace strstr
str_replace_test = refl
