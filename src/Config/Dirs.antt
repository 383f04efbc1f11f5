-- ===== src/Config/Dirs.antt =====
-- The directories to watch: `get_watch_dir_count`, which decides how many pointers are allocated,
-- and `load_watch_dir`, which fills them in.
pub mod Fits
pub mod Keeps
pub mod Words
pub mod Ends
pub mod Walk
use watch_it.Base.{
  ℕ, zero, suc, leb, ◌+◌, ◌%◌, ◌^◌, Bool, true, false, not, ◌||◌, List, [], ◌∷◌, ◌++◌, Option, none,
  some, length, if◌then◌else◌,
}
use watch_it.CString.{Str, codes, strtok_all}
use watch_it.Config.Types.{Conf, Loader, Ini, Host, equals}

-- `is_recursive`. The string is never NULL, so its -1 is never returned.
unfoldable pub is_recursive : Ini → Bool
is_recursive dict = equals (dict.getstring (codes "folder:recursive") []) (codes "true")

abbrev pub is_dots : Str → Bool
is_dots name = equals (codes ".") name || equals (codes "..") name

-- `nextFile`, without the bound of its buffer.
abbrev pub next_file : Str → Str → Str
next_file dir name = dir ++ (b'/' ∷ name)

-- A count, whose `int` is its rest modulo 2 ^ 32, is negative.
abbrev pub is_negative : ℕ → Bool
is_negative count = leb (2 ^ 31) (count % 2 ^ 32)

-- What becomes of a directory entry: it is passed over, `lstat` has failed, or it is a directory.
pub data Entry : Type 0 where
  skipped failed directory : Entry

module _ (host : Host) where
  -- The tests at the head of both loops, `is_dir` among them.
  unfoldable pub classify : Str → Str → Entry
  classify dir name =
      let seen : Entry = elim (host.lstat (next_file dir name)) [
        | none ↦ failed
        | some is_directory ↦ if is_directory then directory else skipped
      ] in
      if is_dots name then skipped else seen

  -- The loop of `count_all_dirs`, given the recursive call. A count stands for its rest modulo 2 ^ 32,
  -- to which a sum wraps around. Of the two options the outer one is
  -- that the fuel lasts, the inner one that -1 is not returned.
  unfoldable pub count_entries : (Str → Option (Option ℕ)) → Str → List Str → ℕ → Option (Option ℕ)
  count_entries rec dir [] cur_count = some (if host.closedir dir then some cur_count else none)
  count_entries rec dir (name ∷ rest) cur_count = elim (classify dir name) [
    | skipped ↦ count_entries rec dir rest cur_count
    | failed ↦ some none
    | directory ↦ elim (rec (next_file dir name)) [
      | none ↦ none
      | some counted ↦ elim counted [
        | none ↦ some none
        | some count ↦ elim (is_negative count) [
          | true ↦ some none
          | false ↦ count_entries rec dir rest (suc cur_count + count)
        ]
      ]
    ]
  ]

  -- `count_all_dirs`, with fuel for the depth of the recursion.
  unfoldable pub count_all_dirs : ℕ → Str → Option (Option ℕ)
  count_all_dirs zero dir_name = none
  count_all_dirs (suc fuel) dir_name = elim (host.entries dir_name) [
    | none ↦ some none
    | some names ↦ count_entries (count_all_dirs fuel) dir_name names 0
  ]

  -- `write_to_watchdir`; `false` is the return value -1.
  unfoldable pub write_to_watchdir : Loader → Str → Loader × Bool
  write_to_watchdir l pch =
      let asked : Loader = record l { mallocs = suc l.mallocs } in
      let c : Conf = l.config in
      if host.grants l.mallocs (length pch + 1)
      then (
        record asked {
          live = suc l.live;
          config = record c {
            watch_dir = c.watch_dir ++ (pch ∷ []);
            watch_dir_count = suc c.watch_dir_count;
          };
        },
        true,
      )
      else (asked, false)

  -- The loop of `load_watch_dir_rec`, given the recursive call.
  unfoldable pub load_entries :
      (Str → Loader → Option (Loader × Bool)) → Str → List Str → Loader → Option (Loader × Bool)
  load_entries rec dir [] l = some (l, host.closedir dir)
  load_entries rec dir (name ∷ rest) l = elim (classify dir name) [
    | skipped ↦ load_entries rec dir rest l
    | failed ↦ some (l, false)
    | directory ↦
        let (l1, written) = write_to_watchdir l (next_file dir name) in
        elim written [
          | false ↦ some (l1, false)
          | true ↦ elim (rec (next_file dir name) l1) [
            | none ↦ none
            | some result ↦ elim result.1 [
              | false ↦ some (result.0, false)
              | true ↦ load_entries rec dir rest result.0
            ]
          ]
        ]
  ]

  unfoldable pub load_watch_dir_rec : ℕ → Str → Loader → Option (Loader × Bool)
  load_watch_dir_rec zero cur_dir l = none
  load_watch_dir_rec (suc fuel) cur_dir l = elim (host.entries cur_dir) [
    | none ↦ some (l, false)
    | some names ↦ load_entries (load_watch_dir_rec fuel) cur_dir names l
  ]

  -- The loop of `get_watch_dir_count` over the words of `watch_dir`.
  unfoldable pub count_words : Bool → ℕ → List Str → ℕ → Option (Option ℕ)
  count_words recursive fuel [] count = some (some count)
  count_words recursive fuel (pch ∷ rest) count = elim recursive [
    | false ↦ count_words recursive fuel rest (suc count)
    | true ↦ elim (count_all_dirs fuel pch) [
      | none ↦ none
      | some counted ↦ elim counted [
        | none ↦ some none
        | some n ↦ elim (is_negative n) [
          | true ↦ some none
          | false ↦ count_words recursive fuel rest (suc count + n)
        ]
      ]
    ]
  ]

  -- The loop of `load_watch_dir`. What `load_watch_dir_rec` returns is not looked at.
  unfoldable pub load_words : Bool → ℕ → List Str → Loader → Option (Loader × Bool)
  load_words recursive fuel [] l = some (l, true)
  load_words recursive fuel (pch ∷ rest) l =
      let (l1, written) = write_to_watchdir l pch in
      elim written [
        | false ↦ some (l1, false)
        | true ↦ elim recursive [
          | false ↦ load_words recursive fuel rest l1
          | true ↦ elim (load_watch_dir_rec fuel pch l1) [
            | none ↦ none
            | some result ↦ load_words recursive fuel rest result.0
          ]
        ]
      ]

-- The words of the file's `watch_dir`.
abbrev pub dirs_of : Ini → List Str
dirs_of dict = strtok_all (codes ", ") (dict.getstring (codes "folder:watch_dir") [])

unfoldable pub get_watch_dir_count : Host → ℕ → Ini → Option (Option ℕ)
unfolding count_words
get_watch_dir_count host fuel dict = count_words host (is_recursive dict) fuel (dirs_of dict) 0

unfoldable pub load_watch_dir : Host → ℕ → Ini → Loader → Option (Loader × Bool)
unfolding load_words
load_watch_dir host fuel dict l = load_words host (is_recursive dict) fuel (dirs_of dict) l
