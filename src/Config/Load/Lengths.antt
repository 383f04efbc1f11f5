-- ===== src/Config/Load/Lengths.antt =====
-- The lengths of the paths that `config_load` writes, on a tree of directories of bounded height.
use watch_it.Base.{
  Option-cases, inl, inr, subst, none, ℕ, ◌+◌, ◌*◌, ◌<◌, ◌≤◌, ◌≡◌, List, [], ◌∷◌, some, All, length,
  length-append, arith, Bool,
}
use watch_it.CString.{Str}
use watch_it.Config.Types.{Loader, Ini, Host}
use watch_it.Config.Dirs.{classify, directory, next_file, dirs_of}
use watch_it.Config.Dirs.Ends.{IsTree}
use watch_it.Config.Load.{loaded, config_load}
use watch_it.Config.Load.Paths.{config_load-Named}

-- No entry of a directory has a name of more than 255 bytes, which is Linux's NAME_MAX.
abbrev pub HasShortNames : Host → Type 0
HasShortNames host =
    (dir : Str) (names : List Str)
    → host.entries dir ≡ some names
    → All (λ name. length name ≤ 255) names

length-next_file : (dir name : Str) → length (next_file dir name) ≡ length dir + length name + 1
length-next_file dir name = omega (arith, length-append dir (b'/' ∷ name))

-- The names that `readdir` gives: none where the directory cannot be opened.
abbrev pub entries_of : Host → Str → List Str
entries_of host dir = elim (host.entries dir) [ none ↦ [] | some names ↦ names ]

-- `FILENAME_MAX` of <stdio.h>, the size of the buffers for a path.
module _ (filename_max : ℕ) (host : Host) where
  -- The directory's name and the paths of its entries fit a buffer with their terminating zeros.
  abbrev pub Fits : Str → Type 0
  Fits dir =
      (length dir < filename_max)
      × All (λ name. length (next_file dir name) < filename_max) (entries_of host dir)

  module _ (height : Str → ℕ) where
    -- There is room for one more name at each level below.
    abbrev pub HasRoom : Str → Type 0
    HasRoom dir = length dir + 256 * height dir + 256 < filename_max

    HasRoom-next_file :
        (dir name : Str)
        → HasRoom dir
        → length name ≤ 255
        → height (next_file dir name) < height dir
        → HasRoom (next_file dir name)
    HasRoom-next_file dir name h short lower = omega (arith, length-next_file dir name)

    HasRoom-down :
        (dir : Str) (names : List Str)
        → HasRoom dir
        → All (λ name. length name ≤ 255) names
        → All
            (λ name. classify host dir name ≡ directory → height (next_file dir name) < height dir)
            names
        → All (λ name. classify host dir name ≡ directory → HasRoom (next_file dir name)) names
    HasRoom-down dir [] h short lower = tt
    HasRoom-down dir (name ∷ rest) h short lower = (
      λ d. HasRoom-next_file dir name h short.0 (lower.0 d),
      HasRoom-down dir rest h short.1 lower.1,
    )

    entries_fit :
        (dir : Str) (names : List Str)
        → HasRoom dir
        → All (λ name. length name ≤ 255) names
        → All (λ name. length (next_file dir name) < filename_max) names
    entries_fit dir [] h short = tt
    entries_fit dir (name ∷ rest) h short =
        (omega (arith, length-next_file dir name, short.0), entries_fit dir rest h short.1)

    HasRoom-Fits : HasShortNames host → (dir : Str) → HasRoom dir → Fits dir
    HasRoom-Fits short dir h =
        let fit : List Str → Type 0 = All (λ name. length (next_file dir name) < filename_max) in
        elim (Option-cases (host.entries dir)) [
          | inl unopened ↦
              let same : [] ≡ entries_of host dir = ground (arith, unopened) in
              (omega arith, subst fit same tt)
          | inr (names, opened) ↦
              let same : names ≡ entries_of host dir = ground (arith, opened) in
              (omega arith, subst fit same (entries_fit dir names h (short dir names opened)))
        ]

    pub All-Fits : HasShortNames host → (dirs : List Str) → All HasRoom dirs → All Fits dirs
    All-Fits short [] h = tt
    All-Fits short (dir ∷ rest) h = (HasRoom-Fits short dir h.0, All-Fits short rest h.1)

    -- Every name in `watch_dir` leaves room.
    pub config_load-HasRoom :
        (fuel : ℕ) (readable : Bool) (dict : Ini) (l : Loader)
        → HasShortNames host
        → IsTree host height
        → All HasRoom (dirs_of dict)
        → config_load host fuel readable (some dict) ≡ some (loaded l)
        → All HasRoom l.config.watch_dir
    config_load-HasRoom fuel readable dict l short tree words e =
        config_load-Named host HasRoom
          (λ dir names opened room.
            HasRoom-down dir names room (short dir names opened) (tree dir names opened))
          fuel readable dict l words e
