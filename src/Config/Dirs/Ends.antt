-- ===== src/Config/Dirs/Ends.antt =====
-- The recursion of `count_all_dirs` ends on every finite tree of directories.
use watch_it.Base.{
  ℕ, zero, suc, ◌+◌, ◌<◌, ◌≡◌, refl, ◌∙◌, Bool, true, false, List, [], ◌∷◌, Option, none, some, All,
  arith, Bool-cases, Option-cases, inl, inr, if◌then◌else◌,
}
use watch_it.CString.{Str}
use watch_it.Config.Types.{Ini, Host}
use watch_it.Config.Dirs.{
  is_negative, directory, classify, next_file, count_entries, count_all_dirs, count_words,
  get_watch_dir_count, is_recursive, dirs_of,
}
use watch_it.Config.Dirs.Fits.{Entry-cases, count-skipped, count-failed}

-- `lstat` does not follow links, so the directories are a tree: there is a height that falls from
-- each directory to the directories among its entries.
abbrev pub IsTree : Host → (Str → ℕ) → Type 0
IsTree host height =
    (dir : Str) (names : List Str)
    → host.entries dir ≡ some names
    → All (λ name. classify host dir name ≡ directory → height (next_file dir name) < height dir)
        names

-- The call does not run out of fuel.
abbrev pub Ends : Option (Option ℕ) → Type 0
Ends counted = (r : Option ℕ) × (counted ≡ some r)

module _ (host : Host) where
  count-into :
      (counter : Str → Option (Option ℕ)) (dir name : Str) (rest : List Str) (start : ℕ)
      → classify host dir name ≡ directory
      → Ends (counter (next_file dir name))
      → ((n : ℕ) → Ends (count_entries host counter dir rest (suc start + n)))
      → Ends (count_entries host counter dir (name ∷ rest) start)
  unfolding count_entries
  count-into counter dir name rest start d (none, e) later = (none, ground (arith, d, e))
  count-into counter dir name rest start d (some n, e) later = elim (Bool-cases (is_negative n)) [
    | inl negative ↦ (none, ground (arith, d, e, negative))
    | inr positive ↦ let (r, ends) = later n in (r, ground (arith, d, e, positive, ends))
  ]

  count_entries-Ends :
      (counter : Str → Option (Option ℕ)) (dir : Str) (names : List Str) (start : ℕ)
      → All (λ name. classify host dir name ≡ directory → Ends (counter (next_file dir name))) names
      → Ends (count_entries host counter dir names start)
  count_entries-Ends counter dir [] start h =
      unfold count_entries in (if host.closedir dir then some start else none, refl)
  count_entries-Ends counter dir (name ∷ rest) start h =
      elim (Entry-cases (classify host dir name)) [
        | inl s ↦
            let (r, ends) = count_entries-Ends counter dir rest start h.1 in
            (r, count-skipped host counter dir name rest start s ∙ ends)
        | inr (inl f) ↦ (none, count-failed host counter dir name rest start f)
        | inr (inr d) ↦
            count-into counter dir name rest start d (h.0 d)
              (λ n. count_entries-Ends counter dir rest (suc start + n) h.1)
      ]

  module _ (height : Str → ℕ) (tree : IsTree host height) where
    -- The inner calls end, if the calls at a smaller height do.
    inner-Ends :
        (fuel : ℕ) (dir : Str) (names : List Str)
        → ((d : Str) → height d < fuel → Ends (count_all_dirs host fuel d))
        → height dir < suc fuel
        → All
            (λ name. classify host dir name ≡ directory → height (next_file dir name) < height dir)
            names
        → All
            (λ name.
              classify host dir name ≡ directory
              → Ends (count_all_dirs host fuel (next_file dir name)))
            names
    inner-Ends fuel dir [] rec low h = tt
    inner-Ends fuel dir (name ∷ rest) rec low h =
        (λ d. rec (next_file dir name) (omega (arith, h.0 d)), inner-Ends fuel dir rest rec low h.1)

    count_all-opened :
        (fuel : ℕ) (dir : Str) (names : List Str)
        → host.entries dir ≡ some names
        → count_all_dirs host (suc fuel) dir
          ≡ count_entries host (count_all_dirs host fuel) dir names 0
    unfolding count_all_dirs
    count_all-opened fuel dir names e = ground (arith, e)

    count_all-closed :
        (fuel : ℕ) (dir : Str)
        → host.entries dir ≡ none
        → count_all_dirs host (suc fuel) dir ≡ some none
    unfolding count_all_dirs
    count_all-closed fuel dir e = ground (arith, e)

    count_all_dirs-Ends :
        (fuel : ℕ) (dir : Str) → height dir < fuel → Ends (count_all_dirs host fuel dir)
    count_all_dirs-Ends zero dir low = absurd (omega arith)
    count_all_dirs-Ends (suc fuel) dir low = elim (Option-cases (host.entries dir)) [
      | inl closed ↦ (none, count_all-closed fuel dir closed)
      | inr (names, e) ↦
          let (r, ends) =
            count_entries-Ends (count_all_dirs host fuel) dir names 0
              (inner-Ends fuel dir names (count_all_dirs-Ends fuel) low (tree dir names e)) in
          (r, count_all-opened fuel dir names e ∙ ends)
    ]

    count_words-Ends :
        (recursive : Bool) (fuel : ℕ) (words : List Str) (start : ℕ)
        → All (λ dir. height dir < fuel) words
        → Ends (count_words host recursive fuel words start)
    unfolding count_words
    count_words-Ends recursive fuel [] start h = (some start, refl)
    count_words-Ends false fuel (pch ∷ rest) start h =
        count_words-Ends false fuel rest (suc start) h.1
    count_words-Ends true fuel (pch ∷ rest) start h =
        let (counted, e) = count_all_dirs-Ends fuel pch h.0 in
        elim (Option-cases counted) [
          | inl failed ↦ (none, ground (arith, e, failed))
          | inr (n, same) ↦ elim (Bool-cases (is_negative n)) [
            | inl negative ↦ (none, ground (arith, e, same, negative))
            | inr positive ↦
                let (r, ends) = count_words-Ends true fuel rest (suc start + n) h.1 in
                (r, ground (arith, e, same, positive, ends))
          ]
        ]

    -- On a finite tree of directories `get_watch_dir_count` ends, with fuel above the height of
    -- every directory that the file names.
    pub get_watch_dir_count-Ends :
        (fuel : ℕ) (dict : Ini)
        → All (λ dir. height dir < fuel) (dirs_of dict)
        → Ends (get_watch_dir_count host fuel dict)
    unfolding get_watch_dir_count
    get_watch_dir_count-Ends fuel dict h =
        count_words-Ends (is_recursive dict) fuel (dirs_of dict) 0 h
