-- ===== src/Config/Dirs/Walk/Exact.antt =====
-- The two passes over the directories agree with the walk.
use watch_it.Base.{
  ℕ, zero, suc, refl, inl, inr, ◌⊎◌, ◌^◌, ◌+◌, ◌<◌, ◌≡◌, ◌∙◌, Bool, true, false, List, [], ◌∷◌,
  ◌++◌, some, All, length, length-append, arith,
}
use watch_it.CString.{Str}
use watch_it.Config.Types.{Loader, Ini, Host}
use watch_it.Config.Dirs.{
  directory, classify, next_file, count_all_dirs, count_words, get_watch_dir_count,
  load_watch_dir_rec, load_words, load_watch_dir, is_recursive, dirs_of,
}
use watch_it.Config.Dirs.Ends.{IsTree}
use watch_it.Config.Dirs.Walk.{
  IsReliable, non_negative, walk_entries, walk, walk_words, written, written-nil, written-append,
  write-written, count_entries-walk, load_entries-walk,
}

-- No count of the directories overflows an `int`: those below a directory are not counted, or all
-- are few.
abbrev pub IsCountable : Bool → ℕ → Type 0
IsCountable recursive count = (recursive ≡ false) ⊎ (count < 2 ^ 31)

module _ (host : Host) (works : IsReliable host) where
  module _ (height : Str → ℕ) (tree : IsTree host height) where
    -- What holds below a height holds of the directories among the entries.
    smaller :
        (P : Str → Type 0) (fuel : ℕ) (dir : Str) (names : List Str)
        → ((path : Str) → height path < fuel → P path)
        → height dir < suc fuel
        → All
            (λ name. classify host dir name ≡ directory → height (next_file dir name) < height dir)
            names
        → All (λ name. classify host dir name ≡ directory → P (next_file dir name)) names
    smaller P fuel dir [] rec low h = tt
    smaller P fuel dir (name ∷ rest) rec low h =
        (λ d. rec (next_file dir name) (omega (arith, h.0 d)), smaller P fuel dir rest rec low h.1)

    count_all_dirs-walk :
        (fuel : ℕ) (dir : Str)
        → height dir < fuel
        → length (walk host fuel dir) < 2 ^ 31
        → count_all_dirs host fuel dir ≡ some (some (length (walk host fuel dir)))
    unfolding count_all_dirs walk
    count_all_dirs-walk zero dir low few = absurd (omega arith)
    count_all_dirs-walk (suc fuel) dir low few =
        let (names, e) = works.opens dir in
        let rec = smaller _ fuel dir names (count_all_dirs-walk fuel) low (tree dir names e) in
        let fewer : length (walk_entries host (walk host fuel) dir names) < 2 ^ 31 =
          ground (arith, e, few) in
        ground (
          arith,
          e,
          count_entries-walk host works (walk host fuel) (count_all_dirs host fuel) dir names 0 rec
              fewer,
        )

    load_rec-walk :
        (fuel : ℕ) (dir : Str)
        → height dir < fuel
        → (l : Loader)
        → load_watch_dir_rec host fuel dir l ≡ some (written (walk host fuel dir) l, true)
    unfolding load_watch_dir_rec walk
    load_rec-walk zero dir low l = absurd (omega arith)
    load_rec-walk (suc fuel) dir low l =
        let (names, e) = works.opens dir in
        let rec = smaller _ fuel dir names (load_rec-walk fuel) low (tree dir names e) in
        ground (
          arith,
          e,
          load_entries-walk host works (walk host fuel) (load_watch_dir_rec host fuel) dir names l
              rec,
        )

    count_words-walk :
        (recursive : Bool) (fuel : ℕ) (words : List Str) (start : ℕ)
        → All (λ dir. height dir < fuel) words
        → IsCountable recursive (length (walk_words host recursive fuel words))
        → count_words host recursive fuel words start
          ≡ some (some (start + length (walk_words host recursive fuel words)))
    unfolding count_words walk_words
    count_words-walk recursive fuel [] start h few = ground arith
    count_words-walk false fuel (pch ∷ rest) start h few =
        ground (arith, count_words-walk false fuel rest (suc start) h.1 (inl refl))
    count_words-walk true fuel (pch ∷ rest) start h (inl flat) = absurd (cc (flat))
    count_words-walk true fuel (pch ∷ rest) start h (inr few) =
        let below = walk host fuel pch in
        let later = walk_words host true fuel rest in
        let both = length-append below later in
        let inner : length below < 2 ^ 31 = omega (arith, both, few) in
        ground (
          arith,
          count_all_dirs-walk fuel pch h.0 inner,
          non_negative (length below) inner,
          both,
          count_words-walk true fuel rest (suc start + length below) h.1
              (inr (omega (arith, both, few))),
        )

    load_words-walk :
        (recursive : Bool) (fuel : ℕ) (words : List Str) (l : Loader)
        → All (λ dir. height dir < fuel) words
        → load_words host recursive fuel words l
          ≡ some (written (walk_words host recursive fuel words) l, true)
    unfolding load_words walk_words
    load_words-walk recursive fuel [] l h = ground (arith, written-nil l)
    load_words-walk false fuel (pch ∷ rest) l h =
        let l1 = written (pch ∷ []) l in
        let later = walk_words host false fuel rest in
        ground (
          arith,
          write-written host works l pch,
          written-append (pch ∷ []) later l,
          load_words-walk false fuel rest l1 h.1,
        )
    load_words-walk true fuel (pch ∷ rest) l h =
        let l1 = written (pch ∷ []) l in
        let below = walk host fuel pch in
        let later = walk_words host true fuel rest in
        let l2 = written below l1 in
        let split : written (pch ∷ (below ++ later)) l ≡ written later l2 =
          written-append (pch ∷ []) (below ++ later) l ∙ written-append below later l1 in
        ground (
          arith,
          write-written host works l pch,
          load_rec-walk fuel pch h.0 l1,
          split,
          load_words-walk true fuel rest l2 h.1,
        )

    -- If nothing fails, on a finite tree of directories and with fuel above the height of those
    -- that the file names, and where no count of the directories overflows, `get_watch_dir_count` returns the number of the directories that the
    -- words stand for, and `load_watch_dir` returns 0 and writes exactly these, in order: each word,
    -- and with `recursive` the directories below it, each before those below it.
    pub load_watch_dir-walk :
        (fuel : ℕ) (dict : Ini) (l : Loader)
        → All (λ dir. height dir < fuel) (dirs_of dict)
        → let dirs = walk_words host (is_recursive dict) fuel (dirs_of dict) in
          IsCountable (is_recursive dict) (length dirs)
          → (get_watch_dir_count host fuel dict ≡ some (some (length dirs)))
            × (load_watch_dir host fuel dict l ≡ some (written dirs l, true))
    unfolding get_watch_dir_count load_watch_dir
    load_watch_dir-walk fuel dict l h few = (
      ground (arith, count_words-walk (is_recursive dict) fuel (dirs_of dict) 0 h few),
      load_words-walk (is_recursive dict) fuel (dirs_of dict) l h,
    )
