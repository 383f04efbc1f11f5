-- ===== src/Config/Dirs/Words.antt =====
-- The count and the load over the words of `watch_dir`.
use watch_it.Base.{
  ℕ, suc, ◌+◌, ◌≤◌, ◌≡◌, refl, subst, ◌∙◌, Bool, true, false, List, [], ◌∷◌, none, some, arith,
  Option-cases, Bool-cases, inl, inr,
}
use watch_it.CString.{Str}
use watch_it.Config.Types.{Loader, Ini, Host}
use watch_it.Config.Dirs.{
  is_negative, count_all_dirs, write_to_watchdir, load_watch_dir_rec, count_words, load_words,
  get_watch_dir_count, load_watch_dir, is_recursive, dirs_of,
}
use watch_it.Config.Dirs.Fits.{Within, Within-later, write-one, write-refused, load_rec-count}

module _ (host : Host) (fuel : ℕ) where
  -- How a word is counted: one for the directory, and with `recursive` those below it.
  count-recursive :
      (pch : Str) (rest : List Str) (start total : ℕ)
      → count_words host true fuel (pch ∷ rest) start ≡ some (some total)
      → (n : ℕ) × (count_all_dirs host fuel pch ≡ some (some n))
        × (count_words host true fuel rest (suc start + n) ≡ some (some total))
  unfolding count_words
  count-recursive pch rest start total h = elim (Option-cases (count_all_dirs host fuel pch)) [
    | inl out ↦ absurd (ground (arith, out, h))
    | inr (none, e) ↦ absurd (ground (arith, e, h))
    | inr (some n, e) ↦ elim (Bool-cases (is_negative n)) [
      | inl negative ↦ absurd (ground (arith, e, negative, h))
      | inr positive ↦ (n, e, ground (arith, e, positive, h))
    ]
  ]

  count_words-le :
      (recursive : Bool) (words : List Str) (start total : ℕ)
      → count_words host recursive fuel words start ≡ some (some total)
      → start ≤ total
  unfolding count_words
  count_words-le recursive [] start total h = ground (arith, h)
  count_words-le false (pch ∷ rest) start total h =
      omega (arith, count_words-le false rest (suc start) total h)
  count_words-le true (pch ∷ rest) start total h =
      let (n, counted, later) = count-recursive pch rest start total h in
      omega (arith, count_words-le true rest (suc start + n) total later)

  load-refused :
      (recursive : Bool) (pch : Str) (rest : List Str) (l : Loader)
      → (write_to_watchdir host l pch).1 ≡ false
      → load_words host recursive fuel (pch ∷ rest) l
        ≡ some ((write_to_watchdir host l pch).0, false)
  unfolding load_words
  load-refused recursive pch rest l w = ground (arith, w)

  load-flat :
      (pch : Str) (rest : List Str) (l : Loader)
      → (write_to_watchdir host l pch).1 ≡ true
      → load_words host false fuel (pch ∷ rest) l
        ≡ load_words host false fuel rest (write_to_watchdir host l pch).0
  unfolding load_words
  load-flat pch rest l w = ground (arith, w)

  load-deep :
      (pch : Str) (rest : List Str) (l l2 : Loader) (done : Bool)
      → (write_to_watchdir host l pch).1 ≡ true
      → load_watch_dir_rec host fuel pch (write_to_watchdir host l pch).0 ≡ some (l2, done)
      → load_words host true fuel (pch ∷ rest) l ≡ load_words host true fuel rest l2
  unfolding load_words
  load-deep pch rest l l2 done w e = ground (arith, w, e)

  load_words-refused :
      (recursive : Bool) (pch : Str) (rest : List Str) (l : Loader) (start total : ℕ)
      → start ≤ total
      → (write_to_watchdir host l pch).1 ≡ false
      → Within start total l (load_words host recursive fuel (pch ∷ rest) l)
  load_words-refused recursive pch rest l start total le refused =
      let (same, cap) = write-refused host l pch refused in
      rw (load-refused recursive pch rest l refused) (le, omega (arith, same, le), cap)

  load_words-count :
      (recursive : Bool) (words : List Str) (l : Loader) (start total : ℕ)
      → count_words host recursive fuel words start ≡ some (some total)
      → Within start total l (load_words host recursive fuel words l)
  load_words-count recursive [] l start total h =
      let le = count_words-le recursive [] start total h in
      unfold load_words in (le, omega (arith, le), refl)
  load_words-count false (pch ∷ rest) l start total h =
      elim (Bool-cases (write_to_watchdir host l pch).1) [
        | inl written ↦
            let (one, cap) = write-one host l pch written in
            let l1 : Loader = (write_to_watchdir host l pch).0 in
            let later : count_words host false fuel rest (suc start) ≡ some (some total) =
              unfold count_words in h in
            rw (load-flat pch rest l written) (
              Within-later start (suc start) total l l1 (load_words host false fuel rest l1)
                (omega arith) (omega (arith, one)) cap
                (load_words-count false rest l1 (suc start) total later))
        | inr refused ↦
            load_words-refused false pch rest l start total
              (count_words-le false (pch ∷ rest) start total h) refused
      ]
  load_words-count true (pch ∷ rest) l start total h =
      elim (Bool-cases (write_to_watchdir host l pch).1) [
        | inl written ↦
            let (one, cap) = write-one host l pch written in
            let l1 : Loader = (write_to_watchdir host l pch).0 in
            let (n, counted, later) = count-recursive pch rest start total h in
            let inner = load_rec-count host fuel pch l1 n counted in
            elim (Option-cases (load_watch_dir_rec host fuel pch l1)) [
              | inl out ↦ absurd (subst (Within 0 n l1) out inner)
              | inr ((l2, done), e) ↦
                  let within = subst (Within 0 n l1) e inner in
                  rw (load-deep pch rest l l2 done written e) (
                    Within-later start (suc start + n) total l l2
                      (load_words host true fuel rest l2) (omega arith)
                      (omega (arith, within.1, one)) (within.2 ∙ cap)
                      (load_words-count true rest l2 (suc start + n) total later))
            ]
        | inr refused ↦
            load_words-refused true pch rest l start total
              (count_words-le true (pch ∷ rest) start total h) refused
      ]

  -- If `get_watch_dir_count` ends and does not return -1, `load_watch_dir` ends, whether it returns
  -- 0 or -1, and has written at most so many names into `watch_dir`: with an array allocated for the
  -- count it never writes behind the end, if the directories are the same in both passes.
  pub load_watch_dir-count :
      (dict : Ini) (l : Loader) (total : ℕ)
      → get_watch_dir_count host fuel dict ≡ some (some total)
      → (result : Loader × Bool) × (load_watch_dir host fuel dict l ≡ some result)
        × (result.0.config.watch_dir_count ≤ l.config.watch_dir_count + total)
        × (result.0.config.capacity ≡ l.config.capacity)
  unfolding get_watch_dir_count load_watch_dir
  load_watch_dir-count dict l total h =
      let within = load_words-count (is_recursive dict) (dirs_of dict) l 0 total h in
      elim (Option-cases (load_words host (is_recursive dict) fuel (dirs_of dict) l)) [
        | inl out ↦ absurd (subst (Within 0 total l) out within)
        | inr (result, e) ↦
            let ends = subst (Within 0 total l) e within in
            (result, e, omega (arith, ends.1), ends.2)
      ]
