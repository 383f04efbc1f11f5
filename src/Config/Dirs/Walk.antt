-- ===== src/Config/Dirs/Walk.antt =====
-- Which directories the two passes find when nothing fails: those that the file names, each before
-- the directories below it.
pub mod Exact
use watch_it.Base.{
  ℕ, zero, suc, ◌^◌, ◌+◌, ◌<◌, ◌≡◌, refl, sym, ap, ◌∙◌, Bool, true, false, List, [], ◌∷◌, ◌++◌,
  Option, none, some, All, length, length-append, append-nil, append_assoc, arith, inl, inr,
  if◌then◌else◌,
}
use watch_it.CString.{Str}
use watch_it.Config.Types.{Conf, Loader, Ini, Host}
use watch_it.Config.Dirs.{
  is_negative, skipped, failed, directory, classify, next_file, count_entries, count_all_dirs,
  count_words, get_watch_dir_count, write_to_watchdir, load_entries, load_watch_dir_rec, load_words,
  load_watch_dir, is_recursive, dirs_of,
}
use watch_it.Config.Dirs.Fits.{Entry-cases, count-skipped}
use watch_it.Config.Dirs.Ends.{IsTree}

-- `opendir`, `lstat`, `closedir` and `malloc` never fail.
pub record IsReliable (host : Host) : Type 0 where
  pub opens : (dir : Str) → (names : List Str) × (host.entries dir ≡ some names)
  pub sees : (path : Str) → (is_directory : Bool) × (host.lstat path ≡ some is_directory)
  pub closes : (dir : Str) → host.closedir dir ≡ true
  pub grants : (n size : ℕ) → host.grants n size ≡ true

abbrev pub names_in : Option (List Str) → List Str
names_in none = []
names_in (some names) = names

module _ (host : Host) where
  -- The directories among some entries, each followed by what is below it.
  abbrev pub walk_entries : (Str → List Str) → Str → List Str → List Str
  walk_entries below dir [] = []
  walk_entries below dir (name ∷ rest) =
      let later = walk_entries below dir rest in
      let path = next_file dir name in
      elim (classify host dir name) [
        | skipped ↦ later
        | failed ↦ later
        | directory ↦ path ∷ (below path ++ later)
      ]

  -- The directories below one, down to a depth.
  unfoldable pub walk : ℕ → Str → List Str
  walk zero dir = []
  walk (suc depth) dir = walk_entries (walk depth) dir (names_in (host.entries dir))

  -- The directories that some words stand for.
  unfoldable pub walk_words : Bool → ℕ → List Str → List Str
  walk_words recursive depth [] = []
  walk_words recursive depth (word ∷ rest) =
      word ∷ ((if recursive then walk depth word else []) ++ walk_words recursive depth rest)

-- The number fits an `int`.
pub non_negative : (n : ℕ) → n < 2 ^ 31 → is_negative n ≡ false
non_negative n h = ground (arith, h)

-- The load after some more names have been written.
unfoldable pub written : List Str → Loader → Loader
written names l = record {
  config = record (l.config) {
    watch_dir = l.config.watch_dir ++ names;
    watch_dir_count = l.config.watch_dir_count + length names;
  };
  mallocs = l.mallocs + length names;
  live = l.live + length names;
}

pub written-nil : (l : Loader) → written [] l ≡ l
unfolding written
written-nil l = ground (arith, append-nil l.config.watch_dir)

pub written-append :
    (xs ys : List Str) (l : Loader) → written (xs ++ ys) l ≡ written ys (written xs l)
unfolding written
written-append xs ys l = ground (arith, append_assoc l.config.watch_dir xs ys, length-append xs ys)

module _ (host : Host) (works : IsReliable host) where
  pub write-written :
      (l : Loader) (pch : Str) → write_to_watchdir host l pch ≡ (written (pch ∷ []) l, true)
  unfolding write_to_watchdir written
  write-written l pch = ground (arith, works.grants l.mallocs (length pch + 1))

  classify-ne-failed : (dir name : Str) → classify host dir name ≡ failed → ⊥
  unfolding classify
  classify-ne-failed dir name h =
      let (seen, e) = works.sees (next_file dir name) in ground (arith, e, h)

  module _ (below : Str → List Str) (counter : Str → Option (Option ℕ)) where
    abbrev IsCounted : Str → Type 0
    IsCounted path = length (below path) < 2 ^ 31 → counter path ≡ some (some (length (below path)))

    pub count_entries-walk :
        (dir : Str) (names : List Str) (start : ℕ)
        → All (λ name. classify host dir name ≡ directory → IsCounted (next_file dir name)) names
        → length (walk_entries host below dir names) < 2 ^ 31
        → count_entries host counter dir names start
          ≡ some (some (start + length (walk_entries host below dir names)))
    unfolding count_entries
    count_entries-walk dir [] start h few = ground (arith, works.closes dir)
    count_entries-walk dir (name ∷ rest) start h few =
        let path = next_file dir name in
        let later = walk_entries host below dir rest in
        elim (Entry-cases (classify host dir name)) [
          | inl s ↦
              let fewer : length later < 2 ^ 31 = ground (arith, s, few) in
              ground (arith, s, count_entries-walk dir rest start h.1 fewer)
          | inr (inl f) ↦ absurd (classify-ne-failed dir name f)
          | inr (inr d) ↦
              let both = length-append (below path) later in
              let whole : suc (length (below path) + length later) < 2 ^ 31 =
                ground (arith, d, few, both) in
              let inner : length (below path) < 2 ^ 31 = omega (arith, whole) in
              ground (
                arith,
                d,
                h.0 d inner,
                non_negative (length (below path)) inner,
                both,
                count_entries-walk dir rest (suc start + length (below path)) h.1
                    (omega (arith, whole)),
              )
        ]

  module _ (below : Str → List Str) (loader : Str → Loader → Option (Loader × Bool)) where
    abbrev IsLoaded : Str → Type 0
    IsLoaded path = (l : Loader) → loader path l ≡ some (written (below path) l, true)

    pub load_entries-walk :
        (dir : Str) (names : List Str) (l : Loader)
        → All (λ name. classify host dir name ≡ directory → IsLoaded (next_file dir name)) names
        → load_entries host loader dir names l
          ≡ some (written (walk_entries host below dir names) l, true)
    unfolding load_entries
    load_entries-walk dir [] l h = ground (arith, works.closes dir, written-nil l)
    load_entries-walk dir (name ∷ rest) l h =
        let path = next_file dir name in
        let later = walk_entries host below dir rest in
        let l1 = written (path ∷ []) l in
        let l2 = written (below path) l1 in
        elim (Entry-cases (classify host dir name)) [
          | inl s ↦ ground (arith, s, load_entries-walk dir rest l h.1)
          | inr (inl f) ↦ absurd (classify-ne-failed dir name f)
          | inr (inr d) ↦
              let split : written (path ∷ (below path ++ later)) l ≡ written later l2 =
                written-append (path ∷ []) (below path ++ later) l
                ∙ written-append (below path) later l1 in
              ground
                (arith, d, write-written l path, h.0 d l1, load_entries-walk dir rest l2 h.1, split)
        ]
