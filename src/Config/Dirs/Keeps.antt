-- ===== src/Config/Dirs/Keeps.antt =====
-- What every `write_to_watchdir` keeps, the load of the directories keeps.
use watch_it.Base.{
  ℕ, zero, suc, ◌≡◌, All, Bool, List, [], ◌∷◌, Option, none, some, arith, subst, Option-cases,
  Bool-cases, inl, inr,
}
use watch_it.CString.{Str}
use watch_it.Config.Types.{Loader, Host}
use watch_it.Config.Dirs.{
  write_to_watchdir, load_entries, load_watch_dir_rec, load_words, classify, next_file, directory,
}
use watch_it.Config.Dirs.Fits.{Entry-cases}

-- A load that ends leaves a state with the property.
abbrev pub Keeps : (Loader → Type 0) → Option (Loader × Bool) → Type 0
Keeps P none = Unit
Keeps P (some r) = P r.0

-- What `write_to_watchdir` keeps for the paths in question: all that come from such a path by going
-- down to a directory.
module _ (host : Host) (P : Loader → Type 0) (Q : Str → Type 0)
    (keep : (l : Loader) (pch : Str) → Q pch → P l → P (write_to_watchdir host l pch).0)
    (down : (dir : Str) (names : List Str)
      → host.entries dir ≡ some names
      → Q dir
      → All (λ name. classify host dir name ≡ directory → Q (next_file dir name)) names) where
  load_entries-Keeps :
      (loader : Str → Loader → Option (Loader × Bool))
      → ((dir : Str) (l : Loader) → Q dir → P l → Keeps P (loader dir l))
      → (dir : Str) (names : List Str) (l : Loader)
      → All (λ name. classify host dir name ≡ directory → Q (next_file dir name)) names
      → P l
      → Keeps P (load_entries host loader dir names l)
  unfolding load_entries
  load_entries-Keeps loader step dir [] l q h = h
  load_entries-Keeps loader step dir (name ∷ rest) l q h =
      elim (Entry-cases (classify host dir name)) [
        | inl s ↦ ground (arith, s, load_entries-Keeps loader step dir rest l q.1 h)
        | inr (inl f) ↦ ground (arith, f, h)
        | inr (inr d) ↦
            let l1 : Loader = (write_to_watchdir host l (next_file dir name)).0 in
            let h1 : P l1 = keep l (next_file dir name) (q.0 d) h in
            elim (Bool-cases (write_to_watchdir host l (next_file dir name)).1) [
              | inr w ↦ ground (arith, d, w, h1)
              | inl w ↦ elim (Option-cases (loader (next_file dir name) l1)) [
                | inl out ↦ ground (arith, d, w, out)
                | inr ((l2, done), e) ↦
                    let h2 : P l2 = subst (Keeps P) e (step (next_file dir name) l1 (q.0 d) h1) in
                    ground (arith, d, w, e, h2, load_entries-Keeps loader step dir rest l2 q.1 h2)
              ]
            ]
      ]

  load_rec-Keeps :
      (fuel : ℕ) (dir : Str) (l : Loader)
      → Q dir
      → P l
      → Keeps P (load_watch_dir_rec host fuel dir l)
  unfolding load_watch_dir_rec
  load_rec-Keeps zero dir l q h = tt
  load_rec-Keeps (suc fuel) dir l q h = elim (Option-cases (host.entries dir)) [
    | inl closed ↦ ground (arith, closed, h)
    | inr (names, e) ↦ ground (
      arith,
      e,
      load_entries-Keeps (load_watch_dir_rec host fuel) (load_rec-Keeps fuel) dir names l
          (down dir names e q) h,
    )
  ]

  pub load_words-Keeps_from :
      (recursive : Bool) (fuel : ℕ) (words : List Str) (l : Loader)
      → All Q words
      → P l
      → Keeps P (load_words host recursive fuel words l)
  unfolding load_words
  load_words-Keeps_from recursive fuel [] l q h = h
  load_words-Keeps_from recursive fuel (pch ∷ rest) l q h =
      let l1 : Loader = (write_to_watchdir host l pch).0 in
      let h1 : P l1 = keep l pch q.0 h in
      elim (Bool-cases (write_to_watchdir host l pch).1) [
        | inr w ↦ ground (arith, w, h1)
        | inl w ↦ elim (Bool-cases recursive) [
          | inr flat ↦ ground (arith, w, flat, load_words-Keeps_from recursive fuel rest l1 q.1 h1)
          | inl deep ↦ elim (Option-cases (load_watch_dir_rec host fuel pch l1)) [
            | inl out ↦ ground (arith, w, deep, out)
            | inr ((l2, done), e) ↦
                let h2 : P l2 = subst (Keeps P) e (load_rec-Keeps fuel pch l1 q.0 h1) in
                ground (arith, w, deep, e, load_words-Keeps_from recursive fuel rest l2 q.1 h2)
          ]
        ]
      ]

All-trivial : {A : Type 0} (P : A → Type 0) → ((x : A) → P x) → (xs : List A) → All P xs
All-trivial P h [] = tt
All-trivial P h (x ∷ xs) = (h x, All-trivial P h xs)

-- What it keeps for every path.
pub load_words-Keeps :
    (host : Host) (P : Loader → Type 0)
    → ((l : Loader) (pch : Str) → P l → P (write_to_watchdir host l pch).0)
    → (recursive : Bool) (fuel : ℕ) (words : List Str) (l : Loader) → P l
    → Keeps P (load_words host recursive fuel words l)
load_words-Keeps host P keep recursive fuel words l h =
    load_words-Keeps_from host P (λ _. Unit {0}) (λ l pch _ h. keep l pch h)
      (λ dir names e q. All-trivial _ (λ name d. tt) names) recursive fuel words l
      (All-trivial _ (λ w. tt) words) h
