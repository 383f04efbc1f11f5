-- ===== src/Config/Dirs/Fits.antt =====
-- What `load_watch_dir` writes fits what `get_watch_dir_count` has counted.
use watch_it.Base.{
  ℕ, zero, suc, ◌+◌, ◌≤◌, ◌≡◌, refl, Bool, true, false, List, [], ◌∷◌, Option, none, some, ◌⊎◌, ◌∙◌,
  sym, subst, if-rule, if◌then◌else◌, arith, Option-cases, Bool-cases, inl, inr,
}
use watch_it.CString.{Str}
use watch_it.Config.Types.{Loader, Host}
use watch_it.Config.Dirs.{
  is_negative, Entry, skipped, failed, directory, classify, next_file, count_entries,
  count_all_dirs, write_to_watchdir, load_entries, load_watch_dir_rec,
}

pub Entry-cases : (e : Entry) → (e ≡ skipped) ⊎ (e ≡ failed) ⊎ (e ≡ directory)
Entry-cases skipped = inl refl
Entry-cases failed = inr (inl refl)
Entry-cases directory = inr (inr refl)

-- The count goes from `start` to `total`, and a load that starts with `l` ends and has written no
-- more directories than that.
abbrev pub Within : ℕ → ℕ → Loader → Option (Loader × Bool) → Type 0
Within start total l none = ⊥
Within start total l (some (l', done)) =
    (start ≤ total)
    × (l'.config.watch_dir_count + start ≤ l.config.watch_dir_count + total)
    × (l'.config.capacity ≡ l.config.capacity)

-- A load that goes on from `l'`.
pub Within-later :
    (a b c : ℕ) (l l' : Loader) (r : Option (Loader × Bool))
    → a ≤ b
    → l'.config.watch_dir_count + a ≤ l.config.watch_dir_count + b
    → l'.config.capacity ≡ l.config.capacity
    → Within b c l' r
    → Within a c l r
Within-later a b c l l' none p q e w = w
Within-later a b c l l' (some (l2, done)) p q e w = (omega arith, omega arith, w.2 ∙ e)

module _ (host : Host) where
  -- The state after the `malloc` of `write_to_watchdir`, by its outcome.
  pub write-refused :
      (l : Loader) (pch : Str)
      → (write_to_watchdir host l pch).1 ≡ false
      → ((write_to_watchdir host l pch).0.config.watch_dir_count ≡ l.config.watch_dir_count)
        × ((write_to_watchdir host l pch).0.config.capacity ≡ l.config.capacity)
  unfolding write_to_watchdir
  write-refused l pch h = ground arith

  pub write-one :
      (l : Loader) (pch : Str)
      → (write_to_watchdir host l pch).1 ≡ true
      → ((write_to_watchdir host l pch).0.config.watch_dir_count ≡ suc l.config.watch_dir_count)
        × ((write_to_watchdir host l pch).0.config.capacity ≡ l.config.capacity)
  unfolding write_to_watchdir
  write-one l pch h = ground arith

  -- A directory among the entries, for the two loops.
  count-directory :
      (counter : Str → Option (Option ℕ)) (dir name : Str) (rest : List Str) (start total : ℕ)
      → classify host dir name ≡ directory
      → count_entries host counter dir (name ∷ rest) start ≡ some (some total)
      → (n : ℕ) × (counter (next_file dir name) ≡ some (some n))
        × (count_entries host counter dir rest (suc start + n) ≡ some (some total))
  unfolding count_entries
  count-directory counter dir name rest start total d h =
      elim (Option-cases (counter (next_file dir name))) [
        | inl out ↦ absurd (ground (arith, d, out, h))
        | inr (none, e) ↦ absurd (ground (arith, d, e, h))
        | inr (some n, e) ↦ elim (Bool-cases (is_negative n)) [
          | inl negative ↦ absurd (ground (arith, d, e, negative, h))
          | inr positive ↦ (n, e, ground (arith, d, e, positive, h))
        ]
      ]

  pub count-skipped :
      (counter : Str → Option (Option ℕ)) (dir name : Str) (rest : List Str) (start : ℕ)
      → classify host dir name ≡ skipped
      → count_entries host counter dir (name ∷ rest) start
        ≡ count_entries host counter dir rest start
  unfolding count_entries
  count-skipped counter dir name rest start d = ground (arith, d)

  pub count-failed :
      (counter : Str → Option (Option ℕ)) (dir name : Str) (rest : List Str) (start : ℕ)
      → classify host dir name ≡ failed
      → count_entries host counter dir (name ∷ rest) start ≡ some none
  unfolding count_entries
  count-failed counter dir name rest start d = ground (arith, d)

  count-nil :
      (counter : Str → Option (Option ℕ)) (dir : Str) (start total : ℕ)
      → count_entries host counter dir [] start ≡ some (some total)
      → start ≡ total
  unfolding count_entries
  count-nil counter dir start total h = ground (arith, h)

  -- The count only grows.
  count_entries-le :
      (counter : Str → Option (Option ℕ)) (dir : Str) (names : List Str) (start total : ℕ)
      → count_entries host counter dir names start ≡ some (some total)
      → start ≤ total
  count_entries-le counter dir [] start total h = omega (arith, count-nil counter dir start total h)
  count_entries-le counter dir (name ∷ rest) start total h =
      elim (Entry-cases (classify host dir name)) [
        | inl s ↦
            count_entries-le counter dir rest start total
              (sym (count-skipped counter dir name rest start s) ∙ h)
        | inr (inl f) ↦ absurd (cc (count-failed counter dir name rest start f, h))
        | inr (inr d) ↦
            let (n, counted, later) = count-directory counter dir name rest start total d h in
            omega (arith, count_entries-le counter dir rest (suc start + n) total later)
      ]

  -- If a directory's entries can be counted, the load of them ends within the count.
  module _ (counter : Str → Option (Option ℕ)) (loader : Str → Loader → Option (Loader × Bool))
      (step : (dir : Str) (l : Loader) (n : ℕ)
        → counter dir ≡ some (some n)
        → Within 0 n l (loader dir l)) where
    load_entries-skipped :
        (dir name : Str) (rest : List Str) (l : Loader)
        → classify host dir name ≡ skipped
        → load_entries host loader dir (name ∷ rest) l ≡ load_entries host loader dir rest l
    unfolding load_entries
    load_entries-skipped dir name rest l d = ground (arith, d)

    load_entries-refused :
        (dir name : Str) (rest : List Str) (l : Loader)
        → classify host dir name ≡ directory
        → (write_to_watchdir host l (next_file dir name)).1 ≡ false
        → load_entries host loader dir (name ∷ rest) l
          ≡ some ((write_to_watchdir host l (next_file dir name)).0, false)
    unfolding load_entries
    load_entries-refused dir name rest l d w = ground (arith, d, w)

    load_entries-written :
        (dir name : Str) (rest : List Str) (l l2 : Loader) (done : Bool)
        → classify host dir name ≡ directory
        → (write_to_watchdir host l (next_file dir name)).1 ≡ true
        → loader (next_file dir name) (write_to_watchdir host l (next_file dir name)).0
          ≡ some (l2, done)
        → load_entries host loader dir (name ∷ rest) l
          ≡ (if done then load_entries host loader dir rest l2 else some (l2, false))
    unfolding load_entries
    load_entries-written dir name rest l l2 done d w e = ground (arith, d, w, e)

    -- A directory whose name could be written: its own load, and then the other entries.
    entry_written :
        (dir name : Str) (rest : List Str) (l : Loader) (start total n : ℕ)
        → classify host dir name ≡ directory
        → (write_to_watchdir host l (next_file dir name)).1 ≡ true
        → counter (next_file dir name) ≡ some (some n)
        → suc start + n ≤ total
        → ((l2 : Loader) → Within (suc start + n) total l2 (load_entries host loader dir rest l2))
        → Within start total l (load_entries host loader dir (name ∷ rest) l)
    entry_written dir name rest l start total n d written counted le continue =
        let w = write_to_watchdir host l (next_file dir name) in
        let (one, cap) = write-one l (next_file dir name) written in
        let inner = step (next_file dir name) w.0 n counted in
        elim (Option-cases (loader (next_file dir name) w.0)) [
          | inl out ↦ absurd (subst (Within 0 n w.0) out inner)
          | inr ((l2, done), e) ↦
              let within = subst (Within 0 n w.0) e inner in
              rw (load_entries-written dir name rest l l2 done d written e) (
                if-rule (Within start total l) done _ _
                  (λ _.
                    Within-later start (suc start + n) total l l2
                      (load_entries host loader dir rest l2) (omega arith)
                      (omega (arith, within.1, one)) (within.2 ∙ cap) (continue l2))
                  (λ _. (omega arith, omega (arith, within.1, one), within.2 ∙ cap)))
        ]

    load_entries-count :
        (dir : Str) (names : List Str) (l : Loader) (start total : ℕ)
        → count_entries host counter dir names start ≡ some (some total)
        → Within start total l (load_entries host loader dir names l)
    load_entries-count dir [] l start total h =
        let e = count-nil counter dir start total h in
        unfold load_entries in (omega (arith, e), omega (arith, e), refl)
    load_entries-count dir (name ∷ rest) l start total h =
        elim (Entry-cases (classify host dir name)) [
          | inl s ↦ rw (load_entries-skipped dir name rest l s) (
              load_entries-count dir rest l start total
                (sym (count-skipped counter dir name rest start s) ∙ h))
          | inr (inl f) ↦ absurd (cc (count-failed counter dir name rest start f, h))
          | inr (inr d) ↦
              let (n, counted, later) = count-directory counter dir name rest start total d h in
              let le = count_entries-le counter dir rest (suc start + n) total later in
              elim (Bool-cases (write_to_watchdir host l (next_file dir name)).1) [
                | inl written ↦
                    entry_written dir name rest l start total n d written counted le
                      (λ l2. load_entries-count dir rest l2 (suc start + n) total later)
                | inr refused ↦
                    let (same, cap) = write-refused l (next_file dir name) refused in
                    rw (load_entries-refused dir name rest l d refused)
                      (omega (arith, le), omega (arith, le, same), cap)
              ]
        ]

  load_rec-opened :
      (fuel : ℕ) (dir : Str) (names : List Str) (l : Loader)
      → host.entries dir ≡ some names
      → load_watch_dir_rec host (suc fuel) dir l
        ≡ load_entries host (load_watch_dir_rec host fuel) dir names l
  unfolding load_watch_dir_rec
  load_rec-opened fuel dir names l e = ground (arith, e)

  -- The same for a directory, to any depth.
  pub load_rec-count :
      (fuel : ℕ) (dir : Str) (l : Loader) (n : ℕ)
      → count_all_dirs host fuel dir ≡ some (some n)
      → Within 0 n l (load_watch_dir_rec host fuel dir l)
  unfolding count_all_dirs
  load_rec-count zero dir l n h = absurd (cc)
  load_rec-count (suc fuel) dir l n h = elim (Option-cases (host.entries dir)) [
    | inl closed ↦ absurd (ground (arith, closed, h))
    | inr (names, e) ↦ rw (load_rec-opened fuel dir names l e) (
        load_entries-count (count_all_dirs host fuel) (load_watch_dir_rec host fuel)
          (load_rec-count fuel) dir names l 0 n (ground (arith, e, h)))
  ]
