-- ===== src/Daemon/Start/Watched.antt =====
-- Which directories are watched once `begin_watch` has reached its loop.
use watch_it.Base.{
  ℕ, ◌<◌, ◌≡◌, ◌≢◌, refl, sym, subst, ◌∙◌, true, false, List, [], ◌∷◌, some, All, length, take,
  ◌==◌, arith, Option-cases, Bool-cases, inl, inr, ◌⊎◌,
}
use watch_it.CString.{Str}
use watch_it.Config.Types.{Conf}
use watch_it.Config.Load.{Loaded, null, loaded, fault}
use watch_it.Handling.Types.{State, Env}
use watch_it.Daemon.Table.{Table, WdNameTuple, add_to_map, find_in_map}
use watch_it.Daemon.Table.Laws.{IsValid, find_in_map-add_to_map, new_tuple}
use watch_it.Daemon.Start.{Kernel, watch_loop, watching, begin_watch, exits, main, is_negative}

-- The table has a tuple for the descriptor.
abbrev pub IsKnown : ℕ → Table → Type 0
IsKnown wd t = (x : WdNameTuple) × (find_in_map wd t ≡ some x)

length_zero : (dir : Str) → (length dir == 0) ≡ true → dir ≡ []
length_zero [] h = refl
length_zero (c ∷ dir) h = absurd (ground arith)

module _ (kernel : Kernel) (config : Conf) where
  abbrev wd_of : Str → ℕ
  wd_of dir = kernel.inotify_add_watch dir config.fire_on

  -- A directory with a name has a tuple for its descriptor.
  abbrev pub IsWatched : Table → Str → Type 0
  IsWatched t dir = (dir ≡ []) ⊎ IsKnown (wd_of dir) t

  add_to_map-IsKnown :
      (dir : Str) (t : Table) (k : ℕ)
      → IsValid t
      → (add_to_map dir (wd_of dir) config.type config.min_read_close t).1 ≡ true
      → IsKnown k t
      → IsKnown k (add_to_map dir (wd_of dir) config.type config.min_read_close t).0
  add_to_map-IsKnown dir t k v done (x, e) =
      elim (find_in_map-add_to_map dir (wd_of dir) config.type config.min_read_close t k v).1 [
        | inl (failed, _, _) ↦ absurd (cc (failed, done))
        | inr (_, _, found) ↦ (x, ground (arith, found, e))
      ]

  add_to_map-own :
      (dir : Str) (t : Table)
      → IsValid t
      → (add_to_map dir (wd_of dir) config.type config.min_read_close t).1 ≡ true
      → IsKnown (wd_of dir) (add_to_map dir (wd_of dir) config.type config.min_read_close t).0
  add_to_map-own dir t v done =
      let wd = wd_of dir in
      elim (find_in_map-add_to_map dir wd config.type config.min_read_close t wd v).1 [
        | inl (failed, _, _) ↦ absurd (cc (failed, done))
        | inr (_, _, found) ↦ elim (Option-cases (find_in_map wd t)) [
          | inl unknown ↦
              (new_tuple dir wd config.type config.min_read_close, ground (arith, found, unknown))
          | inr (x, e) ↦ (x, ground (arith, found, e))
        ]
      ]

  -- A round for a directory without a name, and for one with a name.
  pub loop-empty :
      (dir : Str) (rest : List Str) (t : Table)
      → (length dir == 0) ≡ true
      → watch_loop kernel config (dir ∷ rest) t ≡ watch_loop kernel config rest t
  unfolding watch_loop
  loop-empty dir rest t h = ground (arith, h)

  pub loop-named :
      (dir : Str) (rest : List Str) (t t' : Table)
      → (length dir == 0) ≡ false
      → watch_loop kernel config (dir ∷ rest) t ≡ some t'
      → ((add_to_map dir (wd_of dir) config.type config.min_read_close t).1 ≡ true)
        × (watch_loop kernel config rest
              (add_to_map dir (wd_of dir) config.type config.min_read_close t).0
            ≡ some t')
  unfolding watch_loop
  loop-named dir rest t t' h e = (ground (arith, h, e), ground (arith, h, e))

  pub loop-nil : (t t' : Table) → watch_loop kernel config [] t ≡ some t' → t ≡ t'
  unfolding watch_loop
  loop-nil t t' h = ground (arith, h)

  watch_loop-IsKnown :
      (dirs : List Str) (t t' : Table)
      → IsValid t
      → watch_loop kernel config dirs t ≡ some t'
      → All (IsWatched t') dirs × IsValid t' × ((k : ℕ) → IsKnown k t → IsKnown k t')
  watch_loop-IsKnown [] t t' v h =
      let e = loop-nil t t' h in (tt, subst IsValid e v, λ k known. subst (IsKnown k) e known)
  watch_loop-IsKnown (dir ∷ rest) t t' v h = elim (Bool-cases (length dir == 0)) [
    | inl empty ↦
        let (all, valid, keep) =
          watch_loop-IsKnown rest t t' v (sym (loop-empty dir rest t empty) ∙ h) in
        ((inl (length_zero dir empty), all), valid, keep)
    | inr named ↦
        let (done, later) = loop-named dir rest t t' named h in
        let t1 : Table = (add_to_map dir (wd_of dir) config.type config.min_read_close t).0 in
        let v1 : IsValid t1 =
          (find_in_map-add_to_map dir (wd_of dir) config.type config.min_read_close t 0 v).0 in
        let (all, valid, keep) = watch_loop-IsKnown rest t1 t' v1 later in
        (
          (inr (keep (wd_of dir) (add_to_map-own dir t v done)), all),
          valid,
          λ k known. keep k (add_to_map-IsKnown dir t k v done known),
        )
  ]

begin_guards :
    (env : Env) (kernel : Kernel) (config : Conf) (t t' : Table) (s s' : State)
    → begin_watch env kernel config t s ≡ watching t' s'
    → (config.fire_on ≢ 0) × (config.watch_dir_count ≢ 0) × (config.type ≢ 0)
unfolding begin_watch
begin_guards env kernel config t t' s s' h =
    ((λ e. ground arith), (λ e. ground arith), (λ e. ground arith))

pub begin_table :
    (env : Env) (kernel : Kernel) (config : Conf) (t t' : Table) (s s' : State)
    → begin_watch env kernel config t s ≡ watching t' s'
    → watch_loop kernel config (take config.watch_dir_count config.watch_dir) t ≡ some t'
unfolding begin_watch
begin_table env kernel config t t' s s' h = ground arith

-- If `begin_watch` reaches its endless loop, there is something to fire on, something to watch and
-- a type; every directory with a name among the first `watch_dir_count` ones has a tuple for its
-- descriptor in the table, which is still within its bounds.
pub begin_watch-watching :
    (env : Env) (kernel : Kernel) (config : Conf) (t t' : Table) (s s' : State)
    → IsValid t
    → begin_watch env kernel config t s ≡ watching t' s'
    → (config.fire_on ≢ 0)
      × (config.watch_dir_count ≢ 0)
      × (config.type ≢ 0)
      × All (IsWatched kernel config t') (take config.watch_dir_count config.watch_dir)
      × IsValid t'
begin_watch-watching env kernel config t t' s s' v h =
    let (fires, counts, types) = begin_guards env kernel config t t' s s' h in
    let (all, valid, _) =
      watch_loop-IsKnown kernel config (take config.watch_dir_count config.watch_dir) t t' v
        (begin_table env kernel config t t' s s' h) in
    (fires, counts, types, all, valid)

-- The process exits with status 0 exactly if it is the parent of the daemon, whose `fork` returned
-- a positive number: no failure, and no end of the daemon, has that status.
pub main-exits_zero :
    (env : Env) (kernel : Kernel) (t : Table) (s : State) (config : Loaded)
    → (main env kernel t s config ≡ exits 0 → (0 < kernel.fork) × (is_negative kernel.fork ≡ false))
      × ((0 < kernel.fork) × (is_negative kernel.fork ≡ false)
          → main env kernel t s config ≡ exits 0)
unfolding main
main-exits_zero env kernel t s null = ((λ h. ground arith), (λ h. ground (arith, h)))
main-exits_zero env kernel t s fault = ((λ h. ground arith), (λ h. ground (arith, h)))
main-exits_zero env kernel t s (loaded l) = ((λ h. ground arith), (λ h. ground (arith, h)))
