-- ===== src/Config/Load/Paths.antt =====
-- The paths that `config_load` writes: what holds of the words of the file, and goes over from a
-- directory to the directories in it, holds of every name in `watch_dir`.
use watch_it.Base.{
  ℕ, ◌≡◌, sym, subst, ◌∙◌, Bool, List, [], ◌∷◌, some, All, All-append, some-inj, if-rule, arith,
  Bool-cases, Option-cases, inl, inr,
}
use watch_it.CString.{Str}
use watch_it.Config.Types.{Conf, Loader, Ini, Host}
use watch_it.Config.FireOn.{load_fire_on}
use watch_it.Config.Dirs.{
  write_to_watchdir, load_watch_dir, classify, directory, next_file, is_recursive, dirs_of,
}
use watch_it.Config.Dirs.Keeps.{Keeps, load_words-Keeps_from}
use watch_it.Config.Load.{
  config_init, load_commands, load_rest, load_into, loaded, config_load, load_watch_content,
}
use watch_it.Config.Load.Safe.{load_into-unknown, load_into-known}
use watch_it.Config.Load.Inversion.{fresh_loader, config_load-loaded}

module _ (host : Host) where
  fire_on-watch_dir : (dict : Ini) (c : Conf) → (load_fire_on dict c).0.watch_dir ≡ c.watch_dir
  unfolding load_fire_on
  fire_on-watch_dir dict c = ground arith

  commands-watch_dir :
      (dict : Ini) (l : Loader)
      → (load_commands host dict l).0.config.watch_dir ≡ l.config.watch_dir
  unfolding load_commands
  commands-watch_dir dict l = ground arith

  rest-watch_dir :
      (dict : Ini) (l : Loader) → (load_rest host dict l).config.watch_dir ≡ l.config.watch_dir
  unfolding load_rest
  rest-watch_dir dict l =
      let again : Loader = record l {
        config = (load_fire_on dict (load_watch_content l.config)).0;
      } in
      ground
        (arith, fire_on-watch_dir dict (load_watch_content l.config), commands-watch_dir dict again)

  module _ (Q : Str → Type 0)
      (down : (dir : Str) (names : List Str)
        → host.entries dir ≡ some names
        → Q dir
        → All (λ name. classify host dir name ≡ directory → Q (next_file dir name)) names) where
    abbrev Named : Loader → Type 0
    Named l = All Q l.config.watch_dir

    write-Named :
        (l : Loader) (pch : Str) → Q pch → Named l → Named (write_to_watchdir host l pch).0
    unfolding write_to_watchdir
    write-Named l pch q h =
        if-rule (λ (r : Loader × Bool). Named r.0) _ _ _
          (λ _. All-append Q l.config.watch_dir (pch ∷ []) h (q, tt)) (λ _. h)

    into-Named :
        (fuel : ℕ) (dict : Ini) (l c : Loader)
        → All Q (dirs_of dict)
        → Named l
        → load_into host fuel dict l ≡ some c
        → Named c
    unfolding load_watch_dir
    into-Named fuel dict l c words h e =
        let l0 : Loader = record l { config = (load_fire_on dict l.config).0 } in
        let h0 : Named l0 = subst (All Q) (sym (fire_on-watch_dir dict l.config)) h in
        elim (Bool-cases (load_fire_on dict l.config).1) [
          | inr unknown ↦
              subst Named (some-inj (sym (load_into-unknown host fuel dict l unknown) ∙ e)) h0
          | inl known ↦ elim (Option-cases (load_watch_dir host fuel dict l0)) [
            | inl out ↦ absurd (unfold load_into in ground (arith, known, out, e))
            | inr (result, w) ↦
                let written =
                  load_words-Keeps_from host Named Q write-Named down (is_recursive dict) fuel
                    (dirs_of dict) l0 words h0 in
                let h1 : Named result.0 = subst (Keeps Named) w written in
                subst Named (some-inj (sym (load_into-known host fuel dict l result known w) ∙ e)) (
                  if-rule Named result.1 _ _
                    (λ _. subst (All Q) (sym (rest-watch_dir dict result.0)) h1) (λ _. h1))
          ]
        ]

    pub config_load-Named :
        (fuel : ℕ) (readable : Bool) (dict : Ini) (l : Loader)
        → All Q (dirs_of dict)
        → config_load host fuel readable (some dict) ≡ some (loaded l)
        → All Q l.config.watch_dir
    unfolding config_init
    config_load-Named fuel readable dict l words e =
        let (count, into) = config_load-loaded host fuel dict readable l e in
        into-Named fuel dict (fresh_loader count) l words tt into
