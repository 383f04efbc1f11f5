-- ===== src/Config/Load/Commands.antt =====
-- Which configurations that `config_load` returns have both commands.
use watch_it.Base.{
  some-inj, ℕ, suc, ◌+◌, ◌*◌, ◌≡◌, ◌⊎◌, refl, true, [], some, arith, length, if-rule, ap, sym,
  subst, ◌∙◌, Option-cases, Bool-cases, inl, inr,
}
use watch_it.CString.{Str, codes}
use watch_it.Config.Types.{Conf, Loader, Ini, Host}
use watch_it.Config.FireOn.{load_fire_on}
use watch_it.Config.Dirs.{write_to_watchdir, load_watch_dir, is_recursive, dirs_of}
use watch_it.Config.Dirs.Keeps.{Keeps, load_words-Keeps}
use watch_it.Config.FireOn.Flags.{load_fire_on-unknown}
use watch_it.Config.Load.Safe.{load_into-unknown, load_into-known}
use watch_it.Config.Load.{
  fetch_cmd, load_commands, load_rest, load_into, load_watch_content, load_min_read_close,
}

-- No type has been chosen yet, as in a fresh configuration.
abbrev IsUntyped : Loader → Type 0
IsUntyped l = l.config.type ≡ 0

-- Neither command is NULL.
pub record HasCommands (c : Conf) : Type 0 where
  pub opens : (text : Str) × (c.open_cmd ≡ some text)
  pub closes : (text : Str) × (c.close_cmd ≡ some text)

-- Both commands are there, unless no type has been chosen.
abbrev pub IsRunnable : Conf → Type 0
IsRunnable c = (c.type ≡ 0) ⊎ HasCommands c

-- `malloc` gives the bytes that `alloc_cmd` asks for.
abbrev pub GrantsCmd : Host → Ini → Str → Type 0
GrantsCmd host dict cmd = (n : ℕ) → host.grants n (8 * length (dict.getstring cmd []) + 1) ≡ true

module _ (host : Host) where
  write_type : (l : Loader) (pch : Str) → IsUntyped l → IsUntyped (write_to_watchdir host l pch).0
  unfolding write_to_watchdir
  write_type l pch h = ground (arith, h)

module _ (host : Host) (dict : Ini)
    (close_granted : GrantsCmd host dict (codes "folder:close_command"))
    (open_granted : GrantsCmd host dict (codes "folder:open_command")) where
  fetch_some :
      (cmd : Str) (l : Loader)
      → GrantsCmd host dict cmd
      → (fetch_cmd host cmd dict l).1 ≡ some (dict.getstring cmd [])
  unfolding fetch_cmd
  fetch_some cmd l granted = ground (arith, granted l.mallocs)

  load_commands-HasCommands :
      (l : Loader)
      → ((load_commands host dict l).1 ≡ true) × HasCommands (load_commands host dict l).0.config
  unfolding load_commands fetch_cmd
  load_commands-HasCommands l =
      let closing = close_granted l.mallocs in
      let opening = open_granted (suc l.mallocs) in
      (
        ground (arith, closing, opening),
        record {
          opens =
              (dict.getstring (codes "folder:open_command") [], ground (arith, closing, opening));
          closes =
              (dict.getstring (codes "folder:close_command") [], ground (arith, closing, opening));
        },
      )

  load_rest-HasCommands :
      (l : Loader) (c : Conf)
      → (load_fire_on dict c).1 ≡ true
      → HasCommands (load_rest host dict l).config
  unfolding load_rest load_min_read_close
  load_rest-HasCommands l c known =
      let content : Conf = load_watch_content l.config in
      let again : Conf = (load_fire_on dict content).0 in
      let still : (load_fire_on dict content).1 ≡ true =
        load_fire_on-unknown dict content ∙ sym (load_fire_on-unknown dict c) ∙ known in
      let (done, both) = load_commands-HasCommands (record l { config = again }) in
      let (opens, opens_e) = both.opens in
      let (closes, closes_e) = both.closes in
      record {
        opens = (opens, ground (arith, still, done, opens_e));
        closes = (closes, ground (arith, still, done, closes_e));
      }

  load_fire_on-type : (c : Conf) → (load_fire_on dict c).0.type ≡ c.type
  unfolding load_fire_on
  load_fire_on-type c = refl

  pub load_into-IsRunnable :
      (fuel : ℕ) (l c : Loader)
      → l.config.type ≡ 0
      → load_into host fuel dict l ≡ some c
      → IsRunnable c.config
  unfolding load_watch_dir
  load_into-IsRunnable fuel l c untyped e =
      let c0 : Conf = (load_fire_on dict l.config).0 in
      let l0 : Loader = record l { config = c0 } in
      let untyped0 : c0.type ≡ 0 = load_fire_on-type l.config ∙ untyped in
      elim (Bool-cases (load_fire_on dict l.config).1) [
        | inr unknown ↦
            let same : l0 ≡ c = some-inj (sym (load_into-unknown host fuel dict l unknown) ∙ e) in
            inl (ap (λ (x : Loader). x.config.type) (sym same) ∙ untyped0)
        | inl known ↦ elim (Option-cases (load_watch_dir host fuel dict l0)) [
          | inl out ↦ absurd (unfold load_into in ground (arith, known, out, e))
          | inr (result, w) ↦
              let words =
                load_words-Keeps host IsUntyped (write_type host) (is_recursive dict) fuel
                  (dirs_of dict) l0 untyped0 in
              let same = some-inj (sym (load_into-known host fuel dict l result known w) ∙ e) in
              subst (λ (x : Loader). IsRunnable x.config) same
                (if-rule (λ (x : Loader). IsRunnable x.config) result.1 _ _
                  (λ _. inr (load_rest-HasCommands result.0 l.config known))
                  (λ _. inl (subst (Keeps IsUntyped) w words)))
        ]
      ]
