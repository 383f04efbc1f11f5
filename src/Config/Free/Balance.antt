-- ===== src/Config/Free/Balance.antt =====
-- `config_free` gives back what `config_load` has allocated.
use watch_it.Base.{
  some-inj, ℕ, zero, suc, ◌+◌, ◌-◌, ◌≡◌, Bool, Option, none, some, arith, if-rule, sym, subst, ◌∙◌,
  Option-cases, Bool-cases, inl, inr,
}
use watch_it.CString.{Str}
use watch_it.Config.Types.{Conf, Loader, Ini, Host}
use watch_it.Config.FireOn.{load_fire_on}
use watch_it.Config.Dirs.{write_to_watchdir, load_watch_dir, is_recursive, dirs_of}
use watch_it.Config.Dirs.Keeps.{Keeps, load_words-Keeps}
use watch_it.Config.Load.{
  config_init, load_commands, load_rest, load_into, loaded, config_load, load_watch_content,
}
use watch_it.Config.Load.Safe.{load_into-unknown, load_into-known}
use watch_it.Config.Load.Inversion.{fresh_loader, config_load-loaded}
use watch_it.Config.Free.{config_free, free_cmd, free_names}

-- The blocks of one command.
abbrev cmd_blocks : Option Str → ℕ
cmd_blocks none = 0
cmd_blocks (some cmd) = 1

-- The blocks of a configuration: itself, its array, the names and the commands.
abbrev blocks : Conf → ℕ
blocks c = 2 + c.watch_dir_count + cmd_blocks c.open_cmd + cmd_blocks c.close_cmd

abbrev IsBalanced : Loader → Type 0
IsBalanced l = l.live ≡ blocks l.config

-- Before the commands are loaded.
record IsBare (l : Loader) : Type 0 where
  balanced : l.live ≡ 2 + l.config.watch_dir_count
  opens : l.config.open_cmd ≡ none
  closes : l.config.close_cmd ≡ none

free_names_lem : (n k live : ℕ) → live ≡ n + k → free_names n live ≡ k
unfolding free_names
free_names_lem zero k live h = omega arith
free_names_lem (suc n) k live h = free_names_lem n k (live - 1) (omega arith)

free_cmd_lem : (cmd : Option Str) (k live : ℕ) → live ≡ cmd_blocks cmd + k → free_cmd cmd live ≡ k
unfolding free_cmd
free_cmd_lem none k live h = omega arith
free_cmd_lem (some cmd) k live h = omega arith

-- Exactly the blocks of the configuration are freed.
config_free-blocks :
    (c : Conf) (others live : ℕ) → live ≡ blocks c + others → config_free (some c) live ≡ others
unfolding config_free
config_free-blocks c others live h =
    let opened = cmd_blocks c.open_cmd + suc others in
    let closed = cmd_blocks c.close_cmd + opened in
    let names = free_names_lem c.watch_dir_count (suc closed) live (omega arith) in
    let array = free_names c.watch_dir_count live - 1 in
    let closes = free_cmd_lem c.close_cmd opened array (omega (arith, names)) in
    let opens = free_cmd_lem c.open_cmd (suc others) (free_cmd c.close_cmd array) closes in
    omega (arith, opens)

IsBare-IsBalanced : (l : Loader) → IsBare l → IsBalanced l
IsBare-IsBalanced l h = ground (arith, h)

module _ (host : Host) where
  write-IsBare : (l : Loader) (pch : Str) → IsBare l → IsBare (write_to_watchdir host l pch).0
  unfolding write_to_watchdir
  write-IsBare l pch h = ground (arith, h)

  fire_on-IsBare :
      (dict : Ini) (l : Loader)
      → IsBare l
      → IsBare (record l { config = (load_fire_on dict l.config).0 })
  unfolding load_fire_on
  fire_on-IsBare dict l h = ground (arith, h)

  commands-IsBalanced :
      (dict : Ini) (l : Loader) → IsBare l → IsBalanced (load_commands host dict l).0
  unfolding load_commands
  commands-IsBalanced dict l h = ground (arith, h)

  rest-IsBalanced : (dict : Ini) (l : Loader) → IsBare l → IsBalanced (load_rest host dict l)
  unfolding load_rest
  rest-IsBalanced dict l h =
      let content : Loader = record l { config = load_watch_content l.config } in
      let again : Loader = record l { config = (load_fire_on dict content.config).0 } in
      let bare : IsBare content = ground (arith, h) in
      let bare' : IsBare again = fire_on-IsBare dict content bare in
      let loaded = commands-IsBalanced dict again bare' in
      let here = IsBare-IsBalanced again bare' in ground (arith, loaded, here)

  -- `load_into` on a fresh configuration.
  into-IsBalanced :
      (fuel : ℕ) (dict : Ini) (l c : Loader)
      → IsBare l
      → load_into host fuel dict l ≡ some c
      → IsBalanced c
  unfolding load_watch_dir
  into-IsBalanced fuel dict l c bare e =
      let l0 : Loader = record l { config = (load_fire_on dict l.config).0 } in
      let bare0 : IsBare l0 = fire_on-IsBare dict l bare in
      elim (Bool-cases (load_fire_on dict l.config).1) [
        | inr unknown ↦
            subst IsBalanced (some-inj (sym (load_into-unknown host fuel dict l unknown) ∙ e))
              (IsBare-IsBalanced l0 bare0)
        | inl known ↦ elim (Option-cases (load_watch_dir host fuel dict l0)) [
          | inl out ↦ absurd (unfold load_into in ground (arith, known, out, e))
          | inr (result, w) ↦
              let words =
                load_words-Keeps host IsBare write-IsBare (is_recursive dict) fuel (dirs_of dict) l0
                  bare0 in
              let bare1 : IsBare result.0 = subst (Keeps IsBare) w words in
              subst IsBalanced
                (some-inj (sym (load_into-known host fuel dict l result known w) ∙ e))
                (if-rule IsBalanced result.1 _ _ (λ _. rest-IsBalanced dict result.0 bare1)
                  (λ _. IsBare-IsBalanced result.0 bare1))
        ]
      ]

  fresh-IsBare : (count : Option ℕ) → IsBare (fresh_loader count)
  unfolding config_init
  fresh-IsBare count = ground arith

  -- Whatever `config_load` has met on its way, if it returns a configuration, `config_free` gives
  -- back every block that the load has allocated, and none besides: of the load's blocks and
  -- `others`, `others` are left.
  pub config_free-config_load :
      (fuel : ℕ) (readable : Bool) (dict : Ini) (l : Loader) (others : ℕ)
      → config_load host fuel readable (some dict) ≡ some (loaded l)
      → config_free (some l.config) (l.live + others) ≡ others
  config_free-config_load fuel readable dict l others e =
      let (count, into) = config_load-loaded host fuel dict readable l e in
      config_free-blocks l.config others (l.live + others)
        (omega (arith, into-IsBalanced fuel dict (fresh_loader count) l (fresh-IsBare count) into))
