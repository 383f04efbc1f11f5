-- ===== src/Config/Load/Exact.antt =====
-- The configuration that `config_load` returns when nothing fails.
use watch_it.Base.{
  inr, ◌^◌, ℕ, ◌+◌, ◌*◌, ◌<◌, ◌≡◌, refl, ap, ◌∙◌, Bool, true, List, [], none, some, All, length,
  arith,
}
use watch_it.CString.{Str, codes}
use watch_it.Config.Types.{Conf, Loader, Ini, Host}
use watch_it.Config.FireOn.{load_fire_on}
use watch_it.Config.FireOn.Flags.{flags, says, all_known, words_of, load_fire_on-flags}
use watch_it.Config.Dirs.{load_watch_dir, is_recursive, dirs_of}
use watch_it.Config.Dirs.Ends.{IsTree}
use watch_it.Config.Dirs.Walk.{IsReliable, walk_words, written}
use watch_it.Config.Dirs.Walk.Exact.{IsCountable, load_watch_dir-walk}
use watch_it.Config.Load.{
  config_init, load_commands, load_rest, load_into, allocate_for, allocate_config, loaded,
  config_load, slots, array_size,
}
use watch_it.Config.Load.Safe.{load_into-known, slots-some}
use watch_it.Config.Load.Inversion.{fresh_loader}

-- The events that the file asks for.
abbrev pub asked : Ini → ℕ
asked dict = flags (says (codes "OPEN") (words_of dict)) (says (codes "CLOSE") (words_of dict))

-- What the file describes, with these directories.
unfoldable pub described : Ini → List Str → Conf
described dict dirs = record {
  watch_dir = dirs;
  capacity = slots (some (length dirs));
  watch_dir_count = length dirs;
  type = 1;
  fire_on = asked dict;
  min_read_close = dict.getint (codes "folder:min_read_close") 0;
  open_cmd = some (dict.getstring (codes "folder:open_command") []);
  close_cmd = some (dict.getstring (codes "folder:close_command") []);
}

-- The load of it: one block each for the configuration, the array and the two commands.
unfoldable pub complete : Ini → List Str → Loader
complete dict dirs = record {
  config = described dict dirs;
  mallocs = 4 + length dirs;
  live = 4 + length dirs;
}

module _ (host : Host) (works : IsReliable host) (dict : Ini)
    (known : all_known (words_of dict) ≡ true) where
  -- Before the directories, with room for these.
  asking : List Str → Loader
  asking dirs = record (fresh_loader (some (length dirs))) {
    config = record (config_init (slots (some (length dirs)))) { fire_on = asked dict };
  }

  rest-complete :
      (dirs : List Str) → load_rest host dict (written dirs (asking dirs)) ≡ complete dict dirs
  unfolding load_rest asking config_init written described complete load_commands
  rest-complete dirs =
      let n = length dirs in
      let c : Conf = record (described dict dirs) {
        min_read_close = 0;
        open_cmd = none;
        close_cmd = none;
      } in
      let again = (load_fire_on-flags dict (record c { fire_on = 0 }) refl known).1 in
      ground (
        arith,
        again,
        works.grants (2 + n) (8 * length (dict.getstring (codes "folder:close_command") []) + 1),
        works.grants (ℕ.suc (2 + n))
            (8 * length (dict.getstring (codes "folder:open_command") []) + 1),
      )

  into-complete :
      (height : Str → ℕ) (fuel : ℕ)
      → IsTree host height
      → All (λ dir. height dir < fuel) (dirs_of dict)
      → let dirs = walk_words host (is_recursive dict) fuel (dirs_of dict) in
        IsCountable (is_recursive dict) (length dirs)
        → load_into host fuel dict (fresh_loader (some (length dirs))) ≡ some (complete dict dirs)
  unfolding asking config_init
  into-complete height fuel tree low few =
      let dirs = walk_words host (is_recursive dict) fuel (dirs_of dict) in
      let l : Loader = fresh_loader (some (length dirs)) in
      let asks = (load_fire_on-flags dict l.config refl known).0 in
      let asks_config : (load_fire_on dict l.config).0 ≡ (asking dirs).config =
        ap (λ (r : Conf × Bool). r.0) asks in
      let asks_known : (load_fire_on dict l.config).1 ≡ true = ap (λ (r : Conf × Bool). r.1) asks in
      let same : record l { config = (load_fire_on dict l.config).0 } ≡ asking dirs =
        ap (λ (c : Conf). record l { config = c }) asks_config in
      let loads = (load_watch_dir-walk host works height tree fuel dict (asking dirs) low few).1 in
      load_into-known host fuel dict l (written dirs (asking dirs), true) asks_known
        (ap (load_watch_dir host fuel dict) same ∙ loads)
      ∙ ap some (rest-complete dirs)

  pub config_load-described :
      (height : Str → ℕ) (fuel : ℕ)
      → IsTree host height
      → All (λ dir. height dir < fuel) (dirs_of dict)
      → let dirs = walk_words host (is_recursive dict) fuel (dirs_of dict) in
        IsCountable (is_recursive dict) (length dirs)
        → config_load host fuel true (some dict) ≡ some (loaded (complete dict dirs))
  unfolding config_load allocate_config allocate_for
  config_load-described height fuel tree low few =
      let dirs = walk_words host (is_recursive dict) fuel (dirs_of dict) in
      let l : Loader = fresh_loader (some (length dirs)) in
      ground (
        arith,
        (load_watch_dir-walk host works height tree fuel dict l low few).0,
        works.grants 0 40,
        works.grants 1 (array_size (some (length dirs))),
        into-complete height fuel tree low few,
      )

  -- If the file can be read, all words of `fire_on` are known and neither the heap nor the file
  -- system fails, on a finite tree of directories and with fuel above the height of those named,
  -- which stand for fewer than 2 ^ 28 directories, `config_load` returns the configuration that the
  -- file describes: as `watch_dir` each directory named and with `recursive` those below it, an
  -- array with room for just that many, the events asked for, the type, the delay and the two
  -- commands.
  pub config_load-complete :
      (height : Str → ℕ) (fuel : ℕ)
      → IsTree host height
      → All (λ dir. height dir < fuel) (dirs_of dict)
      → let dirs = walk_words host (is_recursive dict) fuel (dirs_of dict) in
        length dirs < 2 ^ 28
        → (config_load host fuel true (some dict) ≡ some (loaded (complete dict dirs)))
          × ((complete dict dirs).config.capacity ≡ length dirs)
  unfolding complete described
  config_load-complete height fuel tree low few = (
    config_load-described height fuel tree low (inr (omega (arith, few))),
    slots-some (length (walk_words host (is_recursive dict) fuel (dirs_of dict))) few,
  )
