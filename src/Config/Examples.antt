-- ===== src/Config/Examples.antt =====
-- The theorems about the loading of the configuration at concrete inputs.
use watch_it.Base.{
  length, false, ℕ, ◌+◌, ◌<◌, ◌≡◌, refl, sym, subst, true, List, [], ◌∷◌, none, some, All, arith,
  Bool-cases, inl, inr, if◌then◌else◌, leb,
}
use watch_it.CString.{Str, codes, strcmp_eq, strcasecmp_eq, strtok_all}
use watch_it.CString.Search.{strcmp_eq→eq}
use watch_it.Config.Types.{Conf, Loader, Ini, Host}
use watch_it.Config.FireOn.{load_fire_on}
use watch_it.Config.FireOn.Flags.{says, all_known, load_fire_on-flags}
use watch_it.Config.Dirs.{
  directory, classify, next_file, write_to_watchdir, load_watch_dir_rec, load_entries,
  get_watch_dir_count, load_watch_dir, count_all_dirs, count_entries, is_recursive,
}
use watch_it.Config.Dirs.Ends.{IsTree}
use watch_it.Config.Free.{config_free}
use watch_it.Config.Free.Balance.{config_free-config_load}
use watch_it.Config.Load.{loaded, Loaded, config_init, config_load}
use watch_it.CString.{is_delimiter}
use watch_it.Config.Dirs.{dirs_of}
use watch_it.Config.Dirs.Walk.{IsReliable, walk, walk_words}
use watch_it.Config.Load.Exact.{complete, config_load-complete}
use watch_it.Config.Printer.{Settings, ini_of, settings_of}
use watch_it.Config.Printer.RoundTrip.{config_load-ini_of}
use watch_it.Config.Load.Safe.{IsSafe, IsCounted, config_load-IsSafe}

abbrev pub value : Str → Str
value key =
    if strcmp_eq key (codes "folder:fire_on")
    then codes "open|CLOSE"
    else if strcmp_eq key (codes "folder:watch_dir")
    then codes "d, e"
    else if strcmp_eq key (codes "folder:recursive")
    then codes "true"
    else codes "echo @0"

abbrev pub dict : Ini
dict = record { getstring = λ key def. value key; getint = λ key def. 200 }

-- A directory `d` with a directory `s` in it; all others are empty.
abbrev pub host : Host
host = record {
  entries = λ dir.
      if strcmp_eq dir (codes "d")
      then some (codes "." ∷ codes "s" ∷ [])
      else some (codes ".." ∷ []);
  lstat = λ path. some true;
  closedir = λ dir. true;
  grants = λ n size. leb size 1000;
}

abbrev pub height : Str → ℕ
height dir = if strcmp_eq dir (codes "d") then 1 else 0

abbrev IsLower : Str → List Str → Type 0
IsLower dir names =
    All (λ name. classify host dir name ≡ directory → height (next_file dir name) < height dir)
      names

top_names : (names : List Str) → host.entries (codes "d") ≡ some names → IsLower (codes "d") names
unfolding classify strcasecmp_eq strcmp_eq
top_names names e =
    let same : (codes "." ∷ codes "s" ∷ []) ≡ names = ground (arith, e) in
    subst (IsLower (codes "d")) same ((λ d. absurd (cc d)), ((λ _. omega arith), tt))

dots_names : (dir : Str) (names : List Str) → (codes ".." ∷ []) ≡ names → IsLower dir names
unfolding classify strcasecmp_eq
dots_names dir names same = subst (IsLower dir) same ((λ d. absurd (cc d)), tt)

pub tree : IsTree host height
tree dir names e = elim (Bool-cases (strcmp_eq dir (codes "d"))) [
  | inl top ↦
      let at : dir ≡ codes "d" = strcmp_eq→eq dir (codes "d") top in
      subst (λ x. IsLower x names) (sym at)
        (top_names names (subst (λ x. host.entries x ≡ some names) at e))
  | inr other ↦ dots_names dir names (ground (arith, other, e))
]

abbrev start : Loader
start = record { config = config_init 3; mallocs = 2; live = 2 }

abbrev fresh : Conf
fresh = record {
  watch_dir = [];
  capacity = 3;
  watch_dir_count = 0;
  type = 0;
  fire_on = 0;
  min_read_close = 0;
  open_cmd = none;
  close_cmd = none;
}

counted_three : get_watch_dir_count host 2 dict ≡ some (some 3)
unfolding get_watch_dir_count is_recursive count_all_dirs count_entries classify strcasecmp_eq
    strtok_all strcmp_eq
counted_three = refl

load_fire_on-flags_example :
    (load_fire_on dict fresh ≡ (record fresh { fire_on = 0x639 }, true))
    × (load_fire_on dict (record fresh { fire_on = 0x639 })
        ≡ (record fresh { fire_on = 0x639 }, true))
unfolding says strcmp_eq strcasecmp_eq strtok_all all_known
load_fire_on-flags_example = load_fire_on-flags dict fresh refl refl

few : IsCounted host 2 dict
few total counted = let same : 3 ≡ total = ground (arith, counted_three, counted) in omega arith

config_load-IsSafe_example :
    (r : Loaded) × (config_load host 2 true (some dict) ≡ some r) × IsSafe host r
unfolding strtok_all strcmp_eq
config_load-IsSafe_example =
    config_load-IsSafe host 2 dict height true tree (omega arith) few (λ n. refl)

abbrev pub loaded_all : Loader
loaded_all = record {
  config = record {
    watch_dir = codes "d" ∷ codes "d/s" ∷ codes "e" ∷ [];
    capacity = 3;
    watch_dir_count = 3;
    type = 1;
    fire_on = 0x639;
    min_read_close = 200;
    open_cmd = some (codes "echo @0");
    close_cmd = some (codes "echo @0");
  };
  mallocs = 7;
  live = 7;
}

pub loads_all : config_load host 2 true (some dict) ≡ some (loaded loaded_all)
unfolding config_load get_watch_dir_count strtok_all strcmp_eq is_recursive strcasecmp_eq
    count_all_dirs count_entries classify load_fire_on load_watch_dir write_to_watchdir
    load_watch_dir_rec load_entries
loads_all = refl

config_free-config_load_example : config_free (some loaded_all.config) (loaded_all.live + 4) ≡ 4
config_free-config_load_example = config_free-config_load host 2 true dict loaded_all 4 loads_all

-- The same file system with a heap that is never full.
abbrev pub ample : Host
ample = record host { grants = λ n size. true }

pub ample-IsReliable : IsReliable ample
ample-IsReliable = record {
  opens = λ dir. elim (Bool-cases (strcmp_eq dir (codes "d"))) [
    | inl top ↦ (codes "." ∷ codes "s" ∷ [], ground (arith, top))
    | inr other ↦ (codes ".." ∷ [], ground (arith, other))
  ];
  sees = λ path. (true, refl);
  closes = λ dir. refl;
  grants = λ n size. refl;
}

pub ample-IsTree : IsTree ample height
unfolding classify
ample-IsTree dir names e = tree dir names e

config_load-complete_example :
    let dirs = walk_words ample (is_recursive dict) 2 (dirs_of dict) in
    (config_load ample 2 true (some dict) ≡ some (loaded (complete dict dirs)))
    × ((complete dict dirs).config.capacity ≡ length dirs)
unfolding strtok_all strcmp_eq strcasecmp_eq all_known walk_words is_recursive walk classify
config_load-complete_example =
    config_load-complete ample ample-IsReliable dict refl height 2 ample-IsTree (omega arith)
      (omega arith)

abbrev settings : Settings
settings = record {
  watch_dir = codes "d" ∷ codes "e" ∷ [];
  for_open = true;
  for_close = false;
  min_read_close = 300;
  open_command = codes "o @0";
  close_command = [];
}

config_load-ini_of_example :
    (l : Loader) × (config_load ample 2 true (some (ini_of settings)) ≡ some (loaded l))
    × (settings_of l.config ≡ settings)
unfolding strcmp_eq is_delimiter
config_load-ini_of_example =
    config_load-ini_of ample height 2 settings ample-IsReliable ample-IsTree (omega arith) (
      record { some_byte = λ e. cc; no_delimiter = (refl, tt) },
      (record { some_byte = λ e. cc; no_delimiter = (refl, tt) }, tt),
    )
