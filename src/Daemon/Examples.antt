-- ===== src/Daemon/Examples.antt =====
-- The theorems about the daemon at concrete inputs.
use watch_it.Base.{
  ◌≢◌, ℕ, ◌≡◌, ◌≤◌, ◌<◌, ◌⊎◌, refl, inl, inr, Bool, true, false, List, [], ◌∷◌, none, some, arith,
}
use watch_it.CString.{codes, strtok_all, strcmp_eq}
use watch_it.Config.Types.{Conf, Loader}
use watch_it.Config.Load.{Loaded, loaded, config_load}
use watch_it.Config.Examples.{dict, host, height, tree}
use watch_it.Daemon.Start.Complete.{main-ne-crashes}
use watch_it.Handling.Types.{State, Env, in_open}
use watch_it.Daemon.Start.{Kernel, main, exits, crashes, is_negative}
use watch_it.Daemon.Start.Watched.{main-exits_zero}
use watch_it.Daemon.Table.{Table, WdNameTuple, max_watch, add_to_map, find_in_map}
use watch_it.Daemon.Table.Laws.{IsValid, new_tuple, find_in_map-add_to_map}
use watch_it.Daemon.Reader.{get_event}
use watch_it.Daemon.Reader.Wire.{KernelEvent, IsWellFormed, encode_all}
use watch_it.Daemon.Reader.Refines.{handle_all, get_event-handle_all}

abbrev copies : ℕ → WdNameTuple → List WdNameTuple
copies ℕ.zero t = []
copies (ℕ.suc n) t = t ∷ copies n t

abbrev blank : WdNameTuple
blank = record { wd = 0; name = []; type = 0; min_read_close = 0 }

abbrev pub table : Table
table = record { name_map = copies 1024 blank; name_map_len = 0 }

pub table-IsValid : IsValid table
table-IsValid = record { size = refl; bounded = omega arith }

abbrev pub added : Table × Bool
added = add_to_map (codes "/tmp") 1 1 200 table

find_in_map-add_to_map_example :
    IsValid added.0
    × ((added.1 ≡ false) × (max_watch ≤ 0) × (added.0 ≡ table)
        ⊎ (added.1 ≡ true)
          × (0 < max_watch)
          × (find_in_map 1 added.0 ≡ some (new_tuple (codes "/tmp") 1 1 200)))
unfolding find_in_map
find_in_map-add_to_map_example = find_in_map-add_to_map (codes "/tmp") 1 1 200 table 1 table-IsValid

abbrev pub env : Env
env = record { clock_gettime = λ n. none; grants = λ n. true }

abbrev pub idle : State
idle = record {
  file_event_list = [];
  signaled = false;
  max_delay_before_fire = 200;
  open_cmd = some (codes "o");
  close_cmd = some (codes "c");
  last_tick = 0;
  clock_reads = 0;
  mallocs = 0;
  live = 2;
  executed = [];
}

abbrev pub named : KernelEvent
named = record { wd = 1; mask = in_open; cookie = 0; name = codes "f"; padding = 15 }

abbrev pub nameless : KernelEvent
nameless = record named { name = []; padding = 0 }

pub named-IsWellFormed : IsWellFormed named
named-IsWellFormed = record {
  wd_fits = omega arith;
  mask_fits = omega arith;
  len_fits = omega arith;
  name_bytes = omega arith;
  ended = inr (omega arith);
}

nameless-IsWellFormed : IsWellFormed nameless
nameless-IsWellFormed = record {
  wd_fits = omega arith;
  mask_fits = omega arith;
  len_fits = omega arith;
  name_bytes = tt;
  ended = inl (refl, refl);
}

get_event-handle_all_example :
    get_event env added.0 (some (encode_all (named ∷ nameless ∷ []))) idle
    ≡ some (handle_all env added.0 (named ∷ nameless ∷ []) idle)
get_event-handle_all_example =
    get_event-handle_all env added.0 (named ∷ nameless ∷ []) idle
      (named-IsWellFormed, (nameless-IsWellFormed, tt))

abbrev pub kernel : Kernel
kernel = record {
  inotify_init = 3;
  inotify_add_watch = λ dir mask. 1;
  thread_created = true;
  fork = 5;
  setsid = 5;
  chdir = 0;
}

abbrev pub config : Conf
config = record {
  watch_dir = codes "/tmp" ∷ [];
  capacity = 1;
  watch_dir_count = 1;
  type = 1;
  fire_on = in_open;
  min_read_close = 200;
  open_cmd = some (codes "o");
  close_cmd = some (codes "c");
}

abbrev ready : Loader
ready = record { config = config; mallocs = 5; live = 5 }

main-exits_zero_example :
    (main env kernel table idle (loaded ready) ≡ exits 0
      → (0 < kernel.fork) × (is_negative kernel.fork ≡ false))
    × ((0 < kernel.fork) × (is_negative kernel.fork ≡ false)
        → main env kernel table idle (loaded ready) ≡ exits 0)
main-exits_zero_example = main-exits_zero env kernel table idle (loaded ready)

-- The kernel as the child of the fork sees it.
abbrev pub child : Kernel
child = record kernel { fork = 0 }

main-ne-crashes_example :
    (r : Loaded) × (config_load host 2 true (some dict) ≡ some r)
    × (main env child table idle r ≢ crashes)
unfolding strtok_all strcmp_eq
main-ne-crashes_example =
    main-ne-crashes env child (λ n. refl) host dict height 2 true table idle tree (omega arith)
      (λ n. refl) refl (λ n. refl) (λ n. refl)
