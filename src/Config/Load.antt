-- ===== src/Config/Load.antt =====
-- `config_load` and what it calls besides `load_fire_on` and `load_watch_dir`.
pub mod Safe
pub mod Inversion
pub mod Paths
pub mod Lengths
pub mod Exact
pub mod Commands
pub mod Usable
use watch_it.Base.{
  ℕ, suc, ◌+◌, ◌-◌, ◌*◌, ◌/◌, ◌%◌, ◌^◌, Bool, true, false, List, [], ◌∷◌, Option, none, some,
  length, if◌then◌else◌,
}
use Prim.Native.Nat.{bit_or}
use watch_it.Base.Words.{ulong_of_int}
use watch_it.CString.{Str, codes}
use watch_it.Config.Types.{Conf, Loader, Ini, Host}
use watch_it.Config.FireOn.{load_fire_on}
use watch_it.Config.Dirs.{get_watch_dir_count, load_watch_dir}

-- `WATCH_CONTENT` of src/config.h.
abbrev pub watch_content : ℕ
watch_content = 0x00000001

-- `config_init`, on a configuration whose array is for `capacity` pointers.
unfoldable pub config_init : ℕ → Conf
config_init capacity = record {
  watch_dir = [];
  capacity = capacity;
  watch_dir_count = 0;
  type = 0;
  fire_on = 0;
  min_read_close = 0;
  open_cmd = none;
  close_cmd = none;
}

-- `load_watch_content`
unfoldable pub load_watch_content : Conf → Conf
load_watch_content c = record c { type = bit_or c.type watch_content }

-- `load_min_read_close`
unfoldable pub load_min_read_close : Ini → Conf → Conf
load_min_read_close dict c = record c {
  min_read_close = dict.getint (codes "folder:min_read_close") 0;
}

-- `int memsize = watch_dir_count * sizeof(char*)`, as its 32-bit pattern, which a count
-- and its rest modulo 2 ^ 32 share. A count of -1 is -8 bytes.
abbrev pub memsize : Option ℕ → ℕ
memsize none = 2 ^ 32 - 8
memsize (some count) = count * 8 % 2 ^ 32

-- The bytes asked for: `memsize` becomes a `size_t`.
abbrev pub array_size : Option ℕ → ℕ
array_size count = ulong_of_int (memsize count)

-- The pointers that a block of this size has room for.
abbrev pub slots : Option ℕ → ℕ
slots count = array_size count / 8

-- `allocate_config` returns a configuration or NULL, or `config_init` writes through NULL.
pub data Allocated : Type 0 where
  allocated : Loader → Allocated
  no_memory : Allocated
  null_written : Allocated

-- `sizeof(struct conf)` on a 64-bit machine.
abbrev pub sizeof_conf : ℕ
sizeof_conf = 40

module _ (host : Host) where
  -- From the count on.
  unfoldable pub allocate_for : Option ℕ → Allocated
  unfolding config_init
  allocate_for count =
      if host.grants 0 sizeof_conf
      then (if host.grants 1 (array_size count)
          then allocated (record { config = config_init (slots count); mallocs = 2; live = 2 })
          else no_memory)
      else null_written

  unfoldable pub allocate_config : ℕ → Ini → Option Allocated
  unfolding allocate_for
  allocate_config fuel dict = elim (get_watch_dir_count host fuel dict) [
    | none ↦ none
    | some count ↦ some (allocate_for count)
  ]

  -- `alloc_cmd` and then `load_cmd`: the command, or NULL if the `malloc` has failed. `strcpy` never
  -- returns NULL, so `load_cmd` always returns 0.
  unfoldable pub fetch_cmd : Str → Ini → Loader → Loader × Option Str
  fetch_cmd cmd dict l =
      let text = dict.getstring cmd [] in
      let asked : Loader = record l { mallocs = suc l.mallocs } in
      if host.grants l.mallocs (8 * length text + 1)
      then (record asked { live = suc l.live }, some text)
      else (asked, none)

  -- `load_commands`
  unfoldable pub load_commands : Ini → Loader → Loader × Bool
  unfolding fetch_cmd
  load_commands dict l =
      let (l1, close) = fetch_cmd (codes "folder:close_command") dict l in
      let with_close : Loader = record l1 { config = record (l1.config) { close_cmd = close } } in
      let (l2, open_text) = fetch_cmd (codes "folder:open_command") dict with_close in
      let with_both : Loader = record l2 { config = record (l2.config) { open_cmd = open_text } } in
      elim close [
        | none ↦ (with_close, false)
        | some _ ↦ elim open_text [ none ↦ (with_both, false) | some _ ↦ (with_both, true) ]
      ]

  -- After `load_watch_dir` has returned 0.
  unfoldable pub load_rest : Ini → Loader → Loader
  unfolding load_watch_content load_commands load_min_read_close
  load_rest dict l =
      let content : Conf = load_watch_content l.config in
      let (again, known) = load_fire_on dict content in
      let (l2, done) = load_commands dict (record l { config = again }) in
      if known
      then record l2 { config = if done then load_min_read_close dict l2.config else l2.config }
      else record l { config = again }

  -- After `allocate_config`. Each failure goes to `clean_up`, which returns the configuration as it
  -- is at that point.
  unfoldable pub load_into : ℕ → Ini → Loader → Option Loader
  unfolding load_rest
  load_into fuel dict l =
      let (config, known) = load_fire_on dict l.config in
      elim known [
        | false ↦ some (record l { config = config })
        | true ↦ elim (load_watch_dir host fuel dict (record l { config = config })) [
          | none ↦ none
          | some result ↦ some (if result.1 then load_rest dict result.0 else result.0)
        ]
      ]

-- What `config_load` returns, or that it writes through NULL.
pub data Loaded : Type 0 where
  null : Loaded
  loaded : Loader → Loaded
  fault : Loaded

abbrev pub load_allocated : Host → ℕ → Ini → Allocated → Option Loaded
load_allocated host fuel dict null_written = some fault
load_allocated host fuel dict no_memory = some null
load_allocated host fuel dict (allocated l) = elim (load_into host fuel dict l) [
  | none ↦ none
  | some l' ↦ some (loaded l')
]

-- `config_load`, given whether the file can be read and what `iniparser_load` returns. `none` is
-- that the fuel runs out.
unfoldable pub config_load : Host → ℕ → Bool → Option Ini → Option Loaded
unfolding allocate_config load_into
config_load host fuel readable none = some null
config_load host fuel readable (some dict) =
    let run : Option Loaded = elim (allocate_config host fuel dict) [
      | none ↦ none
      | some outcome ↦ load_allocated host fuel dict outcome
    ] in
    if readable then run else some null
