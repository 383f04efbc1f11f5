-- ===== src/Handling/Types.antt =====
-- The data of src/event_handling.c and src/event_handling.h, and the environment that it runs in.
use watch_it.Base.{ℕ, Bool, List, Option, suc, ◌-◌, if◌then◌else◌}
use watch_it.CString.{Str}

-- Event bits of <sys/inotify.h>.
abbrev pub in_access : ℕ
in_access = 0x1

abbrev pub in_close_write : ℕ
in_close_write = 0x8

abbrev pub in_close_nowrite : ℕ
in_close_nowrite = 0x10

abbrev pub in_close : ℕ
in_close = 0x18

abbrev pub in_open : ℕ
in_open = 0x20

abbrev pub in_delete : ℕ
in_delete = 0x200

abbrev pub in_delete_self : ℕ
in_delete_self = 0x400

-- `EVENT`, what the producer hands over. An `int` is its bit pattern; `name` is never NULL.
pub record Event : Type 0 where
  pub id : ℕ
  pub name : Str
  pub event_type : ℕ
  pub min_read_close : ℕ
  pub timestamp : ℕ

-- `FILE_EVENT`. A NULL `name` is `none`; the flags are the C truth values.
pub record FileEvent : Type 0 where
  pub id : ℕ
  pub name : Option Str
  pub open_timestamp : ℕ
  pub close_timestamp : ℕ
  pub is_closed : Bool
  pub has_fired_open : Bool
  pub has_fired_closed : Bool

-- `FILE_LIST`, less its `list_head`: the links are the order of `file_event_list` in `State`.
pub record FileList : Type 0 where
  pub file : FileEvent
  pub remove : Bool

-- The static variables, and what the outside has seen: clock readings taken, allocations asked
-- for, blocks that are allocated and not freed, and the commands given to `system`, oldest first.
pub record State : Type 0 where
  pub file_event_list : List FileList
  pub signaled : Bool
  pub max_delay_before_fire : ℕ
  pub open_cmd : Option Str
  pub close_cmd : Option Str
  pub last_tick : ℕ
  pub clock_reads : ℕ
  pub mallocs : ℕ
  pub live : ℕ
  pub executed : List Str

pub record Timespec : Type 0 where
  pub tv_sec : ℕ
  pub tv_nsec : ℕ

-- What the program calls and does not implement: the n-th `clock_gettime`, `none` if it fails, and
-- whether the n-th `malloc` succeeds.
pub record Env : Type 0 where
  pub clock_gettime : ℕ → Option Timespec
  pub grants : ℕ → Bool

module _ (env : Env) where
  unfoldable pub malloc : State → State × Bool
  malloc s =
      let granted = env.grants s.mallocs in
      (record s { mallocs = suc s.mallocs; live = if granted then suc s.live else s.live }, granted)

-- `free` of an allocated block.
abbrev pub free : State → State
free s = record s { live = s.live - 1 }
