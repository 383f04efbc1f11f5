-- ===== src/Daemon/Reader.antt =====
-- `get_event`: one `read` from the inotify descriptor, and a loop over the bytes that it returned.
pub mod Wire
pub mod Refines
pub mod Reports
pub mod Heard
use watch_it.Base.{
  ℕ, zero, suc, ◌+◌, ◌*◌, Bool, true, false, not, ◌&&◌, List, [], ◌∷◌, Option, none, some, length,
  get_elem?, drop, ltb, ◌==◌, if◌then◌else◌,
}
use watch_it.Base.Words.{has_bits}
use watch_it.CString.{Str}
use watch_it.Handling.Types.{State, Env, Event}
use watch_it.Handling.Clock.{get_tick}
use watch_it.Handling.Add.{add_event}
use watch_it.Daemon.Table.{WdNameTuple, Table, find_in_map}

-- Flags of src/config.h.
abbrev pub watch_content : ℕ
watch_content = 0x00000001

abbrev pub watch_dir : ℕ
watch_dir = 0x00000002

-- `IN_ISDIR` of <sys/inotify.h>.
abbrev pub in_isdir : ℕ
in_isdir = 0x40000000

-- `sizeof(struct inotify_event)`: four 32-bit fields, and a name of no size.
abbrev pub sizeof_event : ℕ
sizeof_event = 16

-- `struct inotify_event`, less the cookie, which nothing reads.
pub record InotifyEvent : Type 0 where
  pub wd : ℕ
  pub mask : ℕ
  pub len : ℕ
  pub name : Str

-- A byte of the buffer, which is zero beyond what was read.
byte : List ℕ → ℕ → ℕ
byte bytes i = elim (get_elem? bytes i) [ none ↦ 0 | some b ↦ b ]

-- A 32-bit field, least significant byte first.
u32_at : List ℕ → ℕ → ℕ
unfolding byte
u32_at bytes i =
    byte bytes i
    + 256 * byte bytes (i + 1)
    + 65536 * byte bytes (i + 2)
    + 16777216 * byte bytes (i + 3)

-- The string at the start of some bytes.
pub cstring : List ℕ → Str
cstring [] = []
cstring (b ∷ rest) = if b == 0 then [] else b ∷ cstring rest

-- `(struct inotify_event *)&buff[i]`, from the bytes at `i` on.
unfoldable pub event_at : List ℕ → InotifyEvent
unfolding u32_at cstring
event_at bytes = record {
  wd = u32_at bytes 0;
  mask = u32_at bytes 4;
  len = u32_at bytes 12;
  name = cstring (drop sizeof_event bytes);
}

-- The tests of a round for a descriptor's tuple: `none` is a `continue`, and the string is
-- `event_name`.
unfoldable pub filter_event : InotifyEvent → WdNameTuple → Option Str
filter_event pevent tuple =
    if pevent.len == 0
    then (if has_bits tuple.type watch_dir then some tuple.name else none)
    else if has_bits tuple.type watch_content && not (has_bits pevent.mask in_isdir)
    then some pevent.name
    else none

-- `event`, at a tick.
pub stamped : InotifyEvent → WdNameTuple → Str → ℕ → Event
stamped pevent tuple event_name tick = record {
  id = pevent.wd;
  name = event_name;
  event_type = pevent.mask;
  min_read_close = tuple.min_read_close;
  timestamp = tick;
}

-- A round up to the time stamp; `none` is a `continue`.
unfoldable pub next_event : Table → InotifyEvent → Option (ℕ → Event)
unfolding filter_event stamped
next_event table pevent = elim (find_in_map pevent.wd table) [
  | none ↦ none
  | some tuple ↦ elim (filter_event pevent tuple) [
    | none ↦ none
    | some event_name ↦ some (stamped pevent tuple event_name)
  ]
]

module _ (env : Env) where
  -- The end of a round: the event is stamped and added. `false` is the early return.
  submit : Option (ℕ → Event) → State → State × Bool
  submit none s = (s, true)
  submit (some event_at_tick) s =
      let (s', tick) = get_tick env s in add_event env (event_at_tick tick) s'

  unfoldable pub handle_inotify : Table → InotifyEvent → State → State × Bool
  unfolding submit next_event
  handle_inotify table pevent s = submit (next_event table pevent) s

  -- `while (i < len)`, with fuel; `none` is that it runs out.
  unfoldable pub read_loop : Table → List ℕ → ℕ → ℕ → State → Option State
  read_loop table buff zero i s = none
  read_loop table buff (suc fuel) i s =
      let pevent = event_at (drop i buff) in
      let (s', go_on) = handle_inotify table pevent s in
      elim (ltb i (length buff)) [
        | false ↦ some s
        | true ↦ elim go_on [
          | false ↦ some s'
          | true ↦ read_loop table buff fuel (i + (sizeof_event + pevent.len)) s'
        ]
      ]

  -- The call, for what `read` returned; `none` is a failed `read`, whose length is -1.
  unfoldable pub get_event : Table → Option (List ℕ) → State → Option State
  unfolding read_loop
  get_event table none s = some s
  get_event table (some buff) s = read_loop table buff (suc (length buff)) 0 s
