-- ===== src/Handling/Files.antt =====
-- The operations on one file and on the list of files.
pub mod Find
use watch_it.Base.{
  ℕ, zero, suc, ◌+◌, ◌-◌, Bool, true, false, not, ◌&&◌, ◌||◌, List, [], ◌∷◌, ◌++◌, Option, none,
  some, length, get_elem?, set, erase_idx, ◌==◌, if◌then◌else◌,
}
use watch_it.Base.Words.{has_bits, uint32_max}
use watch_it.CString.{Str, strcmp_eq}
use watch_it.Handling.Types.{
  State, Env, Event, FileEvent, FileList, malloc, free, in_access, in_close, in_close_nowrite,
  in_close_write, in_delete, in_delete_self, in_open,
}

-- `!strcmp` on two names. A NULL name is undefined behaviour in C; no file in the list has one.
unfoldable pub names_equal : Option Str → Option Str → Bool
names_equal (some a) (some b) = strcmp_eq a b
names_equal _ _ = false

unfoldable pub equals_file : FileEvent → FileEvent → Bool
unfolding names_equal
equals_file f1 f2 = f1.id == f2.id && names_equal f1.name f2.name

unfoldable pub is_close_event : Event → Bool
is_close_event e =
    has_bits e.event_type in_close
    || has_bits e.event_type in_close_nowrite
    || has_bits e.event_type in_close_write
    || has_bits e.event_type in_delete
    || has_bits e.event_type in_delete_self

unfoldable pub is_open_event : Event → Bool
is_open_event e = has_bits e.event_type in_open || has_bits e.event_type in_access

unfoldable pub is_valid_close : FileList → Bool
is_valid_close orig = not (orig.file.close_timestamp == uint32_max)

unfoldable pub is_file_open : FileList → Bool
is_file_open other = not other.file.is_closed

unfoldable pub is_file_closed : FileList → Bool
is_file_closed other = other.file.is_closed

-- The file after the call, and whether it returned 0. The warnings it may log change nothing.
unfoldable pub copy_event_to_file : Event → FileEvent → FileEvent × Bool
copy_event_to_file e f =
    let named : FileEvent = record f { name = some e.name; id = e.id } in
    if is_close_event e
    then (record named { close_timestamp = e.timestamp }, true)
    else if is_open_event e
    then (record named { open_timestamp = e.timestamp }, true)
    else (named, false)

unfoldable pub close_file : FileList → ℕ → FileList
close_file fl timestamp = record fl {
  file = record (fl.file) { is_closed = true; close_timestamp = timestamp };
}

unfoldable pub reset_to_open : FileList → ℕ → FileList
reset_to_open fl timestamp = record fl {
  file = record (fl.file) {
    is_closed = false;
    close_timestamp = uint32_max;
    open_timestamp = timestamp;
  };
}

-- `strcpy` never returns NULL, so the call always returns 0.
unfoldable pub init_file : Option Str → ℕ → ℕ → FileEvent
init_file name id timestamp = record {
  name = name;
  id = id;
  open_timestamp = timestamp;
  close_timestamp = uint32_max;
  has_fired_closed = false;
  has_fired_open = false;
  is_closed = false;
}

-- A pointer into the list is the entry's position with the entry.
unfoldable pub find_from : FileEvent → ℕ → List FileList → Option (ℕ × FileList)
find_from wanted i [] = none
find_from wanted i (fl ∷ rest) =
    let later = find_from wanted (suc i) rest in
    if equals_file fl.file wanted then some (i, fl) else later

unfoldable pub find_copied : FileEvent × Bool → List FileList → Option (ℕ × FileList)
find_copied (wanted, copied) files = if copied then find_from wanted 0 files else none

unfoldable pub find_in_file_list : Event → List FileList → Option (ℕ × FileList)
unfolding find_from find_copied copy_event_to_file init_file equals_file
find_in_file_list event_find files =
    find_copied (copy_event_to_file event_find (init_file none 0 0)) files

-- `list_del` of the entry at a position, and the `free` of its name, file and node.
unfoldable pub remove_from_list : ℕ → State → State
remove_from_list i s =
    free (free (free (record s { file_event_list = erase_idx s.file_event_list i })))

module _ (env : Env) where
  -- `allocate_file`: the file and its name are two blocks.
  unfoldable pub allocate_file : FileEvent → State → State × Option FileEvent
  unfolding malloc init_file
  allocate_file info s =
      let (s1, got_file) = malloc env s in
      let (s2, got_name) = malloc env s1 in
      if not got_file
      then (s1, none)
      else if not got_name
      then (free s2, none)
      else (s2, some (init_file info.name info.id info.open_timestamp))

  unfoldable pub allocate_file_list : FileEvent → State → State × Option FileList
  unfolding malloc
  allocate_file_list file s =
      let (s1, got) = malloc env s in
      (s1, if got then some (record { file = file; remove = false }) else none)

  -- `list_add_tail` of the new node; `false` is the return value -1.
  append_node : State × Option FileList → State × Bool
  append_node (s, none) = (s, false)
  append_node (s, some node) = (record s { file_event_list = s.file_event_list ++ node ∷ [] }, true)

  append_file : State × Option FileEvent → State × Bool
  unfolding append_node allocate_file_list
  append_file (s, none) = (s, false)
  append_file (s, some newly_opened) = append_node (allocate_file_list newly_opened s)

  unfoldable pub add_new_file : FileEvent → State → State × Bool
  unfolding append_file allocate_file
  add_new_file cur_file s = append_file (allocate_file cur_file s)
