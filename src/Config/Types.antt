-- ===== src/Config/Types.antt =====
-- `struct conf`, and what the loading calls.
use watch_it.Base.{ℕ, Bool, List, Option}
use watch_it.CString.{Str, strcasecmp_eq}

-- `struct conf`. Of the array `watch_dir` the model keeps the strings written, in order, and for
-- how many pointers it was allocated.
pub record Conf : Type 0 where
  pub watch_dir : List Str
  pub capacity : ℕ
  pub watch_dir_count : ℕ
  pub type : ℕ
  pub fire_on : ℕ
  pub min_read_close : ℕ
  pub open_cmd : Option Str
  pub close_cmd : Option Str

-- A configuration, the allocations asked for so far, and the blocks that are allocated and not
-- freed.
pub record Loader : Type 0 where
  pub config : Conf
  pub mallocs : ℕ
  pub live : ℕ

-- The dictionary of the iniparser library: `iniparser_getstring` and `iniparser_getint` by key and
-- default. With a default that is not NULL the string is not NULL.
pub record Ini : Type 0 where
  pub getstring : Str → Str → Str
  pub getint : Str → ℕ → ℕ

-- The file system: the names that `readdir` gives for a directory that `opendir` can open, whether
-- `lstat` sees a directory (`none` if it fails), and whether `closedir` returns 0. And the heap:
-- whether the n-th `malloc`, for so many bytes, succeeds.
pub record Host : Type 0 where
  pub entries : Str → Option (List Str)
  pub lstat : Str → Option Bool
  pub closedir : Str → Bool
  pub grants : ℕ → ℕ → Bool

-- `equals`
abbrev pub equals : Str → Str → Bool
equals val other = strcasecmp_eq val other
