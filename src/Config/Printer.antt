-- ===== src/Config/Printer.antt =====
-- The settings of a configuration file, and the values that a file with them has.
pub mod RoundTrip
use watch_it.Base.{ℕ, Bool, true, false, List, [], Option, none, some, ◌==◌, not, if◌then◌else◌}
use watch_it.Base.Words.{has_bits}
use watch_it.CString.{Str, codes, strcmp_eq}
use watch_it.CString.Tokens.{join}
use watch_it.Config.Types.{Conf, Ini}

-- What one can write into the file, but for `recursive`.
pub record Settings : Type 0 where
  pub watch_dir : List Str
  pub for_open : Bool
  pub for_close : Bool
  pub min_read_close : ℕ
  pub open_command : Str
  pub close_command : Str

abbrev pub print_fire_on : Bool → Bool → Str
print_fire_on false false = []
print_fire_on true false = codes "OPEN"
print_fire_on false true = codes "CLOSE"
print_fire_on true true = codes "OPEN|CLOSE"

-- The dictionary of a file with the settings.
unfoldable pub ini_of : Settings → Ini
ini_of s = record {
  getstring = λ key def.
      if strcmp_eq key (codes "folder:watch_dir")
      then join s.watch_dir
      else if strcmp_eq key (codes "folder:fire_on")
      then print_fire_on s.for_open s.for_close
      else if strcmp_eq key (codes "folder:open_command")
      then s.open_command
      else if strcmp_eq key (codes "folder:close_command")
      then s.close_command
      else def;
  getint =
      λ key def. if strcmp_eq key (codes "folder:min_read_close") then s.min_read_close else def;
}

abbrev pub text_of : Option Str → Str
text_of none = []
text_of (some text) = text

-- The settings that a configuration stands for.
unfoldable pub settings_of : Conf → Settings
settings_of c = record {
  watch_dir = c.watch_dir;
  for_open = has_bits c.fire_on 0x20;
  for_close = has_bits c.fire_on 0x18;
  min_read_close = c.min_read_close;
  open_command = text_of c.open_cmd;
  close_command = text_of c.close_cmd;
}
