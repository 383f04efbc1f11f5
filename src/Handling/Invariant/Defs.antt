-- ===== src/Handling/Invariant/Defs.antt =====
-- The invariant of the list of files.
use watch_it.Base.{◌≡◌, false, List, [], ◌∷◌, some, All}
use watch_it.Base.Words.{uint32_max}
use watch_it.CString.{Str}
use watch_it.Handling.Types.{FileEvent, FileList}
use watch_it.Handling.Files.{equals_file}

-- An entry that a pass has left in the list: it has a name, is not marked for removal, its close
-- command has not been run, and while it is open it has no close time.
pub record IsSound (fl : FileList) : Type 0 where
  pub named : (name : Str) × (fl.file.name ≡ some name)
  pub kept : fl.remove ≡ false
  pub unclosed : fl.file.has_fired_closed ≡ false
  pub open_time : fl.file.is_closed ≡ false → fl.file.close_timestamp ≡ uint32_max

-- No other entry stands for the file.
abbrev pub IsAbsent : FileEvent → List FileList → Type 0
IsAbsent f files = All (λ fl. equals_file fl.file f ≡ false) files

-- No two entries stand for one file.
abbrev pub IsUnique : List FileList → Type 0
IsUnique [] = Unit
IsUnique (fl ∷ rest) = IsAbsent fl.file rest × IsUnique rest

pub record Inv (files : List FileList) : Type 0 where
  pub sound : All IsSound files
  pub unique : IsUnique files
