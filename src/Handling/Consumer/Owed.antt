-- ===== src/Handling/Consumer/Owed.antt =====
-- What a late round owes to the files in the list.
use watch_it.Base.{ℕ, ◌+◌, ◌<◌, ◌≤◌, ◌≡◌, true, false, List, [], ◌∷◌, ◌++◌, some, if◌then◌else◌}
use watch_it.Base.Words.{ulong_of_int}
use watch_it.CString.{Str}
use watch_it.Replace.{or_empty}
use watch_it.Handling.Types.{State, Env, Timespec, FileList}
use watch_it.Handling.Clock.{cur_tick}
use watch_it.Handling.Files.{is_valid_close}
use watch_it.Handling.Commands.Effect.{expand, IsShort}

-- Every reading of the clock succeeds, and shows at least tick `now`.
abbrev pub ShowsAtLeast : Env → ℕ → Type 0
ShowsAtLeast env now =
    (n : ℕ) → (t : Timespec) × (env.clock_gettime n ≡ some t) × (now ≤ cur_tick t)

-- The two commands, neither empty, and the delay.
pub record Settings : Type 0 where
  pub open_head : ℕ
  pub open_tail : Str
  pub close_head : ℕ
  pub close_tail : Str
  pub delay : ℕ

pub record Has (g : Settings) (s : State) : Type 0 where
  pub opens : s.open_cmd ≡ some (g.open_head ∷ g.open_tail)
  pub closes : s.close_cmd ≡ some (g.close_head ∷ g.close_tail)
  pub delays : s.max_delay_before_fire ≡ g.delay

-- The commands that a late round owes to an entry: the open command if it has not been run, then
-- the close command if the file has been closed.
unfoldable pub owed : Settings → FileList → List Str
owed g fl =
    (if fl.file.has_fired_open
      then []
      else expand (g.open_head ∷ g.open_tail) (or_empty fl.file.name) ∷ [])
    ++ (if is_valid_close fl
        then expand (g.close_head ∷ g.close_tail) (or_empty fl.file.name) ∷ []
        else [])

unfoldable pub owed_all : Settings → List FileList → List Str
unfolding owed
owed_all g [] = []
owed_all g (fl ∷ rest) = owed g fl ++ owed_all g rest

-- The two commands for a file are shorter than 2 ^ 31 bytes.
pub record AreShort (g : Settings) (name : Str) : Type 0 where
  pub opens : IsShort (g.open_head ∷ g.open_tail) name
  pub closes : IsShort (g.close_head ∷ g.close_tail) name

-- At tick `now` the file was opened longer ago than the delay, and its commands are short.
pub record IsDue (now : ℕ) (g : Settings) (fl : FileList) : Type 0 where
  pub overdue : fl.file.open_timestamp + ulong_of_int g.delay < now
  pub short : AreShort g (or_empty fl.file.name)

-- An entry for which nothing more is to be done.
abbrev pub IsSettled : FileList → Type 0
IsSettled fl = (fl.file.has_fired_open ≡ true) × (is_valid_close fl ≡ false)

-- The entry with its open command run.
abbrev pub opened_entry : FileList → FileList
opened_entry cur = record cur { file = record (cur.file) { has_fired_open = true } }
