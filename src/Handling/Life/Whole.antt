-- ===== src/Handling/Life/Whole.antt =====
-- The life of a file as a whole: the command at its start, the command at its end, and nothing left.
use watch_it.Base.{ℕ, ◌+◌, ◌<◌, ◌≡◌, refl, true, false, [], ◌∷◌, ◌++◌}
use watch_it.Base.Words.{ulong_of_int, uint32_max}
use watch_it.CString.{Str}
use watch_it.Handling.Types.{State, Env, Event}
use watch_it.Handling.Files.{is_close_event, is_open_event}
use watch_it.Handling.Commands.Effect.{Grants}
use watch_it.Handling.Add.{add_event}
use watch_it.Handling.Consumer.{consume}
use watch_it.Handling.Consumer.Owed.{ShowsAtLeast, Settings, Has, AreShort}
use watch_it.Handling.Life.Between.{life_between}
use watch_it.Handling.Life.{open_text, close_text}

module _ (env : Env) (grants : Grants env) (now : ℕ) (clock : ShowsAtLeast env now) (g : Settings)
    (opening closing : Event) where
  abbrev started : Str
  started = open_text g opening

  abbrev ended : Str
  ended = close_text g opening

  -- With an empty list, two commands that are not empty and no failed allocation or clock reading:
  -- after an open event, a round later than the delay, a close event of the same file and another
  -- round, the first round has run the open command for the file and the second the close command,
  -- nothing else has been run, the list is empty again, and as many blocks are allocated as before.
  -- The two commands for the file are to be shorter than 2 ^ 31 bytes, and the ticks above UINT32_MAX, the mark of a file that has not been closed.
  pub file_life :
      (w1 w2 : ℕ) (s : State)
      → s.file_event_list ≡ []
      → Has g s
      → is_close_event opening ≡ false
      → is_open_event opening ≡ true
      → is_close_event closing ≡ true
      → closing.id ≡ opening.id
      → closing.name ≡ opening.name
      → opening.timestamp + ulong_of_int g.delay < now
      → AreShort g opening.name
      → uint32_max < now
      → let s1 = (add_event env opening s).0 in
        let s2 = (consume env w1 s1).0 in
        let s3 = (add_event env closing s2).0 in
        let s4 = (consume env w2 s3).0 in
        (s1.executed ≡ s.executed)
        × (s2.executed ≡ s.executed ++ started ∷ [])
        × (s3.executed ≡ s2.executed)
        × (s4.executed ≡ s.executed ++ started ∷ ended ∷ [])
        × (s4.file_event_list ≡ [])
        × (s4.live ≡ s.live)
  file_life w1 w2 s empty h c o c' i n overdue short high =
      life_between env env grants grants opening closing now clock g w1 w2 s _ empty h c o c' i n
        overdue short high
        (record {
          quiet = record { open_cmd = refl; close_cmd = refl; delay = refl; executed = refl };
          files = refl;
          live = refl;
        })
