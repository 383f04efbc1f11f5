-- ===== src/Daemon/Life/Examples.antt =====
-- The life of a file in the daemon at concrete inputs.
use watch_it.Base.{inr, ◌≡◌, refl, [], ◌∷◌, some, arith}
use watch_it.CString.{codes, starts_with}
use watch_it.Replace.Spec.{scan}
use watch_it.Handling.Types.{State, in_close_write}
use watch_it.Handling.Init.{event_handling_init}
use watch_it.Handling.Clock.{get_tick}
use watch_it.Handling.Files.{is_close_event, is_open_event}
use watch_it.Handling.Consumer.{consume}
use watch_it.Handling.Samples.{
  steady, ticking, modern, modern-ShowsAtLeast, settings, settings-AreShort,
}
use watch_it.Daemon.Table.{add_to_map, init_name_map}
use watch_it.Daemon.Reader.{get_event}
use watch_it.Daemon.Reader.Heard.{IsFileEvent}
use watch_it.Daemon.Reader.Wire.{KernelEvent, encode_all}
use watch_it.Daemon.Start.{main, begin_watch, watch_loop}
use watch_it.Daemon.Start.Examples.{l, watched, set_up}
use watch_it.Daemon.Examples.{table, table-IsValid, child, idle, named, named-IsWellFormed}
use watch_it.Daemon.Life.FromMain.{main-life}
use watch_it.Daemon.Life.Brief.{main-brief}
use watch_it.Handling.Life.Lost.{rounds}
use watch_it.Handling.Consumer.Examples.{steady-ShowsAtMost}

abbrev closing : KernelEvent
closing = record named { mask = in_close_write }

named-IsFileEvent : IsFileEvent named
named-IsFileEvent = record { formed = named-IsWellFormed; named = refl; plain = refl }

closing-IsFileEvent : IsFileEvent closing
closing-IsFileEvent = record {
  formed = record {
    wd_fits = omega arith;
    mask_fits = omega arith;
    len_fits = omega arith;
    name_bytes = omega arith;
    ended = inr (omega arith);
  };
  named = refl;
  plain = refl;
}

main-life_example :
    (s1 : State) × (s3 : State) × (get_event ticking watched (some (encode_all (named ∷ []))) set_up
      ≡ some s1)
    × (get_event modern watched (some (encode_all (closing ∷ []))) (consume modern 6000 s1).0
        ≡ some s3)
    × (s1.executed ≡ [])
    × ((consume modern 6000 s1).0.executed ≡ codes "o f" ∷ [])
    × (s3.executed ≡ (consume modern 6000 s1).0.executed)
    × ((consume modern 6000 s3).0.executed ≡ codes "o f" ∷ codes "c f" ∷ [])
    × ((consume modern 6000 s3).0.file_event_list ≡ [])
    × ((consume modern 6000 s3).0.live ≡ 4)
unfolding main begin_watch watch_loop add_to_map init_name_map event_handling_init is_close_event
    is_open_event scan starts_with get_tick
main-life_example =
    main-life ticking ticking modern child l table watched idle set_up 1700000000000000 settings 0
      (codes "/tmp") named closing 6000 6000 table-IsValid refl refl
      (record { opens = refl; closes = refl; delays = refl }) refl refl (λ e. cc e) refl refl refl
      named-IsFileEvent closing-IsFileEvent refl refl refl (λ n. refl) (λ n. refl)
      modern-ShowsAtLeast (omega arith) settings-AreShort (omega arith)

main-brief_example :
    (s1 : State) × (s3 : State) × (get_event steady watched (some (encode_all (named ∷ []))) set_up
      ≡ some s1)
    × (get_event steady watched (some (encode_all (closing ∷ []))) (rounds steady 3 6000 s1)
        ≡ some s3)
    × ((rounds steady 3 6000 s1).executed ≡ [])
    × (s3.executed ≡ [])
    × (s3.file_event_list ≡ [])
    × (s3.live ≡ 4)
unfolding main begin_watch watch_loop add_to_map init_name_map event_handling_init is_close_event
    is_open_event get_tick
main-brief_example =
    main-brief ticking steady child l table watched idle set_up 100000000 0 (codes "/tmp") named
      closing 3 6000 table-IsValid refl refl refl refl (λ e. cc e) refl refl refl named-IsFileEvent
      closing-IsFileEvent refl refl refl (λ n. refl) steady-ShowsAtMost (omega arith)
