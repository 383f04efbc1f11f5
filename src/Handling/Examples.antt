-- ===== src/Handling/Examples.antt =====
-- The theorems about the event handling at concrete inputs.
use watch_it.Handling.Consumer.Owed.{IsDue}
use watch_it.Handling.Samples.{settings-AreShort}
use watch_it.Base.{
  length, ℕ, ◌<◌, ◌*◌, ◌/◌, ◌%◌, ◌+◌, ◌≤◌, ◌≡◌, ◌⊎◌, refl, false, [], ◌∷◌, ◌++◌, none, some, All,
  arith,
}
use watch_it.Handling.Types.{State, Timespec}
use watch_it.Handling.Clock.{cur_tick, get_tick}
use watch_it.Handling.Clock.Monotone.{get_tick-monotone}
use watch_it.Handling.Files.{is_close_event, is_open_event}
use watch_it.Handling.Add.{add_event}
use watch_it.Handling.Consumer.{consume}
use watch_it.Handling.Consumer.Owed.{Has, owed_all, IsSettled}
use watch_it.Handling.Consumer.Late.{consume-late}
use watch_it.Handling.Consumer.Left.{left, consume-left}
use watch_it.Handling.Invariant.Defs.{Inv}
use watch_it.Handling.Invariant.Reachable.{Reach-Inv}
use watch_it.Handling.Lookup.{lookup}
use watch_it.Handling.Lookup.Refines.{
  closed_view, opened_view, add_event-after_close, add_event-after_open,
}
use watch_it.Handling.Wait.{Double, time_to_wait}
use watch_it.Handling.Wait.Deadline.{IsAccurate, nanos, time_to_wait_bounds, time_to_wait-long}
use watch_it.Handling.Accounts.{outstanding_all}
use watch_it.Handling.Accounts.Reachable.{lost_on, produced, Reach-Holds, Reach-runs}
use watch_it.Handling.Silent.{Reach-silent}
use watch_it.Handling.System.{System, Reach, here, next, produce, proceed}
use watch_it.Handling.Samples.{
  after_open_event, busy, busy-Inv, closed, empty-Inv, entry, fresh, opened, settings, start,
  steady, ticking,
}

get_tick-monotone_example :
    (fresh.last_tick ≤ (get_tick ticking fresh).0.last_tick)
    × ((ticking.clock_gettime 0 ≡ none)
          × ((get_tick ticking fresh).1 ≡ 0)
          × ((get_tick ticking fresh).0.last_tick ≡ 0)
        ⊎ ((t : Timespec) × (ticking.clock_gettime 0 ≡ some t)
            × (cur_tick t ≤ (get_tick ticking fresh).1)
            × ((get_tick ticking fresh).1 ≡ (get_tick ticking fresh).0.last_tick)
            × (((get_tick ticking fresh).1 ≡ cur_tick t) ⊎ ((get_tick ticking fresh).1 ≡ 0))))
get_tick-monotone_example = get_tick-monotone ticking fresh

abbrev before_full : Timespec
before_full = record { tv_sec = 7; tv_nsec = 999999999 }

abbrev at_full : Timespec
at_full = record { tv_sec = 8; tv_nsec = 0 }

Reach-Inv_example : Inv after_open_event.state.file_event_list
Reach-Inv_example =
    Reach-Inv ticking {s = start} {t = after_open_event} empty-Inv (next here (produce opened))

add_event-after_close_example :
    lookup entry.file (add_event ticking closed busy).0.file_event_list
    ≡ closed_view ticking closed busy entry.file
unfolding is_close_event
add_event-after_close_example = add_event-after_close ticking closed busy busy-Inv entry.file refl

add_event-after_open_example :
    lookup entry.file (add_event ticking opened busy).0.file_event_list
    ≡ opened_view opened busy (add_event ticking opened busy).1 entry.file
unfolding is_close_event is_open_event
add_event-after_open_example =
    add_event-after_open ticking opened busy busy-Inv entry.file refl refl

shows_late : (n : ℕ) → (t : Timespec) × (steady.clock_gettime n ≡ some t) × (1000 ≤ cur_tick t)
unfolding cur_tick
shows_late n = (record { tv_sec = 100; tv_nsec = 5 }, refl, omega arith)

entry-IsDue : IsDue 1000 settings entry
entry-IsDue = record { overdue = omega arith; short = settings-AreShort }

consume-late_example :
    ((consume steady 6000 busy).0.executed ≡ [] ++ owed_all settings (entry ∷ []))
    × All IsSettled (consume steady 6000 busy).0.file_event_list
consume-late_example =
    consume-late steady (λ n. refl) 1000 shows_late settings 6000 busy
      (record { opens = refl; closes = refl; delays = refl }) (entry-IsDue, tt) busy-Inv.sound

abbrev mute : State
mute = record fresh { open_cmd = some [] }

abbrev mute_start : System
mute_start = record start { state = mute }

abbrev mute_event : System
mute_event = record mute_start { state = (add_event ticking opened mute).0 }

abbrev mute_round : System
mute_round = record {
  state = (consume ticking 6000 mute_event.state).0;
  waiting = false;
  cur_wait = (consume ticking 6000 mute_event.state).1;
}

Reach-silent_example : mute_round.state.executed ≡ []
unfolding add_event
Reach-silent_example =
    Reach-silent ticking {s = mute_start} {t = mute_round}
      (record { empty = refl; unfired = tt; nothing = refl })
      (next (next here (produce opened)) (proceed refl refl))

-- Doubles that are exact millionths.
abbrev millionths : Double ℕ
millionths = record {
  of_ulong = λ n. n * 1000000;
  div = λ a b. a * 1000000 / b;
  mul = λ a b. a * b / 1000000;
  modf = λ a. (a % 1000000, a / 1000000 * 1000000);
  to_int = λ a. a / 1000000;
}

millionths-IsAccurate : IsAccurate millionths
millionths-IsAccurate = record { whole = λ w h. omega arith; at_most = λ w h. omega arith }

abbrev half_past : Timespec
half_past = record { tv_sec = 8; tv_nsec = 500000000 }

-- A wait for the usual 200 milliseconds.
waits_long : time_to_wait millionths half_past 200 ≡ record { tv_sec = 9; tv_nsec = 499200000 }
unfolding time_to_wait
waits_long = refl

time_to_wait_bounds_example :
    ((time_to_wait millionths half_past 200).tv_nsec < 1000000000)
    × (nanos half_past ≤ nanos (time_to_wait millionths half_past 200))
time_to_wait_bounds_example =
    time_to_wait_bounds millionths millionths-IsAccurate half_past 200 (omega arith) (omega arith)

time_to_wait-long_example :
    (nanos half_past + 200 / 1000 * 1000000000 + 999000000
      ≤ nanos (time_to_wait millionths half_past 200))
    × (nanos (time_to_wait millionths half_past 200)
        ≤ nanos half_past + (200 / 1000 + 1) * 1000000000)
time_to_wait-long_example =
    time_to_wait-long millionths millionths-IsAccurate half_past 200 (omega arith) (omega arith)

abbrev one_event : Reach ticking start after_open_event
one_event = next here (produce opened)

Reach-Holds_example :
    after_open_event.state.live
    ≡ 2 + 3 * length after_open_event.state.file_event_list + 2 * lost_on ticking one_event
Reach-Holds_example = Reach-Holds ticking 2 {s = start} {t = after_open_event} one_event refl

Reach-runs_example :
    length after_open_event.state.executed
    ≤ length start.state.executed
      + outstanding_all start.state.file_event_list
      + 2 * produced ticking one_event
Reach-runs_example = Reach-runs ticking {s = start} {t = after_open_event} one_event

consume-left_example :
    ((consume steady 6000 busy).0.file_event_list ≡ left (entry ∷ []))
    × Has settings (consume steady 6000 busy).0
consume-left_example =
    consume-left steady (λ n. refl) 1000 shows_late settings 6000 busy
      (record { opens = refl; closes = refl; delays = refl }) (entry-IsDue, tt) busy-Inv.sound
