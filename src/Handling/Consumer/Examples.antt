-- ===== src/Handling/Consumer/Examples.antt =====
-- The theorems about rounds that come too early at concrete inputs.
use watch_it.Base.{◌≡◌, refl, false, [], ◌∷◌, arith}
use watch_it.Handling.Types.{State, FileList}
use watch_it.Handling.Clock.{cur_tick}
use watch_it.Handling.Consumer.{consume}
use watch_it.Handling.Consumer.Early.{ShowsAtMost, consume-early}
use watch_it.Handling.Consumer.Shortened.{ShowsAt, least, consume-cur_wait}
use watch_it.Handling.Samples.{steady, fresh, entry}

abbrev recent : FileList
recent = record entry {
  file = record entry.file { open_timestamp = 100000000; close_timestamp = 0; is_closed = false };
}

abbrev waiting : State
waiting = record fresh { file_event_list = recent ∷ [] }

pub steady-ShowsAtMost : ShowsAtMost steady 100000000
unfolding cur_tick
steady-ShowsAtMost n t e = ground (arith, e)

consume-early_example :
    ((consume steady 6000 waiting).0.executed ≡ [])
    × ((consume steady 6000 waiting).0.file_event_list ≡ recent ∷ [])
consume-early_example =
    consume-early steady 100000000 steady-ShowsAtMost 6000 waiting (omega arith)
      (record { unfired = refl; recent = ground arith; kept = refl }, tt)

-- Fifty ticks after the opening, of the two hundred of the delay.
abbrev younger : FileList
younger = record recent { file = record recent.file { open_timestamp = 99999950 } }

abbrev two_waiting : State
two_waiting = record fresh { file_event_list = younger ∷ recent ∷ [] }

pub steady-ShowsAt : ShowsAt steady 100000000
unfolding cur_tick
steady-ShowsAt n = (record { tv_sec = 100; tv_nsec = 5 }, refl, refl)

consume-cur_wait_example : (consume steady 200 two_waiting).1 ≡ 0
unfolding least
consume-cur_wait_example =
    consume-cur_wait steady 100000000 steady-ShowsAt 200 two_waiting (omega arith) (
      record { unfired = refl; recent = ground arith; kept = refl },
      (record { unfired = refl; recent = ground arith; kept = refl }, tt),
    )
