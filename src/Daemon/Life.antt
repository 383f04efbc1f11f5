-- ===== src/Daemon/Life.antt =====
-- A file's life as the daemon reads it: the bytes of its open event, a round of the consumer, the
-- bytes of its close event and another round.
pub mod FromMain
pub mod Brief
pub mod Examples
use watch_it.Base.{
  ℕ, ◌+◌, ◌<◌, ◌≡◌, ◌≢◌, refl, sym, ap, ◌∙◌, true, false, List, [], ◌∷◌, ◌++◌, some, ◌==◌, arith,
  Bool-cases, inl, inr, if◌then◌else◌, length, if-rule, subst, Bool,
}
use watch_it.Base.Words.{has_bits, ulong_of_int, uint32_max}
use watch_it.CString.{Str}
use watch_it.Handling.Types.{State, Env, Event}
use watch_it.Handling.Clock.{get_tick}
use watch_it.Handling.Files.{is_close_event, is_open_event}
use watch_it.Handling.Commands.Effect.{Grants}
use watch_it.Handling.Add.{add_event}
use watch_it.Handling.Add.Effect.{get_tick-files}
use watch_it.Handling.Add.Quiet.{get_tick-IsQuiet}
use watch_it.Handling.Consumer.{consume}
use watch_it.Handling.Consumer.Owed.{ShowsAtLeast, Settings, Has, AreShort}
use watch_it.Handling.Life.{Has-kept, open_text, close_text}
use watch_it.Handling.Life.Between.{IsRead, life_between}
use watch_it.Daemon.Table.{Table, WdNameTuple, find_in_map}
use watch_it.Daemon.Reader.{watch_content, get_event}
use watch_it.Daemon.Reader.Heard.{heard, IsFileEvent, get_event-heard}
use watch_it.Daemon.Reader.Wire.{KernelEvent, encode_all}

pub get_tick-IsRead : (env : Env) (s : State) → IsRead s (get_tick env s).0
unfolding get_tick
get_tick-IsRead env s = record {
  quiet = get_tick-IsQuiet env s;
  files = get_tick-files env s;
  live = ground arith;
}

module _ (early later : Env) (first : Grants early) (grants : Grants later) (now : ℕ)
    (clock : ShowsAtLeast later now) (g : Settings) (table : Table) (x : WdNameTuple)
    (content : has_bits x.type watch_content ≡ true) (opening closing : KernelEvent) where
  -- The bytes of the two events are read, and a round follows each read.
  pub get_event-life :
      (w1 w2 : ℕ) (s : State)
      → s.file_event_list ≡ []
      → Has g s
      → IsFileEvent opening
      → IsFileEvent closing
      → find_in_map opening.wd table ≡ some x
      → is_close_event (heard opening x.min_read_close 0) ≡ false
      → is_open_event (heard opening x.min_read_close 0) ≡ true
      → is_close_event (heard closing x.min_read_close 0) ≡ true
      → closing.wd ≡ opening.wd
      → closing.name ≡ opening.name
      → (get_tick early s).1 + ulong_of_int g.delay < now
      → AreShort g opening.name
      → uint32_max < now
      → let started = open_text g (heard opening x.min_read_close 0) in
        let ended = close_text g (heard opening x.min_read_close 0) in
        (s1 : State) × (s3 : State) × (get_event early table (some (encode_all (opening ∷ []))) s
          ≡ some s1)
        × (get_event later table (some (encode_all (closing ∷ []))) (consume later w1 s1).0
            ≡ some s3)
        × (s1.executed ≡ s.executed)
        × ((consume later w1 s1).0.executed ≡ s.executed ++ started ∷ [])
        × (s3.executed ≡ (consume later w1 s1).0.executed)
        × ((consume later w2 s3).0.executed ≡ s.executed ++ started ∷ ended ∷ [])
        × ((consume later w2 s3).0.file_event_list ≡ [])
        × ((consume later w2 s3).0.live ≡ s.live)
  unfolding is_close_event is_open_event
  get_event-life w1 w2 s empty h o c known opens not_closes closes same_wd same_name overdue short
        high =
      let s0 : State = (get_tick early s).0 in
      let start = get_tick-IsRead early s in
      let opened : Event = heard opening x.min_read_close (get_tick early s).1 in
      let s1 : State = (add_event early opened s0).0 in
      let s2 : State = (consume later w1 s1).0 in
      let t : State = (get_tick later s2).0 in
      let closed : Event = heard closing x.min_read_close (get_tick later s2).1 in
      let s3 : State = (add_event later closed t).0 in
      let (ran1, ran2, ran3, ran4, gone, freed) =
        life_between early later first grants opened closed now clock g w1 w2 s0 t
          (start.files ∙ empty) (Has-kept g s s0 start.quiet h) opens not_closes closes same_wd
          same_name overdue short high (get_tick-IsRead later s2) in
      let before = start.quiet.executed in
      (
        s1,
        s3,
        get_event-heard table x content opening o known early s,
        get_event-heard table x content closing c (ap (λ wd. find_in_map wd table) same_wd ∙ known)
            later s2,
        ran1 ∙ before,
        ran2 ∙ ap (λ (cs : List Str). cs ++ open_text g opened ∷ []) before,
        ran3,
        ran4 ∙ ap (λ (cs : List Str). cs ++ open_text g opened ∷ close_text g opened ∷ []) before,
        gone,
        freed ∙ start.live,
      )
