-- ===== src/Daemon/Life/Brief.antt =====
-- From `main` to a file that is closed too soon for a command.
use watch_it.Base.{
  ℕ, ◌+◌, ◌≤◌, ◌≡◌, ◌≢◌, ap, subst, sym, ◌∙◌, true, false, [], ◌∷◌, some, get_elem?, arith,
}
use watch_it.Base.Words.{has_bits, ulong_of_int}
use watch_it.CString.{Str}
use watch_it.Config.Types.{Conf, Loader}
use watch_it.Config.Load.{loaded}
use watch_it.Handling.Types.{State, Env, Event}
use watch_it.Handling.Clock.{get_tick}
use watch_it.Handling.Files.{is_close_event, is_open_event}
use watch_it.Handling.Commands.Effect.{Grants}
use watch_it.Handling.Add.{add_event}
use watch_it.Handling.Consumer.Early.{ShowsAtMost, tick_within}
use watch_it.Handling.Life.Brief.{brief_between}
use watch_it.Handling.Life.Lost.{rounds}
use watch_it.Daemon.Table.{Table, WdNameTuple, find_in_map, init_name_map}
use watch_it.Daemon.Table.Laws.{IsValid, init_name_map-IsValid, new_tuple}
use watch_it.Daemon.Reader.{watch_content, get_event}
use watch_it.Daemon.Reader.Wire.{KernelEvent, encode_all}
use watch_it.Daemon.Reader.Heard.{heard, IsFileEvent, get_event-heard}
use watch_it.Daemon.Start.{Kernel, main, serves}
use watch_it.Daemon.Start.Configured.{dirs_of, init-IsFresh, begin_init, main-watching}
use watch_it.Daemon.Life.{get_tick-IsRead}
use watch_it.Daemon.Life.FromMain.{begun-tuple}

module _ (env : Env) (grants : Grants env) (now : ℕ) (clock : ShowsAtMost env now) (table : Table)
    (x : WdNameTuple) (content : has_bits x.type watch_content ≡ true)
    (opening closing : KernelEvent) where
  -- The bytes of the two events are read, with some rounds in between.
  pub get_event-brief :
      (n w : ℕ) (s : State)
      → s.file_event_list ≡ []
      → s.last_tick ≤ now
      → IsFileEvent opening
      → IsFileEvent closing
      → find_in_map opening.wd table ≡ some x
      → is_close_event (heard opening x.min_read_close 0) ≡ false
      → is_open_event (heard opening x.min_read_close 0) ≡ true
      → is_close_event (heard closing x.min_read_close 0) ≡ true
      → closing.wd ≡ opening.wd
      → closing.name ≡ opening.name
      → now ≤ (get_tick env s).1 + ulong_of_int s.max_delay_before_fire
      → (s1 : State) × (s3 : State) × (get_event env table (some (encode_all (opening ∷ []))) s
          ≡ some s1)
        × (get_event env table (some (encode_all (closing ∷ []))) (rounds env n w s1) ≡ some s3)
        × ((rounds env n w s1).executed ≡ s.executed)
        × (s3.executed ≡ s.executed)
        × (s3.file_event_list ≡ [])
        × (s3.live ≡ s.live)
  unfolding is_close_event is_open_event
  get_event-brief n w s empty ticks o c known opens not_closes closes same_wd same_name recent =
      let s0 : State = (get_tick env s).0 in
      let start = get_tick-IsRead env s in
      let opened : Event = heard opening x.min_read_close (get_tick env s).1 in
      let s1 : State = (add_event env opened s0).0 in
      let s2 : State = rounds env n w s1 in
      let t : State = (get_tick env s2).0 in
      let closed : Event = heard closing x.min_read_close (get_tick env s2).1 in
      let s3 : State = (add_event env closed t).0 in
      let (ran2, ran3, gone, freed) =
        brief_between env now clock grants opened closed n w s0 t (start.files ∙ empty)
          (tick_within env now clock s ticks).1 opens not_closes closes same_wd same_name
          (rw start.quiet.delay recent) (get_tick-IsRead env s2)
          (λ within. (tick_within env now clock s2 within).1) in
      (
        s1,
        s3,
        get_event-heard table x content opening o known env s,
        get_event-heard table x content closing c (ap (λ wd. find_in_map wd table) same_wd ∙ known)
            env s2,
        ran2 ∙ start.quiet.executed,
        ran3 ∙ start.quiet.executed,
        gone,
        freed ∙ start.live,
      )

-- If `main` comes to serve events with what `config_load` returned, from an empty table and with
-- content watched: take a file in one of the first `watch_dir_count` directories of `watch_dir`, one
-- that has a name. When a read returns the bytes of an open event of that file, the consumer makes
-- any number of rounds, and a read returns the bytes of a close event of the file, all while no
-- reading of the clock is later than the open event's tick by more than the delay, and no allocation
-- fails, then both calls of `get_event` end, no command is run, the list is empty again, and as many
-- blocks are allocated as before.
pub main-brief :
    (first env : Env) (kernel : Kernel) (l : Loader) (t t' : Table) (s0 s : State) (now i : ℕ)
    (dir : Str) (opening closing : KernelEvent) (n w : ℕ)
    → IsValid t
    → t.name_map_len ≡ 0
    → main first kernel t s0 (loaded l) ≡ serves t' s
    → has_bits l.config.type watch_content ≡ true
    → get_elem? (dirs_of kernel l.config) i ≡ some dir
    → dir ≢ []
    → opening.wd ≡ kernel.inotify_add_watch dir l.config.fire_on
    → closing.wd ≡ opening.wd
    → closing.name ≡ opening.name
    → IsFileEvent opening
    → IsFileEvent closing
    → is_close_event (heard opening l.config.min_read_close 0) ≡ false
    → is_open_event (heard opening l.config.min_read_close 0) ≡ true
    → is_close_event (heard closing l.config.min_read_close 0) ≡ true
    → Grants env
    → ShowsAtMost env now
    → now ≤ (get_tick env s).1 + ulong_of_int l.config.min_read_close
    → (s1 : State) × (s3 : State) × (get_event env t' (some (encode_all (opening ∷ []))) s
        ≡ some s1)
      × (get_event env t' (some (encode_all (closing ∷ []))) (rounds env n w s1) ≡ some s3)
      × ((rounds env n w s1).executed ≡ s.executed)
      × (s3.executed ≡ s.executed)
      × (s3.file_event_list ≡ [])
      × (s3.live ≡ s.live)
unfolding init_name_map
main-brief first env kernel l t t' s0 s now i dir opening closing n w v unused serving content at
      named own same_wd same_name o c opens not_closes closes grants clock recent =
    let begun = main-watching first kernel l t t' s0 s serving in
    let v0 = init_name_map-IsValid t v in
    let config : Conf = l.config in
    let (d, known) =
      begun-tuple first kernel config (init_name_map t) t' s0 s v0 unused begun i dir at named in
    let new =
      init-IsFresh first kernel.thread_created true config s0 s
        (begin_init first kernel config (init_name_map t) t' s0 s begun) in
    get_event-brief env grants now clock t'
      (new_tuple d (kernel.inotify_add_watch dir config.fire_on) config.type config.min_read_close)
      content opening closing n w s new.empty (omega (arith, new.ticks)) o c
      (ap (λ wd. find_in_map wd t') own ∙ known) opens not_closes closes same_wd same_name
      (subst (λ delay. now ≤ (get_tick env s).1 + ulong_of_int delay) (sym new.delays) recent)
