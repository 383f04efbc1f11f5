-- ===== src/Handling/Life/Brief.antt =====
-- The life of a file that is closed before the delay has passed.
use watch_it.Base.{
  ℕ, zero, suc, ◌+◌, ◌*◌, ◌≤◌, ◌≡◌, refl, sym, ap, subst, ◌∙◌, true, false, [], ◌∷◌, some, All,
  length, arith,
}
use watch_it.Base.Words.{ulong_of_int}
use watch_it.Handling.Types.{State, Env, Event, FileList}
use watch_it.Handling.Files.{is_close_event, is_open_event, find_in_file_list}
use watch_it.Handling.Commands.Effect.{Grants}
use watch_it.Handling.Add.{handle_event, add_event}
use watch_it.Handling.Add.Effect.{on_close-files, past_delay}
use watch_it.Handling.Add.Quiet.{IsQuiet, IsQuiet-trans, add_event-IsQuiet}
use watch_it.Handling.Consumer.{consume}
use watch_it.Handling.Consumer.Early.{ShowsAtMost, IsRecent, consume-Waits, consume-early, not_past}
use watch_it.Handling.Life.{opened_by, opened_list, found_alone}
use watch_it.Handling.Life.Between.{IsRead}
use watch_it.Handling.Life.Lost.{rounds}
use watch_it.Handling.Accounts.Rounds.{consume-live}
use watch_it.Handling.Accounts.Added.{add_event-Adds}

module _ (env : Env) (now : ℕ) (clock : ShowsAtMost env now) where
  -- Rounds that come too early change nothing that matters.
  rounds-early :
      (n w : ℕ) (s : State)
      → s.last_tick ≤ now
      → All (IsRecent now s.max_delay_before_fire) s.file_event_list
      → 3 * length s.file_event_list ≤ s.live
      → IsRead s (rounds env n w s) × ((rounds env n w s).last_tick ≤ now)
  unfolding rounds
  rounds-early zero w s h r blocks = (record { quiet = ground arith; files = refl; live = refl }, h)
  rounds-early (suc n) w s h r blocks =
      let s1 : State = (consume env w s).0 in
      let waits = consume-Waits env now clock w s h r in
      let files = (consume-early env now clock w s h r).1 in
      let freed = consume-live env w s blocks in
      let r1 : All (IsRecent now s1.max_delay_before_fire) s1.file_event_list =
        rw (files, waits.quiet.delay) r in
      let same : s1.live ≡ s.live = omega (arith, freed, ap length files) in
      let (later, within) =
        rounds-early n (consume env w s).1 s1 waits.within r1
          (omega (arith, same, blocks, ap length files)) in
      (
        record {
          quiet = IsQuiet-trans waits.quiet later.quiet;
          files = later.files ∙ files;
          live = later.live ∙ same;
        },
        within,
      )

  -- A close event of the only file, which has been open for no longer than the delay and whose open
  -- command has not been run.
  forgotten_list :
      (e : Event) (fl : FileList) (s : State)
      → s.file_event_list ≡ fl ∷ []
      → fl.file.id ≡ e.id
      → fl.file.name ≡ some e.name
      → fl.file.is_closed ≡ false
      → fl.file.has_fired_open ≡ false
      → past_delay env fl s ≡ false
      → is_close_event e ≡ true
      → (add_event env e s).0.file_event_list ≡ []
  unfolding add_event handle_event
  forgotten_list e fl s alone i n opened unfired early c =
      let found : find_in_file_list e s.file_event_list ≡ some (0, fl) =
        ap (find_in_file_list e) alone ∙ found_alone env e fl i n c in
      ground (arith, c, found, on_close-files env 0 fl s, opened, unfired, early, alone)

  module _ (grants : Grants env) (opening closing : Event) where
    opened_tick :
        (s : State)
        → s.file_event_list ≡ []
        → is_close_event opening ≡ false
        → is_open_event opening ≡ true
        → (add_event env opening s).0.last_tick ≡ s.last_tick
    unfolding add_event handle_event find_in_file_list
    opened_tick s empty c o =
        ground (
          arith,
          empty,
          c,
          o,
          grants s.mallocs,
          grants (suc s.mallocs),
          grants (suc (suc s.mallocs)),
        )

    pub brief_between :
        (n w : ℕ) (s t : State)
        → s.file_event_list ≡ []
        → s.last_tick ≤ now
        → is_close_event opening ≡ false
        → is_open_event opening ≡ true
        → is_close_event closing ≡ true
        → closing.id ≡ opening.id
        → closing.name ≡ opening.name
        → now ≤ opening.timestamp + ulong_of_int s.max_delay_before_fire
        → let s1 = (add_event env opening s).0 in
          let s2 = rounds env n w s1 in
          let s3 = (add_event env closing t).0 in
          IsRead s2 t
          → (s2.last_tick ≤ now → t.last_tick ≤ now)
          → (s2.executed ≡ s.executed)
            × (s3.executed ≡ s.executed)
            × (s3.file_event_list ≡ [])
            × (s3.live ≡ s.live)
    brief_between n w s t empty ticks c o c' i same recent read later =
        let s1 : State = (add_event env opening s).0 in
        let s2 : State = rounds env n w s1 in
        let s3 : State = (add_event env closing t).0 in
        let quiet1 = add_event-IsQuiet env opening s in
        let files1 = opened_list env grants opening s empty c o in
        let adds1 = add_event-Adds env opening s in
        let live1 = adds1.live (omega (arith, ap length empty)) in
        let fl : FileList = opened_by opening in
        let new : IsRecent now s1.max_delay_before_fire fl = record {
          unfired = refl;
          recent = rw quiet1.delay recent;
          kept = refl;
        } in
        let news : All (IsRecent now s1.max_delay_before_fire) s1.file_event_list =
          rw files1 (new, tt) in
        let (waited, within) =
          rounds-early n w s1 (rw (opened_tick s empty c o) ticks) news
            (omega (arith, live1, ap length files1, ap length empty)) in
        let files : t.file_event_list ≡ fl ∷ [] = read.files ∙ waited.files ∙ files1 in
        let quiet : IsQuiet s1 t = IsQuiet-trans waited.quiet read.quiet in
        let brief : IsRecent now t.max_delay_before_fire fl =
          subst (λ d. IsRecent now d fl) (sym quiet.delay) new in
        let early = not_past env now clock fl t (later within) brief in
        let gone =
          forgotten_list closing fl t files (sym i) (ap some (sym same)) refl refl early c' in
        let adds3 = add_event-Adds env closing t in
        let alive : t.live ≡ s1.live = read.live ∙ waited.live in
        let live3 =
          adds3.live
            (omega (arith, alive, live1, ap length files, ap length files1, ap length empty)) in
        (
          waited.quiet.executed ∙ quiet1.executed,
          (add_event-IsQuiet env closing t).executed ∙ quiet.executed ∙ quiet1.executed,
          gone,
          omega (
            arith,
            alive,
            live1,
            live3,
            ap length files,
            ap length files1,
            ap length empty,
            ap length gone,
            adds1.granted grants,
            adds3.granted grants,
          ),
        )
