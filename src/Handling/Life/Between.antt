-- ===== src/Handling/Life/Between.antt =====
-- The life of a file with a clock for its opening, one for the rest, and a look at the clock before
-- the close event.
use watch_it.Base.{
  ℕ, ◌+◌, ◌<◌, ◌≡◌, refl, sym, ap, ◌∙◌, true, false, List, [], ◌∷◌, ◌++◌, append_assoc, some,
  length, arith,
}
use watch_it.Base.Words.{ulong_of_int, uint32_max}
use watch_it.CString.{Str}
use watch_it.Handling.Types.{State, Env, Event}
use watch_it.Handling.Clock.{has_open_past_delay}
use watch_it.Handling.Files.{is_close_event, is_open_event}
use watch_it.Handling.Commands.Effect.{Grants}
use watch_it.Handling.Add.{add_event}
use watch_it.Handling.Add.Effect.{close_tick}
use watch_it.Handling.Add.Quiet.{IsQuiet, add_event-IsQuiet}
use watch_it.Handling.Consumer.{consume}
use watch_it.Handling.Consumer.Owed.{ShowsAtLeast, Settings, Has, AreShort}
use watch_it.Handling.Consumer.Late.{late_tick, late_past}
use watch_it.Handling.Life.{
  Has-quiet, Has-kept, opened_list, closed_list, first_round, last_round, open_text, close_text,
  running,
}
use watch_it.Handling.Accounts.Rounds.{consume-live}
use watch_it.Handling.Accounts.Added.{add_event-Adds}

-- At most the clock has been read.
pub record IsRead (s t : State) : Type 0 where
  pub quiet : IsQuiet s t
  pub files : t.file_event_list ≡ s.file_event_list
  pub live : t.live ≡ s.live

module _ (early env : Env) (first : Grants early) (grants : Grants env)
    (opening closing : Event) where
  -- The blocks, from the lengths of the list.
  life_live :
      (w1 w2 : ℕ) (s t : State)
      → let s1 = (add_event early opening s).0 in
        let s2 = (consume env w1 s1).0 in
        let s3 = (add_event env closing t).0 in
        let s4 = (consume env w2 s3).0 in
        t.live ≡ s2.live
        → length s.file_event_list ≡ 0
        → length s1.file_event_list ≡ 1
        → length s2.file_event_list ≡ 1
        → length t.file_event_list ≡ 1
        → length s3.file_event_list ≡ 1
        → length s4.file_event_list ≡ 0
        → s4.live ≡ s.live
  life_live w1 w2 s t same n n1 n2 nt n3 n4 =
      let s1 : State = (add_event early opening s).0 in
      let s2 : State = (consume env w1 s1).0 in
      let s3 : State = (add_event env closing t).0 in
      let a1 = add_event-Adds early opening s in
      let e1 = a1.live (omega (arith, n)) in
      let e2 = consume-live env w1 s1 (omega (arith, e1, n1, n)) in
      let a3 = add_event-Adds env closing t in
      let e3 = a3.live (omega (arith, e1, e2, n, n1, n2, nt, same)) in
      let e4 = consume-live env w2 s3 (omega (arith, e1, e2, e3, n, n1, n2, nt, n3, same)) in
      omega
        (arith, e1, e2, e3, e4, n, n1, n2, nt, n3, n4, same, a1.granted first, a3.granted grants)

  module _ (now : ℕ) (clock : ShowsAtLeast env now) (g : Settings) where
    abbrev pub started : Str
    started = open_text g opening

    abbrev pub ended : Str
    ended = close_text g opening

    pub life_between :
        (w1 w2 : ℕ) (s t : State)
        → s.file_event_list ≡ []
        → Has g s
        → is_close_event opening ≡ false
        → is_open_event opening ≡ true
        → is_close_event closing ≡ true
        → closing.id ≡ opening.id
        → closing.name ≡ opening.name
        → opening.timestamp + ulong_of_int g.delay < now
        → AreShort g opening.name
        → uint32_max < now
        → let s1 = (add_event early opening s).0 in
          let s2 = (consume env w1 s1).0 in
          let s3 = (add_event env closing t).0 in
          let s4 = (consume env w2 s3).0 in
          IsRead s2 t
          → (s1.executed ≡ s.executed)
            × (s2.executed ≡ s.executed ++ started ∷ [])
            × (s3.executed ≡ s2.executed)
            × (s4.executed ≡ s.executed ++ started ∷ ended ∷ [])
            × (s4.file_event_list ≡ [])
            × (s4.live ≡ s.live)
    life_between w1 w2 s t empty h c o c' i n overdue short high read =
        let s1 : State = (add_event early opening s).0 in
        let s2 : State = (consume env w1 s1).0 in
        let s3 : State = (add_event env closing t).0 in
        let q1 = (add_event-IsQuiet early opening s).executed in
        let q3 = (add_event-IsQuiet env closing t).executed ∙ read.quiet.executed in
        let files1 = opened_list early first opening s empty c o in
        let (ran2, files2, h2) =
          first_round env grants now clock g opening w1 s1 files1 (Has-quiet early g opening s h)
            overdue short in
        let filest = read.files ∙ files2 in
        let ht : Has g t = Has-kept g s2 t read.quiet h2 in
        let past =
          late_past env grants now clock g (running opening) t ht
            (record { overdue = overdue; short = short }) in
        let files3 =
          closed_list env closing (running opening) t filest (sym i) (ap some (sym n)) refl past
            c' in
        let tick = close_tick env (running opening) t in
        let at = late_tick env grants now clock g (has_open_past_delay env (running opening) t).0 in
        let (ran4, files4) =
          last_round env grants now clock g opening w2 tick s3 files3 (Has-quiet env g closing t ht)
            overdue short (omega (arith, high, at)) in
        let ran2' = ran2 ∙ ap (λ (cs : List Str). cs ++ started ∷ []) q1 in
        (
          q1,
          ran2',
          q3,
          ran4
              ∙ ap (λ (cs : List Str). cs ++ ended ∷ []) (q3 ∙ ran2')
              ∙ append_assoc s.executed (started ∷ []) (ended ∷ []),
          files4,
          life_live w1 w2 s t read.live (ap length empty) (ap length files1) (ap length files2)
              (ap length filest) (ap length files3) (ap length files4),
        )
