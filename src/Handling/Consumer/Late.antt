-- ===== src/Handling/Consumer/Late.antt =====
-- A round that comes late enough for every file in the list.
use watch_it.Base.{
  ℕ, ◌≤◌, ◌≡◌, refl, sym, ap, subst, ◌∙◌, true, false, List, [], ◌∷◌, ◌++◌, append-nil,
  append_assoc, some, All, if◌then◌else◌, if-rule, arith, Bool-cases, inl, inr,
}
use watch_it.CString.{Str}
use watch_it.Replace.{or_empty}
use watch_it.Handling.Types.{State, Env, FileEvent, FileList}
use watch_it.Handling.Clock.{get_tick, has_open_past_delay}
use watch_it.Handling.Files.{is_valid_close}
use watch_it.Handling.Commands.{run_command}
use watch_it.Handling.Commands.Effect.{
  expand, IsShort, Grants, run_command-executed, execute_open-fires, execute_close-fires,
  run_command-settings,
}
use watch_it.Handling.Consumer.{Visit, visit_open, visit_close, visit, visit_all, consume}
use watch_it.Handling.Consumer.Owed.{
  ShowsAtLeast, Settings, Has, owed, owed_all, IsDue, AreShort, IsSettled, opened_entry,
}
use watch_it.Handling.Consumer.Visits.{
  visit_open-fired, visit_open-past, visit_close-valid, visit_close-invalid,
}
use watch_it.Handling.Invariant.Defs.{IsSound}
use watch_it.Handling.Consumer.Sweep.{survivors, sweep-survivors, sweep-IsQuiet}

module _ (env : Env) (grants : Grants env) (now : ℕ) (clock : ShowsAtLeast env now)
    (g : Settings) where
  pub late_tick : (s : State) → now ≤ (get_tick env s).1
  unfolding get_tick
  late_tick s = let (t, e, le) = clock s.clock_reads in ground (arith, e, le)

  pub late_past :
      (fl : FileList) (s : State)
      → Has g s
      → IsDue now g fl
      → (has_open_past_delay env fl s).1 ≡ true
  unfolding has_open_past_delay
  late_past fl s h o = let (t, e, le) = clock s.clock_reads in ground (arith, e, le, o.overdue)

  -- What a late visit of an entry, or of a list of them, leaves in the state.
  pub record Ran (s t : State) (commands : List Str) : Type 0 where
    pub executed : t.executed ≡ s.executed ++ commands
    pub live : t.live ≡ s.live
    pub has : Has g t

  pass_delay : (fl : FileList) (s : State) → Has g s → Ran s (has_open_past_delay env fl s).0 []
  unfolding has_open_past_delay
  pass_delay fl s h = ground (arith, append-nil s.executed)

  run_Ran :
      (cmd name : Str) (f : FileEvent) (s : State)
      → Has g s
      → f.name ≡ some name
      → IsShort cmd (or_empty f.name)
      → Ran s (run_command env cmd f s) (expand cmd (or_empty f.name) ∷ [])
  run_Ran cmd name f s h n short =
      let small = subst (λ o. IsShort cmd (or_empty o)) n short in
      ground (
        arith,
        n,
        run_command-executed env grants cmd name f s n small,
        run_command-settings env cmd f s,
      )

  Ran-trans : {s t u : State} {xs ys : List Str} → Ran s t xs → Ran t u ys → Ran s u (xs ++ ys)
  Ran-trans {s} {xs} {ys} p q = record {
    executed = q.executed ∙ ap (λ k. k ++ ys) p.executed ∙ append_assoc s.executed xs ys;
    live = q.live ∙ p.live;
    has = q.has;
  }

  Ran-none : (s : State) → Has g s → Ran s s []
  Ran-none s h = ground (arith, append-nil s.executed)

  abbrev pub owed_open : FileList → List Str
  owed_open cur =
      if cur.file.has_fired_open
      then []
      else expand (g.open_head ∷ g.open_tail) (or_empty cur.file.name) ∷ []

  pub late_open :
      (cur : FileList) (w : ℕ) (s : State)
      → Has g s
      → IsDue now g cur
      → IsSound cur
      → ((visit_open env cur w s).item ≡ opened_entry cur)
        × Ran s (visit_open env cur w s).state (owed_open cur)
  late_open cur w s h o v = elim (Bool-cases cur.file.has_fired_open) [
    | inl fired ↦
        let e = visit_open-fired env cur w s fired in
        rw e (
          ground (arith, fired),
          if-rule (Ran s s) cur.file.has_fired_open _ _ (λ _. Ran-none s h)
              (λ no_. absurd (cc (fired, no_))),
        )
    | inr unfired ↦
        let e = visit_open-past env cur w s unfired (late_past cur s h o) in
        let s1 : State = (has_open_past_delay env cur s).0 in
        let waited = pass_delay cur s h in
        let fires =
          execute_open-fires env g.open_head g.open_tail cur.file s1 waited.has.opens unfired
            v.unclosed in
        rw (e, fires.0, fires.1)
          (
            refl,
            if-rule (Ran s _) cur.file.has_fired_open _ _ (λ fired. absurd (cc (fired, unfired)))
                (λ _. Ran-trans waited (
                  run_Ran (g.open_head ∷ g.open_tail) v.named.0 cur.file s1 waited.has v.named.1
                    o.short.opens)),
          )
  ]

  abbrev owed_close : FileList → List Str
  owed_close cur =
      if is_valid_close cur
      then expand (g.close_head ∷ g.close_tail) (or_empty cur.file.name) ∷ []
      else []

  -- The close half of a visit, for an entry whose open command has been run.
  late_close :
      (v : Visit FileList)
      → Has g v.state
      → IsSound v.item
      → v.item.file.has_fired_open ≡ true
      → AreShort g (or_empty v.item.file.name)
      → ((visit_close env v).item.remove ≡ is_valid_close v.item)
        × ((visit_close env v).item.file.has_fired_open ≡ true)
        × (is_valid_close (visit_close env v).item ≡ is_valid_close v.item)
        × Ran v.state (visit_close env v).state (owed_close v.item)
  unfolding is_valid_close
  late_close v h sound fired short = elim (Bool-cases (is_valid_close v.item)) [
    | inl valid ↦
        let e = visit_close-valid env v sound.unclosed valid fired in
        let fires =
          execute_close-fires env g.close_head g.close_tail v.item.file v.state h.closes fired
            sound.unclosed in
        rw (e, fires.0, fires.1)
          (
            sym valid,
            fired,
            refl,
            if-rule (Ran v.state _) (is_valid_close v.item) _ _
                (λ _.
                  run_Ran (g.close_head ∷ g.close_tail) sound.named.0 v.item.file v.state h
                    sound.named.1 short.closes)
                (λ invalid. absurd (cc (valid, invalid))),
          )
    | inr invalid ↦ rw (visit_close-invalid env v invalid) (
      sound.kept ∙ sym invalid,
      fired,
      refl,
      if-rule (Ran v.state _) (is_valid_close v.item) _ _ (λ valid. absurd (cc (valid, invalid)))
          (λ _. Ran-none v.state h),
    )
  ]

  -- A late visit marks the entry if the file has been closed, and runs what it owes.
  pub late_visit :
      (cur : FileList) (w : ℕ) (s : State)
      → Has g s
      → IsDue now g cur
      → IsSound cur
      → ((visit env cur w s).item.remove ≡ is_valid_close cur)
        × ((visit env cur w s).item.file.has_fired_open ≡ true)
        × (is_valid_close (visit env cur w s).item ≡ is_valid_close cur)
        × Ran s (visit env cur w s).state (owed g cur)
  unfolding visit owed is_valid_close
  late_visit cur w s h o v =
      let (opened, ran) = late_open cur w s h o v in
      let v1 : Visit FileList = visit_open env cur w s in
      let sound : IsSound (opened_entry cur) = ground (arith, v) in
      let (marked, fired, valid, closed) =
        late_close v1 ran.has (subst IsSound (sym opened) sound)
          (ap (λ (fl : FileList). fl.file.has_fired_open) opened)
          (subst (λ (fl : FileList). AreShort g (or_empty fl.file.name)) (sym opened) o.short) in
      (
        marked ∙ ap is_valid_close opened,
        fired,
        valid ∙ ap is_valid_close opened,
        Ran-trans ran
            (subst (λ fl. Ran v1.state (visit_close env v1).state (owed_close fl)) opened closed),
      )

  late_files :
      (files : List FileList) (w : ℕ) (s : State)
      → Has g s
      → All (IsDue now g) files
      → All IsSound files
      → Ran s (visit_all env files w s).state (owed_all g files)
        × All IsSettled (survivors (visit_all env files w s).item)
  unfolding visit_all owed_all
  late_files [] w s h o v = (Ran-none s h, tt)
  late_files (x ∷ rest) w s h o v =
      let x1 : Visit FileList = visit env x w s in
      let (marked, fired, valid, ran) = late_visit x w s h o.0 v.0 in
      let (later, settled) = late_files rest x1.cur_wait x1.state ran.has o.1 v.1 in
      (
        Ran-trans ran later,
        if-rule (All IsSettled) x1.item.remove _ _ (λ _. settled)
            (λ stays. ((fired, valid ∙ sym marked ∙ stays), settled)),
      )

  -- On a sound list, a round that comes late for every file in it, with two commands that are not
  -- empty, neither they nor they with the name of a file in the list reaching 2 ^ 31 bytes, and no
  -- failed allocation or clock reading, runs exactly the commands that it owes, entry by entry in
  -- list order and each entry's open command before its close command. What it leaves in the list
  -- has had its open command run, and has not been closed.
  pub consume-late :
      (w : ℕ) (s : State)
      → Has g s
      → All (IsDue now g) s.file_event_list
      → All IsSound s.file_event_list
      → ((consume env w s).0.executed ≡ s.executed ++ owed_all g s.file_event_list)
        × All IsSettled (consume env w s).0.file_event_list
  unfolding consume
  consume-late w s h o v =
      let s0 : State = record s { signaled = false } in
      let (ran, settled) = late_files s.file_event_list w s0 (ground (arith, h)) o v in
      let vs = visit_all env s.file_event_list w s0 in
      (
        (sweep-IsQuiet vs.item vs.state).executed ∙ ran.executed,
        subst (All IsSettled) (sym (sweep-survivors vs.item vs.state)) settled,
      )
