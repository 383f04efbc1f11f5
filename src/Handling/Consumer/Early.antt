-- ===== src/Handling/Consumer/Early.antt =====
-- A round that comes too early for every file in the list.
use watch_it.Base.{
  ℕ, ◌+◌, ◌≤◌, ◌≡◌, refl, sym, ap, ap₂, subst, ◌∙◌, false, List, [], ◌∷◌, Option, some, All, arith,
  Option-cases, inl, inr, if-rule,
}
use watch_it.Base.Words.{ulong_of_int}
use watch_it.Handling.Types.{State, Env, Timespec, FileEvent, FileList}
use watch_it.Handling.Clock.{cur_tick, get_tick, calc_open_delta, has_open_past_delay}
use watch_it.Handling.Add.Quiet.{IsQuiet, IsQuiet-trans, get_tick-IsQuiet, delay-IsQuiet}
use watch_it.Handling.Consumer.{visit_open, visit, visit_all, consume}
use watch_it.Handling.Consumer.Visits.{visit_close-unfired}
use watch_it.Handling.Consumer.Sweep.{survivors, sweep-survivors, sweep-IsQuiet, sweep-last_tick}

-- No reading of the clock shows more than tick `now`.
abbrev pub ShowsAtMost : Env → ℕ → Type 0
ShowsAtMost env now = (n : ℕ) (t : Timespec) → env.clock_gettime n ≡ some t → cur_tick t ≤ now

-- The open command of the entry has not been run, and at tick `now` the file has not been open for
-- longer than the delay. The entry is not marked for removal.
pub record IsRecent (now delay : ℕ) (fl : FileList) : Type 0 where
  pub unfired : fl.file.has_fired_open ≡ false
  pub recent : now ≤ fl.file.open_timestamp + ulong_of_int delay
  pub kept : fl.remove ≡ false

module _ (env : Env) (now : ℕ) (clock : ShowsAtMost env now) where
  -- Nothing is run, no setting changes, and the ticks stay within `now`.
  pub record Waits (s t : State) : Type 0 where
    pub quiet : IsQuiet s t
    pub within : t.last_tick ≤ now

  Waits-trans : {s t u : State} → Waits s t → Waits t u → Waits s u
  Waits-trans p q = record { quiet = IsQuiet-trans p.quiet q.quiet; within = q.within }

  pub tick_within :
      (s : State)
      → s.last_tick ≤ now
      → ((get_tick env s).1 ≤ now) × ((get_tick env s).0.last_tick ≤ now)
  unfolding get_tick
  tick_within s h = elim (Option-cases (env.clock_gettime s.clock_reads)) [
    | inl failed ↦ (ground (arith, failed), ground (arith, failed))
    | inr (t, e) ↦
        let small = clock s.clock_reads t e in (ground (arith, e, small), ground (arith, e, small))
  ]

  pub delta-Waits :
      (f : Option FileEvent) (s : State) → s.last_tick ≤ now → Waits s (calc_open_delta env f s).0
  unfolding calc_open_delta
  delta-Waits f s h = record { quiet = get_tick-IsQuiet env s; within = (tick_within s h).1 }

  pub delay-Waits :
      (fl : FileList) (s : State) → s.last_tick ≤ now → Waits s (has_open_past_delay env fl s).0
  unfolding has_open_past_delay
  delay-Waits fl s h = record { quiet = delay-IsQuiet env fl s; within = (tick_within s h).1 }

  pub not_past :
      (fl : FileList) (s : State)
      → s.last_tick ≤ now
      → IsRecent now s.max_delay_before_fire fl
      → (has_open_past_delay env fl s).1 ≡ false
  unfolding has_open_past_delay
  not_past fl s h r = ground (arith, (tick_within s h).0, r.recent)

  pub visit_open_early :
      (cur : FileList) (w : ℕ) (s : State)
      → s.last_tick ≤ now
      → IsRecent now s.max_delay_before_fire cur
      → ((visit_open env cur w s).item ≡ cur) × Waits s (visit_open env cur w s).state
  unfolding visit_open
  visit_open_early cur w s h r =
      let s1 : State = (has_open_past_delay env cur s).0 in
      let s2 : State = (calc_open_delta env (some cur.file) s1).0 in
      let first = delay-Waits cur s h in
      let second = Waits-trans first (delta-Waits (some cur.file) s1 first.within) in
      let third = Waits-trans second (delta-Waits (some cur.file) s2 second.within) in
      ground (arith, r.unfired, not_past cur s h r, second, third)

  pub visit_early :
      (cur : FileList) (w : ℕ) (s : State)
      → s.last_tick ≤ now
      → IsRecent now s.max_delay_before_fire cur
      → ((visit env cur w s).item ≡ cur) × Waits s (visit env cur w s).state
  unfolding visit
  visit_early cur w s h r =
      let (item, waits) = visit_open_early cur w s h r in
      let unfired = ap (λ (fl : FileList). fl.file.has_fired_open) item ∙ r.unfired in
      rw (visit_close-unfired env (visit_open env cur w s) unfired) (item, waits)

  pub visit_all_early :
      (files : List FileList) (w : ℕ) (s : State) (delay : ℕ)
      → s.last_tick ≤ now
      → s.max_delay_before_fire ≡ delay
      → All (IsRecent now delay) files
      → ((visit_all env files w s).item ≡ files) × Waits s (visit_all env files w s).state
  unfolding visit_all
  visit_all_early [] w s delay h d r = (refl, record { quiet = ground arith; within = h })
  visit_all_early (x ∷ rest) w s delay h d r =
      let x1 = visit env x w s in
      let (item, waits) = visit_early x w s h (subst (λ n. IsRecent now n x) (sym d) r.0) in
      let (items, later) =
        visit_all_early rest x1.cur_wait x1.state delay waits.within (waits.quiet.delay ∙ d) r.1 in
      (ap₂ ◌∷◌ item items, Waits-trans waits later)

  survivors-kept :
      (delay : ℕ) (files : List FileList) → All (IsRecent now delay) files → survivors files ≡ files
  survivors-kept delay [] r = refl
  survivors-kept delay (x ∷ rest) r =
      if-rule (λ (k : List FileList). k ≡ x ∷ rest) x.remove _ _
        (λ marked. absurd (cc (marked, r.0.kept))) (λ _. ap (◌∷◌ x) (survivors-kept delay rest r.1))

  pub consume-Waits :
      (w : ℕ) (s : State)
      → s.last_tick ≤ now
      → All (IsRecent now s.max_delay_before_fire) s.file_event_list
      → Waits s (consume env w s).0
  unfolding consume
  consume-Waits w s h r =
      let s0 : State = record s { signaled = false } in
      let vs = visit_all env s.file_event_list w s0 in
      let (_, waits) = visit_all_early s.file_event_list w s0 s.max_delay_before_fire h refl r in
      let swept = IsQuiet-trans waits.quiet (sweep-IsQuiet vs.item vs.state) in
      record {
        quiet = ground (arith, swept);
        within = subst (λ n. n ≤ now) (sym (sweep-last_tick vs.item vs.state)) waits.within;
      }

  -- If no reading of the clock and no earlier tick is above `now`, and at tick `now` no file in the
  -- list has been open for longer than the delay, none has had its open command run and none is
  -- marked for removal, a round of the consumer runs no command and leaves the list as it is.
  pub consume-early :
      (w : ℕ) (s : State)
      → s.last_tick ≤ now
      → All (IsRecent now s.max_delay_before_fire) s.file_event_list
      → ((consume env w s).0.executed ≡ s.executed)
        × ((consume env w s).0.file_event_list ≡ s.file_event_list)
  unfolding consume
  consume-early w s h r =
      let s0 : State = record s { signaled = false } in
      let vs = visit_all env s.file_event_list w s0 in
      let (items, _) = visit_all_early s.file_event_list w s0 s.max_delay_before_fire h refl r in
      (
        (consume-Waits w s h r).quiet.executed,
        sweep-survivors vs.item vs.state
            ∙ ap survivors items
            ∙ survivors-kept s.max_delay_before_fire s.file_event_list r,
      )
