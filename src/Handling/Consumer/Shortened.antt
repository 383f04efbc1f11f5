-- ===== src/Handling/Consumer/Shortened.antt =====
-- What a round makes of `cur_wait`.
use watch_it.Base.{
  ℕ, min, ◌-◌, ◌≤◌, ◌≡◌, refl, sym, ap, ap₂, subst, ◌∙◌, false, List, [], ◌∷◌, some, All, arith,
  some-inj,
}
use watch_it.Handling.Types.{State, Env, Timespec, FileEvent, FileList}
use watch_it.Handling.Clock.{cur_tick, get_tick, calc_open_delta, has_open_past_delay}
use watch_it.Handling.Consumer.{visit_open, shorten_wait, visit, visit_all, consume, wait_after}
use watch_it.Handling.Consumer.Visits.{visit_close-unfired}
use watch_it.Handling.Consumer.Early.{
  ShowsAtMost, IsRecent, visit_early, visit_open_early, not_past, delay-Waits, delta-Waits,
  consume-early,
}

-- Every reading of the clock shows tick `now`.
abbrev pub ShowsAt : Env → ℕ → Type 0
ShowsAt env now = (n : ℕ) → (t : Timespec) × (env.clock_gettime n ≡ some t) × (cur_tick t ≡ now)

-- The least of a wait and the times that files have been open at a tick.
unfoldable pub least : ℕ → ℕ → List FileList → ℕ
least now w [] = w
least now w (fl ∷ rest) = min (now - fl.file.open_timestamp) (least now w rest)

min-least :
    (now a w : ℕ) (files : List FileList) → least now (min a w) files ≡ min a (least now w files)
unfolding least
min-least now a w [] = refl
min-least now a w (fl ∷ rest) = ground (arith, min-least now a w rest)

module _ (env : Env) (now : ℕ) (clock : ShowsAt env now) where
  pub at_most : ShowsAtMost env now
  at_most n t e =
      let (t', e', at) = clock n in
      let same : t ≡ t' = some-inj (sym e ∙ e') in omega (arith, ap cur_tick same, at)

  pub tick_at : (s : State) → s.last_tick ≤ now → (get_tick env s).1 ≡ now
  unfolding get_tick
  tick_at s h = let (t, e, at) = clock s.clock_reads in ground (arith, e, at)

  pub delta_at :
      (f : FileEvent) (s : State)
      → s.last_tick ≤ now
      → (calc_open_delta env (some f) s).1 ≡ now - f.open_timestamp
  unfolding calc_open_delta
  delta_at f s h = ground (arith, tick_at s h)

  visit_open-cur_wait :
      (cur : FileList) (w : ℕ) (s : State)
      → s.last_tick ≤ now
      → IsRecent now s.max_delay_before_fire cur
      → (visit_open env cur w s).cur_wait ≡ min (now - cur.file.open_timestamp) w
  unfolding visit_open shorten_wait
  visit_open-cur_wait cur w s h r =
      let s1 : State = (has_open_past_delay env cur s).0 in
      let s2 : State = (calc_open_delta env (some cur.file) s1).0 in
      let first = delay-Waits env now at_most cur s h in
      let second = delta-Waits env now at_most (some cur.file) s1 first.within in
      ground (
        arith,
        r.unfired,
        not_past env now at_most cur s h r,
        delta_at cur.file s1 first.within,
        delta_at cur.file s2 second.within,
      )

  visit-cur_wait :
      (cur : FileList) (w : ℕ) (s : State)
      → s.last_tick ≤ now
      → IsRecent now s.max_delay_before_fire cur
      → (visit env cur w s).cur_wait ≡ min (now - cur.file.open_timestamp) w
  unfolding visit
  visit-cur_wait cur w s h r =
      let (item, _) = visit_open_early env now at_most cur w s h r in
      let unfired = ap (λ (fl : FileList). fl.file.has_fired_open) item ∙ r.unfired in
      rw (visit_close-unfired env (visit_open env cur w s) unfired)
        (visit_open-cur_wait cur w s h r)

  visit_all-cur_wait :
      (files : List FileList) (w : ℕ) (s : State) (delay : ℕ)
      → s.last_tick ≤ now
      → s.max_delay_before_fire ≡ delay
      → All (IsRecent now delay) files
      → (visit_all env files w s).cur_wait ≡ least now w files
  unfolding visit_all least
  visit_all-cur_wait [] w s delay h d r = refl
  visit_all-cur_wait (x ∷ rest) w s delay h d r =
      let recent : IsRecent now s.max_delay_before_fire x =
        subst (λ n. IsRecent now n x) (sym d) r.0 in
      let v = visit env x w s in
      let (_, waits) = visit_early env now at_most x w s h recent in
      visit_all-cur_wait rest v.cur_wait v.state delay waits.within (waits.quiet.delay ∙ d) r.1
      ∙ ap (λ n. least now n rest) (visit-cur_wait x w s h recent)
      ∙ min-least now (now - x.file.open_timestamp) w rest

  -- If every reading of the clock shows one tick, no earlier tick is above it, and at that tick no
  -- file in the list has been open for longer than the delay, none has had its open command run and
  -- none is marked for removal: the wait after a round of the consumer is the least of the wait
  -- before it and the times that the files have been open, and 6000 if there are none.
  pub consume-cur_wait :
      (w : ℕ) (s : State)
      → s.last_tick ≤ now
      → All (IsRecent now s.max_delay_before_fire) s.file_event_list
      → (consume env w s).1 ≡ wait_after s.file_event_list (least now w s.file_event_list)
  unfolding consume
  consume-cur_wait w s h r =
      let s0 : State = record s { signaled = false } in
      let (_, files) = consume-early env now at_most w s h r in
      ap₂ wait_after files
        (visit_all-cur_wait s.file_event_list w s0 s.max_delay_before_fire h refl r)
