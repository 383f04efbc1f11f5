-- ===== src/Handling/Accounts/Rounds.antt =====
-- The accounts of a round of the consumer.
use watch_it.Base.{
  ℕ, ◌+◌, ◌*◌, ◌≤◌, ◌≡◌, ap, false, List, [], ◌∷◌, length, arith, Bool-cases, inl, inr,
}
use watch_it.Handling.Types.{State, Env, FileList, free}
use watch_it.Handling.Consumer.{visit, visit_all, sweep, consume}
use watch_it.Handling.Consumer.Sweep.{sweep-IsQuiet}
use watch_it.Handling.Accounts.{outstanding_all, Spends, visit-Spends}

module _ (env : Env) where
  visit_all-Spends :
      (files : List FileList) (w : ℕ) (s : State)
      → Spends s
          (visit_all env files w s).state
          (outstanding_all files)
          (outstanding_all (visit_all env files w s).item)
        × (length (visit_all env files w s).item ≡ length files)
  unfolding visit_all
  visit_all-Spends [] w s = ground arith
  visit_all-Spends (x ∷ rest) w s =
      let v = visit env x w s in
      let here = visit-Spends env x w s in
      let later = visit_all-Spends rest v.cur_wait v.state in ground (arith, here, later)

-- Each entry that the second loop takes out gives back its three blocks.
sweep-live :
    (files : List FileList) (s : State)
    → 3 * length files ≤ s.live
    → ((sweep files s).0.live + 3 * length files ≡ s.live + 3 * length (sweep files s).1)
      × (3 * length (sweep files s).1 ≤ (sweep files s).0.live)
unfolding sweep
sweep-live [] s h = ground arith
sweep-live (x ∷ rest) s h = elim (Bool-cases x.remove) [
  | inl marked ↦ ground (arith, marked, sweep-live rest (free (free (free s))))
  | inr kept ↦ ground (arith, kept, sweep-live rest s)
]

sweep-outstanding :
    (files : List FileList) (s : State) → outstanding_all (sweep files s).1 ≤ outstanding_all files
unfolding sweep
sweep-outstanding [] s = ground arith
sweep-outstanding (x ∷ rest) s = elim (Bool-cases x.remove) [
  | inl marked ↦ ground (arith, marked, sweep-outstanding rest (free (free (free s))))
  | inr kept ↦ ground (arith, kept, sweep-outstanding rest s)
]

module _ (env : Env) (w : ℕ) (s : State) where
  -- With the blocks of the list allocated, a round gives back those of the entries it takes out.
  pub consume-live :
      3 * length s.file_event_list ≤ s.live
      → (consume env w s).0.live + 3 * length s.file_event_list
        ≡ s.live + 3 * length (consume env w s).0.file_event_list
  unfolding consume
  consume-live h =
      let s0 : State = record s { signaled = false } in
      let vs = visit_all env s.file_event_list w s0 in
      let (spends, same) = visit_all-Spends env s.file_event_list w s0 in
      ground (arith, spends, same, sweep-live vs.item vs.state)

  -- Each command that a round runs is no longer outstanding.
  pub consume-runs :
      length (consume env w s).0.executed + outstanding_all (consume env w s).0.file_event_list
      ≤ length s.executed + outstanding_all s.file_event_list
  unfolding consume
  consume-runs =
      let s0 : State = record s { signaled = false } in
      let vs = visit_all env s.file_event_list w s0 in
      let (spends, _) = visit_all-Spends env s.file_event_list w s0 in
      let swept = ap length (sweep-IsQuiet vs.item vs.state).executed in
      ground (arith, spends, swept, sweep-outstanding vs.item vs.state)
