-- ===== src/Handling/Consumer.antt =====
-- One round of the loop of `consumer`, from the wake-up to the unlock.
pub mod Visits
pub mod Sweep
pub mod Owed
pub mod Late
pub mod Left
pub mod Early
pub mod Shortened
pub mod Examples
use watch_it.Base.{
  ℕ, zero, suc, Bool, true, false, not, ◌&&◌, List, [], ◌∷◌, ltb, if◌then◌else◌, some, Option,
}
use watch_it.Handling.Types.{State, Env, FileEvent, FileList, free}
use watch_it.Handling.Clock.{calc_open_delta, has_open_past_delay}
use watch_it.Handling.Files.{is_valid_close}
use watch_it.Handling.Commands.{execute_open_event, execute_close_event}

-- `cur_wait` before the first event, and whenever the list is empty.
abbrev pub idle_wait : ℕ
idle_wait = 6000

-- What one visit of the first loop changes: the entry, `cur_wait` and the rest of the state.
pub record Visit (A : Type 0) : Type 0 where
  pub item : A
  pub cur_wait : ℕ
  pub state : State

module _ (env : Env) where
  -- The wait is cut down to the time that the file has been open; the clock is read twice.
  shorten_wait : FileList → ℕ → State → Visit FileList
  shorten_wait cur cur_wait s =
      let (s1, delta) = calc_open_delta env (some cur.file) s in
      let (s2, again) = calc_open_delta env (some cur.file) s1 in
      if ltb delta cur_wait
      then record { item = cur; cur_wait = again; state = s2 }
      else record { item = cur; cur_wait = cur_wait; state = s1 }

  -- `if (!cur->file->has_fired_open) …`
  unfoldable pub visit_open : FileList → ℕ → State → Visit FileList
  unfolding shorten_wait
  visit_open cur cur_wait s =
      let (s1, past) = has_open_past_delay env cur s in
      let (s2, file) = execute_open_event env cur.file s1 in
      if cur.file.has_fired_open
      then record { item = cur; cur_wait = cur_wait; state = s }
      else if past
      then record { item = record cur { file = file }; cur_wait = cur_wait; state = s2 }
      else shorten_wait cur cur_wait s1

  -- `if (!cur->file->has_fired_closed) …`
  unfoldable pub visit_close : Visit FileList → Visit FileList
  visit_close v =
      let cur = v.item in
      let (s1, file) = execute_close_event env cur.file v.state in
      if not cur.file.has_fired_closed && (is_valid_close cur && cur.file.has_fired_open)
      then record v { item = record { file = file; remove = true }; state = s1 }
      else v

  unfoldable pub visit : FileList → ℕ → State → Visit FileList
  unfolding visit_open visit_close is_valid_close execute_open_event execute_close_event
  visit cur cur_wait s = visit_close (visit_open cur cur_wait s)

  -- The first loop over the list. The visits leave `file_event_list` of the state alone.
  unfoldable pub visit_all : List FileList → ℕ → State → Visit (List FileList)
  visit_all [] cur_wait s = record { item = []; cur_wait = cur_wait; state = s }
  visit_all (cur ∷ rest) cur_wait s =
      let v = visit cur cur_wait s in
      let vs = visit_all rest v.cur_wait v.state in record vs { item = v.item ∷ vs.item }

-- The second loop: every marked entry is unlinked, and its name, file and node are freed.
unfoldable pub sweep : List FileList → State → State × List FileList
sweep [] s = (s, [])
sweep (cur ∷ rest) s =
    let (s1, kept) = sweep rest (if cur.remove then free (free (free s)) else s) in
    (s1, if cur.remove then kept else cur ∷ kept)

abbrev pub wait_after : List FileList → ℕ → ℕ
wait_after [] cur_wait = idle_wait
wait_after (_ ∷ _) cur_wait = cur_wait

module _ (env : Env) where
  -- The state and the `cur_wait` for the next round.
  unfoldable pub consume : ℕ → State → State × ℕ
  consume cur_wait s =
      let vs = visit_all env s.file_event_list cur_wait (record s { signaled = false }) in
      let (s1, kept) = sweep vs.item vs.state in
      (record s1 { file_event_list = kept; signaled = false }, wait_after kept vs.cur_wait)
