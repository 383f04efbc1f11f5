-- ===== src/Handling/Consumer/Left.antt =====
-- What a late round leaves in the list.
use watch_it.Base.{
  ℕ, ◌≡◌, refl, ap, ◌∙◌, false, List, [], ◌∷◌, All, if◌then◌else◌, arith, Bool-cases, inl, inr,
}
use watch_it.Handling.Types.{State, Env, FileList}
use watch_it.Handling.Files.{is_valid_close}
use watch_it.Handling.Commands.Effect.{Grants}
use watch_it.Handling.Consumer.{Visit, visit_open, visit, visit_all, consume}
use watch_it.Handling.Consumer.Visits.{visit_close-invalid}
use watch_it.Handling.Consumer.Sweep.{survivors, sweep-survivors, sweep-IsQuiet}
use watch_it.Handling.Consumer.Owed.{ShowsAtLeast, Settings, Has, IsDue, opened_entry}
use watch_it.Handling.Consumer.Late.{late_open, late_visit}
use watch_it.Handling.Invariant.Defs.{IsSound}

-- The entries that have not been closed, with their open commands run.
abbrev pub left : List FileList → List FileList
left [] = []
left (fl ∷ rest) = if is_valid_close fl then left rest else opened_entry fl ∷ left rest

module _ (env : Env) (grants : Grants env) (now : ℕ) (clock : ShowsAtLeast env now)
    (g : Settings) where
  left_visit :
      (cur : FileList) (w : ℕ) (s : State)
      → Has g s
      → IsDue now g cur
      → IsSound cur
      → is_valid_close cur ≡ false
      → (visit env cur w s).item ≡ opened_entry cur
  unfolding visit is_valid_close
  left_visit cur w s h o v invalid =
      let (opened, _) = late_open env grants now clock g cur w s h o v in
      let v1 : Visit FileList = visit_open env cur w s in
      let still = ap is_valid_close opened ∙ invalid in
      ap (λ (x : Visit FileList). x.item) (visit_close-invalid env v1 still) ∙ opened

  left_files :
      (files : List FileList) (w : ℕ) (s : State)
      → Has g s
      → All (IsDue now g) files
      → All IsSound files
      → (survivors (visit_all env files w s).item ≡ left files)
        × Has g (visit_all env files w s).state
  unfolding visit_all
  left_files [] w s h o v = (refl, h)
  left_files (x ∷ rest) w s h o v =
      let x1 : Visit FileList = visit env x w s in
      let (marked, _, _, ran) = late_visit env grants now clock g x w s h o.0 v.0 in
      let (later, has) = left_files rest x1.cur_wait x1.state ran.has o.1 v.1 in
      let items = survivors (visit_all env rest x1.cur_wait x1.state).item in
      (
        elim (Bool-cases (is_valid_close x)) [
          | inl valid ↦ ground (arith, marked, valid, later)
          | inr invalid ↦
              let same = left_visit x w s h o.0 v.0 invalid in
              ground (arith, marked, invalid, later, same)
        ],
        has,
      )

  -- On a sound list, a round that comes late for every file in it, with two commands that are not
  -- empty, neither they nor they with the name of a file in the list reaching 2 ^ 31 bytes, and no
  -- failed allocation or clock reading, leaves exactly the entries that have not been closed, in
  -- their order, each with its open command run and otherwise as it was, and leaves the
  -- settings alone.
  pub consume-left :
      (w : ℕ) (s : State)
      → Has g s
      → All (IsDue now g) s.file_event_list
      → All IsSound s.file_event_list
      → ((consume env w s).0.file_event_list ≡ left s.file_event_list) × Has g (consume env w s).0
  unfolding consume
  consume-left w s h o v =
      let s0 : State = record s { signaled = false } in
      let vs = visit_all env s.file_event_list w s0 in
      let (files, has) = left_files s.file_event_list w s0 (ground (arith, h)) o v in
      let quiet = sweep-IsQuiet vs.item vs.state in
      (
        sweep-survivors vs.item vs.state ∙ files,
        record {
          opens = quiet.open_cmd ∙ has.opens;
          closes = quiet.close_cmd ∙ has.closes;
          delays = quiet.delay ∙ has.delays;
        },
      )
