-- ===== src/Handling/Accounts.antt =====
-- What the operations of the two threads take from the heap, and how many commands they run.
pub mod Rounds
pub mod Added
pub mod Reachable
use watch_it.Base.{
  ℕ, suc, ◌+◌, ◌≤◌, ◌≡◌, refl, ◌∙◌, Bool, true, false, List, [], ◌∷◌, ◌++◌, Option, none, some,
  length, length-append, if◌then◌else◌, arith, Option-cases, Bool-cases, inl, inr,
}
use watch_it.CString.{Str, strstr}
use watch_it.Replace.{or_empty}
use watch_it.Replace.Spec.{replace_all}
use watch_it.Replace.Bounds.{str_replace-scan, str_replace-refused}
use watch_it.Handling.Types.{State, Env, FileEvent, FileList}
use watch_it.Handling.Clock.{get_tick, has_open_past_delay, calc_open_delta}
use watch_it.Handling.Commands.{placeholder, run_command, execute_open_event, execute_close_event}
use watch_it.Handling.Consumer.{Visit, visit_open, visit_close, visit}

-- The commands that are yet to be run for a file.
abbrev pub outstanding : FileEvent → ℕ
outstanding f = (if f.has_fired_open then 0 else 1) + (if f.has_fired_closed then 0 else 1)

abbrev pub outstanding_all : List FileList → ℕ
outstanding_all [] = 0
outstanding_all (fl ∷ rest) = outstanding fl.file + outstanding_all rest

-- The heap and the list stay as they are, and at most the commands are run by which the number of
-- those outstanding falls from `before` to `after`.
pub record Spends (s t : State) (before after : ℕ) : Type 0 where
  pub live : t.live ≡ s.live
  pub files : t.file_event_list ≡ s.file_event_list
  pub runs : length t.executed + after ≤ length s.executed + before

pub Spends-trans : {s t u : State} {a b c : ℕ} → Spends s t a b → Spends t u b c → Spends s u a c
Spends-trans p q = ground (arith, p, q)

-- Besides commands that stay outstanding.
pub Spends-more : {s t : State} {a b : ℕ} (n : ℕ) → Spends s t a b → Spends s t (a + n) (b + n)
Spends-more n p = ground (arith, p)

module _ (env : Env) where
  pub tick-Spends : (s : State) (n : ℕ) → Spends s (get_tick env s).0 n n
  unfolding get_tick
  tick-Spends s n = ground arith

  pub delay-Spends :
      (fl : FileList) (s : State) (n : ℕ) → Spends s (has_open_past_delay env fl s).0 n n
  unfolding has_open_past_delay
  delay-Spends fl s n = ground arith

  delta-Spends :
      (f : Option FileEvent) (s : State) (n : ℕ) → Spends s (calc_open_delta env f s).0 n n
  unfolding calc_open_delta
  delta-Spends f s n = tick-Spends s n

  run-Spends :
      (cmd : Str) (f : FileEvent) (s : State) (n : ℕ) → Spends s (run_command env cmd f s) (suc n) n
  unfolding run_command
  run-Spends cmd f s n = elim (Option-cases (strstr cmd placeholder)) [
    | inl plain ↦ ground (arith, plain, length-append s.executed (cmd ∷ []))
    | inr (k, e) ↦ elim (Bool-cases (env.grants s.mallocs)) [
      | inl granted ↦
          let text = replace_all placeholder (or_empty f.name) cmd in
          elim (str_replace-scan b'@' (b'0' ∷ []) cmd f.name k e) [
            | inl over ↦ ground (arith, e, granted, over)
            | inr done ↦ ground (arith, e, granted, done, length-append s.executed (text ∷ []))
          ]
      | inr refused ↦ elim (str_replace-refused b'@' (b'0' ∷ []) cmd f.name k e) [
        | inl over ↦ ground (arith, e, refused, over)
        | inr done ↦ ground (arith, e, refused, done)
      ]
    ]
  ]

  open-Spends :
      (f : FileEvent) (s : State)
      → Spends s
          (execute_open_event env f s).0
          (outstanding f)
          (outstanding (execute_open_event env f s).1)
  unfolding execute_open_event
  open-Spends f s = elim (Option-cases s.open_cmd) [
    | inl unset ↦ ground (arith, unset)
    | inr (cmd, e) ↦ ground (arith, e, run-Spends cmd f s (if f.has_fired_closed then 0 else 1))
  ]

  close-Spends :
      (f : FileEvent) (s : State)
      → Spends s
          (execute_close_event env f s).0
          (outstanding f)
          (outstanding (execute_close_event env f s).1)
  unfolding execute_close_event
  close-Spends f s = elim (Option-cases s.close_cmd) [
    | inl unset ↦ ground (arith, unset)
    | inr (cmd, e) ↦ ground (arith, e, run-Spends cmd f s (if f.has_fired_open then 0 else 1))
  ]

  visit_open-Spends :
      (cur : FileList) (w : ℕ) (s : State)
      → Spends s
          (visit_open env cur w s).state
          (outstanding cur.file)
          (outstanding (visit_open env cur w s).item.file)
  unfolding visit_open
  visit_open-Spends cur w s =
      let n = outstanding cur.file in
      let s1 : State = (has_open_past_delay env cur s).0 in
      let s2 : State = (calc_open_delta env (some cur.file) s1).0 in
      ground (
        arith,
        delay-Spends cur s n,
        open-Spends cur.file s1,
        delta-Spends (some cur.file) s1 n,
        delta-Spends (some cur.file) s2 n,
      )

  visit_close-Spends :
      (v : Visit FileList)
      → Spends v.state
          (visit_close env v).state
          (outstanding v.item.file)
          (outstanding (visit_close env v).item.file)
  unfolding visit_close
  visit_close-Spends v = ground (arith, close-Spends v.item.file v.state)

  -- A visit of an entry.
  pub visit-Spends :
      (cur : FileList) (w : ℕ) (s : State)
      → Spends s
          (visit env cur w s).state
          (outstanding cur.file)
          (outstanding (visit env cur w s).item.file)
  unfolding visit
  visit-Spends cur w s =
      Spends-trans (visit_open-Spends cur w s) (visit_close-Spends (visit_open env cur w s))
