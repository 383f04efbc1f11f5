-- ===== src/Handling/Invariant/Consumed.antt =====
-- A round of the consumer keeps the invariant of the list.
use watch_it.Base.{ℕ, ◌≡◌, true, false, List, [], ◌∷◌, arith, ◌⊎◌, if-rule, sym, ◌∙◌}
use watch_it.Handling.Types.{State, Env, FileEvent, FileList}
use watch_it.Handling.Clock.{has_open_past_delay}
use watch_it.Handling.Commands.{execute_open_event, execute_close_event}
use watch_it.Handling.Files.{equals_file}
use watch_it.Handling.Consumer.{Visit, visit_open, visit_close, visit, visit_all, consume}
use watch_it.Handling.Consumer.Sweep.{survivors, sweep-survivors}
use watch_it.Handling.Invariant.Defs.{IsSound, IsAbsent, Inv}
use watch_it.Handling.Invariant.Keys.{SameKey, equals_file-left, IsAbsent-SameKey}

-- What the two execute functions do to the file: at most the flag of the command is set.
pub execute_open-file :
    (env : Env) (f : FileEvent) (s : State)
    → ((execute_open_event env f s).1 ≡ f)
      ⊎ ((execute_open_event env f s).1 ≡ record f { has_fired_open = true })
unfolding execute_open_event
execute_open-file env f s = ground arith

execute_close-key :
    (env : Env) (f : FileEvent) (s : State) → SameKey f (execute_close_event env f s).1
unfolding execute_close_event
execute_close-key env f s = ground arith

visit_open-IsSound :
    (env : Env) (cur : FileList) (w : ℕ) (s : State)
    → IsSound cur
    → IsSound (visit_open env cur w s).item
unfolding visit_open
visit_open-IsSound env cur w s h =
    ground (arith, execute_open-file env cur.file (has_open_past_delay env cur s).0)

pub visit_open-key :
    (env : Env) (cur : FileList) (w : ℕ) (s : State)
    → SameKey cur.file (visit_open env cur w s).item.file
unfolding visit_open
visit_open-key env cur w s =
    ground (arith, execute_open-file env cur.file (has_open_past_delay env cur s).0)

visit_close-IsSound :
    (env : Env) (v : Visit FileList)
    → IsSound v.item
    → (visit_close env v).item.remove ≡ false
    → IsSound (visit_close env v).item
unfolding visit_close
visit_close-IsSound env v h k = ground arith

visit_close-key :
    (env : Env) (v : Visit FileList) → SameKey v.item.file (visit_close env v).item.file
unfolding visit_close
visit_close-key env v = ground (arith, execute_close-key env v.item.file v.state)

pub visit-key :
    (env : Env) (cur : FileList) (w : ℕ) (s : State)
    → SameKey cur.file (visit env cur w s).item.file
unfolding visit
visit-key env cur w s =
    ground (arith, visit_open-key env cur w s, visit_close-key env (visit_open env cur w s))

-- An entry that a visit does not mark is as sound as it was.
pub visit-IsSound :
    (env : Env) (cur : FileList) (w : ℕ) (s : State)
    → IsSound cur
    → (visit env cur w s).item.remove ≡ false
    → IsSound (visit env cur w s).item
unfolding visit
visit-IsSound env cur w s h k =
    visit_close-IsSound env (visit_open env cur w s) (visit_open-IsSound env cur w s h) k

survivors-IsAbsent :
    (f : FileEvent) (y : FileList) (rest : List FileList)
    → equals_file y.file f ≡ false
    → IsAbsent f (survivors rest)
    → IsAbsent f (survivors (y ∷ rest))
survivors-IsAbsent f y rest here later =
    if-rule (IsAbsent f) y.remove _ _ (λ _. later) (λ _. (here, later))

survivors-Inv :
    (y : FileList) (rest : List FileList)
    → (y.remove ≡ false → IsSound y)
    → IsAbsent y.file (survivors rest)
    → Inv (survivors rest)
    → Inv (survivors (y ∷ rest))
survivors-Inv y rest sound absent later =
    if-rule Inv y.remove _ _ (λ _. later)
      (λ stays. record { sound = (sound stays, later.sound); unique = (absent, later.unique) })

module _ (env : Env) where
  pub visit_all-IsAbsent :
      (f : FileEvent) (files : List FileList) (w : ℕ) (s : State)
      → IsAbsent f files
      → IsAbsent f (survivors (visit_all env files w s).item)
  unfolding visit_all
  visit_all-IsAbsent f [] w s h = tt
  visit_all-IsAbsent f (x ∷ rest) w s h =
      let v = visit env x w s in
      survivors-IsAbsent f v.item (visit_all env rest v.cur_wait v.state).item
        (sym (equals_file-left x.file v.item.file f (visit-key env x w s)) ∙ h.0)
        (visit_all-IsAbsent f rest v.cur_wait v.state h.1)

  visit_all-Inv :
      (files : List FileList) (w : ℕ) (s : State)
      → Inv files
      → Inv (survivors (visit_all env files w s).item)
  unfolding visit_all
  visit_all-Inv [] w s inv = record { sound = tt; unique = tt }
  visit_all-Inv (x ∷ rest) w s inv =
      let v = visit env x w s in
      survivors-Inv v.item (visit_all env rest v.cur_wait v.state).item
        (visit-IsSound env x w s inv.sound.0)
        (IsAbsent-SameKey x.file v.item.file _ (visit-key env x w s)
          (visit_all-IsAbsent x.file rest v.cur_wait v.state inv.unique.0))
        (visit_all-Inv rest v.cur_wait v.state
          (record { sound = inv.sound.1; unique = inv.unique.1 }))

  pub consume-files :
      (w : ℕ) (s : State)
      → (consume env w s).0.file_event_list
        ≡ survivors (visit_all env s.file_event_list w (record s { signaled = false })).item
  unfolding consume
  consume-files w s = sweep-survivors _ _

  -- A round keeps the invariant.
  pub consume-Inv :
      (w : ℕ) (s : State) → Inv s.file_event_list → Inv (consume env w s).0.file_event_list
  consume-Inv w s v =
      rw (consume-files w s) (visit_all-Inv s.file_event_list w (record s { signaled = false }) v)
