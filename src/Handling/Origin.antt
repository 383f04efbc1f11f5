-- ===== src/Handling/Origin.antt =====
-- Where the files in the list and the commands that are run come from.
pub mod Kept
use watch_it.Base.{
  ℕ, ◌≡◌, refl, sym, subst, ◌∙◌, List, [], ◌∷◌, ◌++◌, some, All, All-append, ◌⊎◌, arith, inl, inr,
  if-rule, ltb, Option-cases, Bool-cases,
}
use watch_it.CString.{Str, strstr}
use watch_it.Replace.Spec.{scan-none}
use watch_it.Replace.Bounds.{str_replace-scan, str_replace-refused}
use watch_it.Handling.Types.{State, Env, FileEvent, FileList}
use watch_it.Handling.Clock.{has_open_past_delay, calc_open_delta}
use watch_it.Handling.Commands.{placeholder, run_command, execute_open_event, execute_close_event}
use watch_it.Handling.Commands.Effect.{
  expand, SameSettings, execute_open-settings, execute_close-settings,
}
use watch_it.Handling.Add.Quiet.{IsQuiet, delay-IsQuiet, delta-IsQuiet, IsQuiet-trans}
use watch_it.Handling.Consumer.{Visit, visit_open, visit_close, visit, visit_all}
use watch_it.Handling.Invariant.Keys.{SameKey}
use watch_it.Handling.Invariant.Consumed.{visit_open-key, visit-key}

module _ (env : Env) where
  -- Whichever allocations fail, a command for a file with a name is run once or not at all.
  run_command-ran :
      (cmd name : Str) (f : FileEvent) (s : State)
      → f.name ≡ some name
      → ((run_command env cmd f s).executed ≡ s.executed)
        ⊎ ((run_command env cmd f s).executed ≡ s.executed ++ expand cmd name ∷ [])
  unfolding run_command
  run_command-ran cmd name f s n = elim (Option-cases (strstr cmd placeholder)) [
    | inl plain ↦ inr (ground (arith, plain, scan-none b'@' (b'0' ∷ []) name cmd plain))
    | inr (k, e) ↦ elim (Bool-cases (env.grants s.mallocs)) [
      | inl granted ↦ elim (str_replace-scan b'@' (b'0' ∷ []) cmd (some name) k e) [
        | inl over ↦ inl (ground (arith, e, n, granted, over))
        | inr done ↦ inr (ground (arith, e, n, granted, done))
      ]
      | inr refused ↦ inl (elim (str_replace-refused b'@' (b'0' ∷ []) cmd f.name k e) [
        | inl over ↦ ground (arith, e, refused, over)
        | inr done ↦ ground (arith, e, refused, done)
      ])
    ]
  ]

  execute_open-ran :
      (cmd name : Str) (f : FileEvent) (s : State)
      → s.open_cmd ≡ some cmd
      → f.name ≡ some name
      → ((execute_open_event env f s).0.executed ≡ s.executed)
        ⊎ ((execute_open_event env f s).0.executed ≡ s.executed ++ expand cmd name ∷ [])
  unfolding execute_open_event
  execute_open-ran cmd name f s o n = ground (arith, o, run_command-ran cmd name f s n)

  execute_close-ran :
      (cmd name : Str) (f : FileEvent) (s : State)
      → s.close_cmd ≡ some cmd
      → f.name ≡ some name
      → ((execute_close_event env f s).0.executed ≡ s.executed)
        ⊎ ((execute_close_event env f s).0.executed ≡ s.executed ++ expand cmd name ∷ [])
  unfolding execute_close_event
  execute_close-ran cmd name f s o n = ground (arith, o, run_command-ran cmd name f s n)

-- The files that were reported, by descriptor and name.
module _ (Reported : ℕ → Str → Type 0) where
  -- The entry stands for a file that was reported.
  abbrev pub IsReported : FileEvent → Type 0
  IsReported f = (name : Str) × (f.name ≡ some name) × Reported f.id name

  abbrev pub AllReported : List FileList → Type 0
  AllReported files = All (λ fl. IsReported fl.file) files

-- With the two commands.
module _ (Reported : ℕ → Str → Type 0) (opens closes : Str) where
  -- The text is one of the two commands, for a file that was reported.
  abbrev pub IsCommand : Str → Type 0
  IsCommand text =
      (id : ℕ) × (name : Str) × Reported id name
      × ((text ≡ expand opens name) ⊎ (text ≡ expand closes name))

  -- The commands are in place, and nothing else has been run.
  pub record Obeys (s : State) : Type 0 where
    pub opening : s.open_cmd ≡ some opens
    pub closing : s.close_cmd ≡ some closes
    pub commands : All IsCommand s.executed

  pub Obeys-quiet : {s t : State} → IsQuiet s t → Obeys s → Obeys t
  Obeys-quiet q h = record {
    opening = q.open_cmd ∙ h.opening;
    closing = q.close_cmd ∙ h.closing;
    commands = subst (All IsCommand) (sym q.executed) h.commands;
  }

  ran-IsCommand :
      (s t : State) (text : Str)
      → IsCommand text
      → (t.executed ≡ s.executed) ⊎ (t.executed ≡ s.executed ++ text ∷ [])
      → All IsCommand s.executed
      → All IsCommand t.executed
  ran-IsCommand s t text c (inl same) h = subst (All IsCommand) (sym same) h
  ran-IsCommand s t text c (inr more) h =
      subst (All IsCommand) (sym more) (All-append IsCommand s.executed (text ∷ []) h (c, tt))

  Obeys-ran :
      {s t : State} {text : Str}
      → SameSettings s t
      → IsCommand text
      → (t.executed ≡ s.executed) ⊎ (t.executed ≡ s.executed ++ text ∷ [])
      → Obeys s
      → Obeys t
  Obeys-ran {s} {t} {text} same c ran h = record {
    opening = same.open_cmd ∙ h.opening;
    closing = same.close_cmd ∙ h.closing;
    commands = ran-IsCommand s t text c ran h.commands;
  }

  module _ (env : Env) where
    open-Obeys :
        (f : FileEvent) (s : State)
        → IsReported Reported f
        → Obeys s
        → Obeys (execute_open_event env f s).0
    open-Obeys f s (name, n, r) h =
        Obeys-ran (execute_open-settings env f s) (f.id, name, r, inl refl)
          (execute_open-ran env opens name f s h.opening n) h

    close-Obeys :
        (f : FileEvent) (s : State)
        → IsReported Reported f
        → Obeys s
        → Obeys (execute_close_event env f s).0
    close-Obeys f s (name, n, r) h =
        Obeys-ran (execute_close-settings env f s) (f.id, name, r, inr refl)
          (execute_close-ran env closes name f s h.closing n) h

    visit_open-Obeys :
        (cur : FileList) (w : ℕ) (s : State)
        → IsReported Reported cur.file
        → Obeys s
        → Obeys (visit_open env cur w s).state
    unfolding visit_open
    visit_open-Obeys cur w s r h =
        let s1 : State = (has_open_past_delay env cur s).0 in
        let s2 : State = (calc_open_delta env (some cur.file) s1).0 in
        let h1 : Obeys s1 = Obeys-quiet (delay-IsQuiet env cur s) h in
        let h2 : Obeys s2 = Obeys-quiet (delta-IsQuiet env (some cur.file) s1) h1 in
        if-rule (λ (v : Visit FileList). Obeys v.state) cur.file.has_fired_open _ _ (λ _. h)
          (λ _.
            if-rule (λ (v : Visit FileList). Obeys v.state) (has_open_past_delay env cur s).1 _ _
              (λ _. open-Obeys cur.file s1 r h1)
              (λ _.
                if-rule (λ (v : Visit FileList). Obeys v.state)
                  (ltb (calc_open_delta env (some cur.file) s1).1 w) _ _
                  (λ _. Obeys-quiet (delta-IsQuiet env (some cur.file) s2) h2) (λ _. h2)))

    visit_close-Obeys :
        (v : Visit FileList)
        → IsReported Reported v.item.file
        → Obeys v.state
        → Obeys (visit_close env v).state
    unfolding visit_close
    visit_close-Obeys v r h =
        if-rule (λ (u : Visit FileList). Obeys u.state) _ _ _
          (λ _. close-Obeys v.item.file v.state r h) (λ _. h)

    IsReported-key : (f g : FileEvent) → SameKey f g → IsReported Reported f → IsReported Reported g
    IsReported-key f g (i, n) (name, m, r) = (name, sym n ∙ m, subst (λ id. Reported id name) i r)

    visit-Obeys :
        (cur : FileList) (w : ℕ) (s : State)
        → IsReported Reported cur.file
        → Obeys s
        → Obeys (visit env cur w s).state
    unfolding visit
    visit-Obeys cur w s r h =
        let v = visit_open env cur w s in
        visit_close-Obeys v (IsReported-key cur.file v.item.file (visit_open-key env cur w s) r)
          (visit_open-Obeys cur w s r h)

    pub visit_all-Obeys :
        (files : List FileList) (w : ℕ) (s : State)
        → AllReported Reported files
        → Obeys s
        → AllReported Reported (visit_all env files w s).item
          × Obeys (visit_all env files w s).state
    unfolding visit_all
    visit_all-Obeys [] w s r h = (tt, h)
    visit_all-Obeys (x ∷ rest) w s r h =
        let v = visit env x w s in
        let later = visit_all-Obeys rest v.cur_wait v.state r.1 (visit-Obeys x w s r.0 h) in
        ((IsReported-key x.file v.item.file (visit-key env x w s) r.0, later.0), later.1)
