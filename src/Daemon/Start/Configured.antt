-- ===== src/Daemon/Start/Configured.antt =====
-- What the daemon does is what the configuration says, from `begin_watch` on.
use watch_it.Base.{
  ℕ, suc, ◌≡◌, refl, sym, subst, ◌∙◌, Bool, true, false, List, [], ◌∷◌, some, All, length, take,
  get_elem?, ◌==◌, ◌⊎◌, arith, inl, inr, Bool-cases, Option-cases,
}
use watch_it.Base.Words.{has_bits}
use watch_it.CString.{Str}
use watch_it.Config.Types.{Conf, Loader}
use watch_it.Config.Load.{loaded}
use watch_it.Handling.Types.{State, Env}
use watch_it.Handling.Init.{event_handling_init}
use watch_it.Handling.Consumer.{idle_wait}
use watch_it.Handling.Origin.{IsCommand, AllReported}
use watch_it.Handling.Origin.Kept.{Traced}
use watch_it.Daemon.Table.{Table, WdNameTuple, add_to_map, find_in_map, init_name_map}
use watch_it.Daemon.Table.Laws.{IsValid, init_name_map-IsValid, find_in_map-add_to_map, new_tuple}
use watch_it.Daemon.Reader.{watch_dir, watch_content}
use watch_it.Daemon.Reader.Reports.{Reports, Allows}
use watch_it.Daemon.Start.{
  Kernel, watch_loop, Begun, refused, watching, broken, begin_watch, serves, after_begin, main,
}
use watch_it.Daemon.Start.Watched.{loop-empty, loop-named, loop-nil, begin_table}
use watch_it.Daemon.Threads.{Process, idle, Turns}
use watch_it.Daemon.Threads.Origin.{Turns-Follows}

module _ (kernel : Kernel) (config : Conf) where
  -- The tuple is that of a directory in the list, under its descriptor.
  abbrev pub IsOf : List Str → ℕ → WdNameTuple → Type 0
  IsOf dirs k x =
      (i : ℕ) × (dir : Str) × (get_elem? dirs i ≡ some dir)
      × (kernel.inotify_add_watch dir config.fire_on ≡ k)
      × (x ≡ new_tuple dir k config.type config.min_read_close)

  IsOf-later :
      (dir : Str) (rest : List Str) (k : ℕ) (x : WdNameTuple)
      → IsOf rest k x
      → IsOf (dir ∷ rest) k x
  IsOf-later dir rest k x (i, d, at, own, same) = (suc i, d, at, own, same)

  add_to_map-IsOf :
      (dir : Str) (rest : List Str) (t : Table) (k : ℕ) (x : WdNameTuple)
      → let wd = kernel.inotify_add_watch dir config.fire_on in
        let r = add_to_map dir wd config.type config.min_read_close t in
        IsValid t
        → r.1 ≡ true
        → find_in_map k r.0 ≡ some x
        → (find_in_map k t ≡ some x) ⊎ IsOf (dir ∷ rest) k x
  add_to_map-IsOf dir rest t k x v done h =
      let wd = kernel.inotify_add_watch dir config.fire_on in
      elim (find_in_map-add_to_map dir wd config.type config.min_read_close t k v).1 [
        | inl (failed, _, _) ↦ absurd (cc (failed, done))
        | inr (_, _, found) ↦ elim (Option-cases (find_in_map k t)) [
          | inr (y, e) ↦ inl (ground (arith, found, h, e))
          | inl unknown ↦ elim (Bool-cases (wd == k)) [
            | inl own ↦
                inr (0, dir, refl, ground (arith, own), ground (arith, found, h, unknown, own))
            | inr other ↦ absurd (ground (arith, found, h, unknown, other))
          ]
        ]
      ]

  pub watch_loop-IsOf :
      (dirs : List Str) (t t' : Table) (k : ℕ) (x : WdNameTuple)
      → IsValid t
      → watch_loop kernel config dirs t ≡ some t'
      → find_in_map k t' ≡ some x
      → (find_in_map k t ≡ some x) ⊎ IsOf dirs k x
  watch_loop-IsOf [] t t' k x v h e =
      inl (subst (λ u. find_in_map k u ≡ some x) (sym (loop-nil kernel config t t' h)) e)
  watch_loop-IsOf (dir ∷ rest) t t' k x v h e = elim (Bool-cases (length dir == 0)) [
    | inl empty ↦
        elim (watch_loop-IsOf rest t t' k x v (sym (loop-empty kernel config dir rest t empty) ∙ h)
          e) [ inl old ↦ inl old | inr new ↦ inr (IsOf-later dir rest k x new) ]
    | inr named ↦
        let wd = kernel.inotify_add_watch dir config.fire_on in
        let (done, later) = loop-named kernel config dir rest t t' named h in
        let t1 : Table = (add_to_map dir wd config.type config.min_read_close t).0 in
        let v1 : IsValid t1 =
          (find_in_map-add_to_map dir wd config.type config.min_read_close t 0 v).0 in
        elim (watch_loop-IsOf rest t1 t' k x v1 later e) [
          | inl old ↦ add_to_map-IsOf dir rest t k x v done old
          | inr new ↦ inr (IsOf-later dir rest k x new)
        ]
  ]

-- The state that `event_handling_init` leaves: no file, the two commands, and nothing run.
pub record IsFresh (config : Conf) (s t : State) : Type 0 where
  pub opens : Str
  pub closes : Str
  pub given_open : config.open_cmd ≡ some opens
  pub given_close : config.close_cmd ≡ some closes
  pub opening : t.open_cmd ≡ some opens
  pub closing : t.close_cmd ≡ some closes
  pub empty : t.file_event_list ≡ []
  pub executed : t.executed ≡ s.executed
  pub delays : t.max_delay_before_fire ≡ config.min_read_close
  pub ticks : t.last_tick ≡ 0

pub init-IsFresh :
    (env : Env) (created done : Bool) (config : Conf) (s t : State)
    → event_handling_init env created config s ≡ some (t, done)
    → IsFresh config s t
unfolding event_handling_init
init-IsFresh env created done config s t h = elim (Option-cases config.open_cmd) [
  | inl unset ↦ absurd (ground (arith, unset))
  | inr (opens, o) ↦ elim (Option-cases config.close_cmd) [
    | inl unset ↦ absurd (ground (arith, o, unset))
    | inr (closes, c) ↦ record {
      opens = opens;
      closes = closes;
      given_open = o;
      given_close = c;
      opening = ground (arith, o, c);
      closing = ground (arith, o, c);
      empty = ground (arith, o, c);
      executed = ground (arith, o, c);
      delays = ground (arith, o, c);
      ticks = ground (arith, o, c);
    }
  ]
]

pub begin_init :
    (env : Env) (kernel : Kernel) (config : Conf) (t t' : Table) (s s' : State)
    → begin_watch env kernel config t s ≡ watching t' s'
    → event_handling_init env kernel.thread_created config s ≡ some (s', true)
unfolding begin_watch
begin_init env kernel config t t' s s' h = ground arith

-- The process at the head of its loop, with the consumer just started.
abbrev pub served : State → Process
served s = record {
  system = record { state = s; waiting = false; cur_wait = idle_wait };
  stage = idle;
}

module _ (kernel : Kernel) (config : Conf) where
  -- The directories that the daemon watches.
  abbrev pub dirs_of : List Str
  dirs_of = take config.watch_dir_count config.watch_dir

  -- A file that the configuration lets the daemon list: its descriptor is that of a directory in
  -- `watch_dir`, and it is the directory itself, if directories are watched, or content is watched.
  abbrev pub Watches : ℕ → Str → Type 0
  Watches id name =
      (i : ℕ) × (dir : Str) × (get_elem? dirs_of i ≡ some dir)
      × (kernel.inotify_add_watch dir config.fire_on ≡ id)
      × ((has_bits config.type watch_dir ≡ true) × (name ≡ dir)
          ⊎ (has_bits config.type watch_content ≡ true))

  Allows-Watches :
      (id : ℕ) (name : Str) (x : WdNameTuple)
      → IsOf kernel config dirs_of id x
      → Allows x name
      → Watches id name
  Allows-Watches id name x (i, dir, at, own, same) (inl (self, named)) =
      (i, dir, at, own, inl (ground (arith, same, self), ground (arith, same, named)))
  Allows-Watches id name x (i, dir, at, own, same) (inr content) =
      (i, dir, at, own, inr (ground (arith, same, content)))

  Reports-Watches :
      (t t' : Table) (id : ℕ) (name : Str)
      → IsValid t
      → t.name_map_len ≡ 0
      → watch_loop kernel config dirs_of t ≡ some t'
      → Reports t' id name
      → Watches id name
  unfolding find_in_map
  Reports-Watches t t' id name v unused h (x, known, allowed) =
      elim (watch_loop-IsOf kernel config dirs_of t t' id x v h known) [
        | inl old ↦ absurd (ground (arith, old, unused))
        | inr new ↦ Allows-Watches id name x new allowed
      ]

module _ (env : Env) (kernel : Kernel) (config : Conf) where
  abbrev Ours : ℕ → Str → Type 0
  Ours = Watches kernel config

  -- The turns from the endless loop on.
  watching-Configured :
      (t t' : Table) (s s' : State) (e : Process)
      → IsValid t
      → t.name_map_len ≡ 0
      → s.executed ≡ []
      → begin_watch env kernel config t s ≡ watching t' s'
      → Turns env t' (served s') e
      → (opens : Str) × (closes : Str) × (config.open_cmd ≡ some opens)
        × (config.close_cmd ≡ some closes)
        × AllReported Ours e.system.state.file_event_list
        × All (IsCommand Ours opens closes) e.system.state.executed
  watching-Configured t t' s s' e v unused nothing h turns =
      let new =
        init-IsFresh env kernel.thread_created true config s s'
          (begin_init env kernel config t t' s s' h) in
      let watched = begin_table env kernel config t t' s s' h in
      let first : Traced Ours new.opens new.closes s' = record {
        files = subst (AllReported Ours) (sym new.empty) tt;
        obeys = record {
          opening = new.opening;
          closing = new.closing;
          commands =
              subst (All (IsCommand Ours new.opens new.closes)) (sym (new.executed ∙ nothing)) tt;
        };
      } in
      let last =
        Turns-Follows env t' Ours
          (λ id name. Reports-Watches kernel config t t' id name v unused watched) new.opens
          new.closes turns (record { traced = first; pending = tt }) in
      (
        new.opens, new.closes, new.given_open, new.given_close, last.traced.files,
        last.traced.obeys.commands,
      )

begun-watching : (b : Begun) (t : Table) (s : State) → after_begin b ≡ serves t s → b ≡ watching t s
unfolding after_begin
begun-watching refused t s h = absurd (cc)
begun-watching (watching u v) t s h = ground arith
begun-watching broken t s h = absurd (cc)

main-serves :
    (env : Env) (kernel : Kernel) (l : Loader) (t t' : Table) (s s' : State)
    → main env kernel t s (loaded l) ≡ serves t' s'
    → after_begin (begin_watch env kernel l.config (init_name_map t) s) ≡ serves t' s'
unfolding main
main-serves env kernel l t t' s s' h = ground arith

pub main-watching :
    (env : Env) (kernel : Kernel) (l : Loader) (t t' : Table) (s s' : State)
    → main env kernel t s (loaded l) ≡ serves t' s'
    → begin_watch env kernel l.config (init_name_map t) s ≡ watching t' s'
main-watching env kernel l t t' s s' h =
    begun-watching _ t' s' (main-serves env kernel l t t' s s' h)

-- If `main` comes to serve events with what `config_load` returned, from an empty table and with
-- nothing run, the configuration has both commands; and however the turns of the two threads follow
-- each other, whatever is read, whatever the clock shows and whichever allocations fail, every file
-- in the list is one that the configuration lets the daemon list, and everything that has been run
-- is one of the two commands for such a file.
pub main-Configured :
    (env : Env) (kernel : Kernel) (l : Loader) (t t' : Table) (s s' : State) (e : Process)
    → IsValid t
    → t.name_map_len ≡ 0
    → s.executed ≡ []
    → main env kernel t s (loaded l) ≡ serves t' s'
    → Turns env t' (served s') e
    → let Ours = Watches kernel l.config in
      (opens : Str) × (closes : Str) × (l.config.open_cmd ≡ some opens)
      × (l.config.close_cmd ≡ some closes)
      × AllReported Ours e.system.state.file_event_list
      × All (IsCommand Ours opens closes) e.system.state.executed
unfolding init_name_map
main-Configured env kernel l t t' s s' e v unused nothing h turns =
    watching-Configured env kernel l.config (init_name_map t) t' s s' e (init_name_map-IsValid t v)
      unused nothing (main-watching env kernel l t t' s s' h) turns
