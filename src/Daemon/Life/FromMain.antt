-- ===== src/Daemon/Life/FromMain.antt =====
-- From `main` to the two commands for a file, by way of the bytes that the kernel sends.
use watch_it.Base.{
  ℕ, ◌+◌, ◌<◌, ◌≡◌, ◌≢◌, sym, ap, ◌∙◌, true, false, [], ◌∷◌, ◌++◌, some, All-get_elem?, get_elem?,
  arith, inl, inr,
}
use watch_it.Base.Words.{has_bits, ulong_of_int, uint32_max}
use watch_it.CString.{Str}
use watch_it.Config.Types.{Conf, Loader}
use watch_it.Config.Load.{loaded}
use watch_it.Handling.Types.{State, Env}
use watch_it.Handling.Clock.{get_tick}
use watch_it.Handling.Files.{is_close_event, is_open_event}
use watch_it.Handling.Commands.Effect.{Grants}
use watch_it.Handling.Consumer.{consume}
use watch_it.Handling.Consumer.Owed.{ShowsAtLeast, Settings, Has, AreShort}
use watch_it.Handling.Life.{open_text, close_text}
use watch_it.Daemon.Table.{Table, find_in_map, init_name_map}
use watch_it.Daemon.Table.Laws.{IsValid, init_name_map-IsValid, new_tuple}
use watch_it.Daemon.Reader.{watch_content, get_event}
use watch_it.Daemon.Reader.Wire.{KernelEvent, encode_all}
use watch_it.Daemon.Reader.Heard.{heard, IsFileEvent}
use watch_it.Daemon.Start.{Kernel, begin_watch, watching, main, serves}
use watch_it.Daemon.Start.Watched.{begin_watch-watching, begin_table}
use watch_it.Daemon.Start.Configured.{
  dirs_of, watch_loop-IsOf, init-IsFresh, begin_init, main-watching,
}
use watch_it.Daemon.Life.{get_event-life}

-- The configuration has the two commands and the delay.
pub record Asks (g : Settings) (config : Conf) : Type 0 where
  pub opens : config.open_cmd ≡ some (g.open_head ∷ g.open_tail)
  pub closes : config.close_cmd ≡ some (g.close_head ∷ g.close_tail)
  pub delays : config.min_read_close ≡ g.delay

module _ (env : Env) (kernel : Kernel) (config : Conf) (t t' : Table) (s0 s : State) (v : IsValid t)
    (unused : t.name_map_len ≡ 0) (begun : begin_watch env kernel config t s0 ≡ watching t' s) where
  begun-Has : (g : Settings) → Asks g config → Has g s
  begun-Has g asks =
      let new =
        init-IsFresh env kernel.thread_created true config s0 s
          (begin_init env kernel config t t' s0 s begun) in
      record {
        opens = new.opening ∙ sym new.given_open ∙ asks.opens;
        closes = new.closing ∙ sym new.given_close ∙ asks.closes;
        delays = new.delays ∙ asks.delays;
      }

  -- A directory that is watched has a tuple with the settings of the configuration.
  pub begun-tuple :
      (i : ℕ) (dir : Str)
      → get_elem? (dirs_of kernel config) i ≡ some dir
      → dir ≢ []
      → let wd = kernel.inotify_add_watch dir config.fire_on in
        (d : Str) × (find_in_map wd t' ≡ some (new_tuple d wd config.type config.min_read_close))
  unfolding find_in_map
  begun-tuple i dir at named =
      let wd = kernel.inotify_add_watch dir config.fire_on in
      let (_, _, _, watched, _) = begin_watch-watching env kernel config t t' s0 s v begun in
      elim (All-get_elem? _ (dirs_of kernel config) i dir watched at) [
        | inl empty ↦ absurd (named empty)
        | inr (x, known) ↦
            elim (watch_loop-IsOf kernel config (dirs_of kernel config) t t' wd x v
              (begin_table env kernel config t t' s0 s begun) known) [
                | inl old ↦ absurd (ground (arith, old, unused))
                | inr (j, d, _, _, same) ↦ (d, known ∙ ap some same)
              ]
      ]

-- If `main` comes to serve events with what `config_load` returned, from an empty table, with two
-- commands that are not empty and with content watched: take a file in one of the first
-- `watch_dir_count` directories of `watch_dir`, one that has a name. When a read returns the bytes of
-- an open event of that file, the consumer makes a round later than the delay, a read returns the
-- bytes of a close event of the file and the consumer makes another round, then both calls of
-- `get_event` end; the first round has run the open command for the file and the second the close
-- command, and nothing else has been run; the list is empty again, and as many blocks are allocated
-- as before. Both commands, as they are and with the file's name put in, are to be shorter than
-- 2 ^ 31 bytes, no allocation is to fail, and from the first round on every reading of the clock is to
-- succeed with a tick above UINT32_MAX that is later than the open event's by more than the delay.
pub main-life :
    (env early later : Env) (kernel : Kernel) (l : Loader) (t t' : Table) (s0 s : State) (now : ℕ)
    (g : Settings) (i : ℕ) (dir : Str) (opening closing : KernelEvent) (w1 w2 : ℕ)
    → IsValid t
    → t.name_map_len ≡ 0
    → main env kernel t s0 (loaded l) ≡ serves t' s
    → Asks g l.config
    → has_bits l.config.type watch_content ≡ true
    → get_elem? (dirs_of kernel l.config) i ≡ some dir
    → dir ≢ []
    → opening.wd ≡ kernel.inotify_add_watch dir l.config.fire_on
    → closing.wd ≡ opening.wd
    → closing.name ≡ opening.name
    → IsFileEvent opening
    → IsFileEvent closing
    → is_close_event (heard opening l.config.min_read_close 0) ≡ false
    → is_open_event (heard opening l.config.min_read_close 0) ≡ true
    → is_close_event (heard closing l.config.min_read_close 0) ≡ true
    → Grants early
    → Grants later
    → ShowsAtLeast later now
    → (get_tick early s).1 + ulong_of_int g.delay < now
    → AreShort g opening.name
    → uint32_max < now
    → let started = open_text g (heard opening l.config.min_read_close 0) in
      let ended = close_text g (heard opening l.config.min_read_close 0) in
      (s1 : State) × (s3 : State) × (get_event early t' (some (encode_all (opening ∷ []))) s
        ≡ some s1)
      × (get_event later t' (some (encode_all (closing ∷ []))) (consume later w1 s1).0 ≡ some s3)
      × (s1.executed ≡ s.executed)
      × ((consume later w1 s1).0.executed ≡ s.executed ++ started ∷ [])
      × (s3.executed ≡ (consume later w1 s1).0.executed)
      × ((consume later w2 s3).0.executed ≡ s.executed ++ started ∷ ended ∷ [])
      × ((consume later w2 s3).0.file_event_list ≡ [])
      × ((consume later w2 s3).0.live ≡ s.live)
unfolding init_name_map
main-life env early later kernel l t t' s0 s now g i dir opening closing w1 w2 v unused serving asks
      content at named own same_wd same_name o c opens not_closes closes first grants clock overdue
      short high =
    let begun = main-watching env kernel l t t' s0 s serving in
    let v0 = init_name_map-IsValid t v in
    let config : Conf = l.config in
    let (d, known) =
      begun-tuple env kernel config (init_name_map t) t' s0 s v0 unused begun i dir at named in
    let new =
      init-IsFresh env kernel.thread_created true config s0 s
        (begin_init env kernel config (init_name_map t) t' s0 s begun) in
    get_event-life early later first grants now clock g t'
      (new_tuple d (kernel.inotify_add_watch dir config.fire_on) config.type config.min_read_close)
      content opening closing w1 w2 s new.empty
      (begun-Has env kernel config (init_name_map t) t' s0 s v0 unused begun g asks) o c
      (ap (λ wd. find_in_map wd t') own ∙ known) opens not_closes closes same_wd same_name overdue
      short high
