-- ===== src/Daemon/Start/Buffers.antt =====
-- The fixed-size buffers for paths, from the configuration to the table of watches.
use watch_it.Base.{
  none, ◌+◌, ◌≤◌, ◌⊎◌, ℕ, zero, suc, ◌<◌, ◌≡◌, ap, subst, sym, Bool, List, [], ◌∷◌, some, All,
  All-get_elem?, length, take, arith, inl, inr,
}
use watch_it.CString.{Str}
use watch_it.Daemon.Reader.{InotifyEvent, filter_event}
use watch_it.Daemon.Reader.Reports.{filter_event-copied}
use watch_it.Config.Types.{Conf, Loader, Ini, Host}
use watch_it.Config.Dirs.{dirs_of}
use watch_it.Config.Dirs.Ends.{IsTree}
use watch_it.Config.Load.{loaded, config_load}
use watch_it.Config.Load.Lengths.{HasShortNames, HasRoom, Fits, config_load-HasRoom, All-Fits}
use watch_it.Handling.Types.{State, Env}
use watch_it.Daemon.Table.{Table, WdNameTuple, find_in_map, init_name_map}
use watch_it.Daemon.Table.Laws.{IsValid, init_name_map-IsValid}
use watch_it.Daemon.Start.{Kernel, begin_watch, watching, main, serves}
use watch_it.Daemon.Start.Watched.{begin_table}
use watch_it.Daemon.Start.Configured.{watch_loop-IsOf, main-watching}

All-take : (P : Str → Type 0) (n : ℕ) (xs : List Str) → All P xs → All P (take n xs)
All-take P zero xs h = tt
All-take P (suc n) [] h = tt
All-take P (suc n) (x ∷ xs) h = (h.0, All-take P n xs h.1)

-- The names in the table are names in `watch_dir`.
table-All :
    (env : Env) (kernel : Kernel) (P : Str → Type 0) (c : Conf) (t t' : Table) (s s' : State)
    (k : ℕ) (x : WdNameTuple)
    → IsValid t
    → t.name_map_len ≡ 0
    → begin_watch env kernel c t s ≡ watching t' s'
    → All P c.watch_dir
    → find_in_map k t' ≡ some x
    → P x.name
unfolding find_in_map
table-All env kernel P c t t' s s' k x v unused h names known =
    elim (watch_loop-IsOf kernel c (take c.watch_dir_count c.watch_dir) t t' k x v
      (begin_table env kernel c t t' s s' h) known) [
        | inl old ↦ absurd (ground (arith, old, unused))
        | inr (i, dir, at, own, same) ↦ subst P (sym (ap (λ (y : WdNameTuple). y.name) same)) (
            All-get_elem? P (take c.watch_dir_count c.watch_dir) i dir
              (All-take P c.watch_dir_count c.watch_dir names) at)
      ]

-- The string that `get_event` builds for an event and a tuple fits `event_name`, if there is one.
abbrev pub NameFits : ℕ → InotifyEvent → WdNameTuple → Type 0
NameFits filename_max e x =
    (filter_event e x ≡ none)
    ⊎ ((name : Str) × (filter_event e x ≡ some name) × (length name < 81 + filename_max))

NameFits-short :
    (filename_max : ℕ) (e : InotifyEvent) (x : WdNameTuple)
    → length x.name + 256 < filename_max
    → length e.name ≤ 255
    → NameFits filename_max e x
NameFits-short filename_max e x room short = elim (filter_event-copied e x) [
  | inl dropped ↦ inl dropped
  | inr (name, kept, copied) ↦
      inr (name, kept, elim copied [ inl same ↦ grind arith | inr same ↦ grind arith ])
]

-- With buffers of `filename_max` bytes for a path, names of directory entries of at most 255 bytes
-- and a finite tree of directories in which every word of the file leaves room for 256 bytes at
-- each level below it and one more: if `main` comes to serve events, from an empty table, then
-- every name in `watch_dir`, and every path that the loops over that directory build, fits a buffer
-- with its terminating zero. So does the name of every tuple that `get_event` finds for an event,
-- and if the event's own name has at most 255 bytes, the round either drops the event or copies a
-- name that fits the 81 + `filename_max` bytes of `event_name`.
pub main-Fits :
    (filename_max : ℕ) (host : Host) (height : Str → ℕ) (dict : Ini) (fuel : ℕ) (readable : Bool)
    (l : Loader) (env : Env) (kernel : Kernel) (t t' : Table) (s s' : State) (e : InotifyEvent)
    (x : WdNameTuple)
    → HasShortNames host
    → IsTree host height
    → All (HasRoom filename_max host height) (dirs_of dict)
    → config_load host fuel readable (some dict) ≡ some (loaded l)
    → IsValid t
    → t.name_map_len ≡ 0
    → main env kernel t s (loaded l) ≡ serves t' s'
    → find_in_map e.wd t' ≡ some x
    → length e.name ≤ 255
    → All (Fits filename_max host) l.config.watch_dir
      × (length x.name < filename_max)
      × NameFits filename_max e x
unfolding init_name_map
main-Fits filename_max host height dict fuel readable l env kernel t t' s s' e x short tree words
      loads v unused serving known name_short =
    let rooms =
      config_load-HasRoom filename_max host height fuel readable dict l short tree words loads in
    let begun = main-watching env kernel l t t' s s' serving in
    let room =
      table-All env kernel (HasRoom filename_max host height) l.config (init_name_map t) t' s s'
        e.wd x (init_name_map-IsValid t v) unused begun rooms known in
    (
      All-Fits filename_max host height short l.config.watch_dir rooms,
      omega (arith, room),
      NameFits-short filename_max e x (omega (arith, room)) name_short,
    )
