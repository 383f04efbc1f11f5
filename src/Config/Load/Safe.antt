-- ===== src/Config/Load/Safe.antt =====
-- `config_load` ends, and never writes behind the end of `watch_dir`.
use watch_it.Base.{
  ℕ, ◌-◌, ◌^◌, ◌<◌, ◌≤◌, ◌≡◌, refl, ap, ◌∙◌, Bool, true, false, Option, none, some, All, arith,
  Bool-cases, inl, inr, if-rule, if◌then◌else◌,
}
use watch_it.CString.{Str}
use watch_it.Config.Types.{Conf, Loader, Ini, Host}
use watch_it.Config.FireOn.{load_fire_on}
use watch_it.Config.Dirs.{get_watch_dir_count, load_watch_dir, dirs_of}
use watch_it.Config.Dirs.Words.{load_watch_dir-count}
use watch_it.Config.Dirs.Ends.{IsTree, get_watch_dir_count-Ends}
use watch_it.Config.Load.{
  config_init, load_rest, load_into, allocated, no_memory, null_written, allocate_for,
  allocate_config, Loaded, null, loaded, fault, load_allocated, config_load, sizeof_conf, slots,
  array_size,
}

-- The names written fit the array.
abbrev pub FitsArray : Conf → Type 0
FitsArray c = c.watch_dir_count ≤ c.capacity

-- A configuration whose names fit the array; or NULL; or a write through NULL, which is the fault
-- of a failed first `malloc`.
abbrev pub IsSafe : Host → Loaded → Type 0
IsSafe host null = Unit
IsSafe host (loaded l) = FitsArray l.config
IsSafe host fault = host.grants 0 sizeof_conf ≡ false

fire_on-FitsArray : (dict : Ini) (c : Conf) → FitsArray c → FitsArray (load_fire_on dict c).0
unfolding load_fire_on
fire_on-FitsArray dict c h = h

load_rest-FitsArray :
    (host : Host) (dict : Ini) (l : Loader)
    → FitsArray l.config
    → FitsArray (load_rest host dict l).config
unfolding load_rest load_fire_on
load_rest-FitsArray host dict l h = ground arith

-- Below 2 ^ 28 directories the array has room for all of them, and for no more.
pub slots-some : (total : ℕ) → total < 2 ^ 28 → slots (some total) ≡ total
slots-some total h = ground (arith, h)

slots-whole : (total : ℕ) → total < 2 ^ 28 → total ≤ slots (some total)
slots-whole total h = omega (arith, slots-some total h)

module _ (host : Host) (fuel : ℕ) (dict : Ini) where
  pub load_into-unknown :
      (l : Loader)
      → (load_fire_on dict l.config).1 ≡ false
      → load_into host fuel dict l ≡ some (record l { config = (load_fire_on dict l.config).0 })
  unfolding load_into
  load_into-unknown l h = ground (arith, h)

  pub load_into-known :
      (l : Loader) (result : Loader × Bool)
      → (load_fire_on dict l.config).1 ≡ true
      → load_watch_dir host fuel dict (record l { config = (load_fire_on dict l.config).0 })
        ≡ some result
      → load_into host fuel dict l
        ≡ some (if result.1 then load_rest host dict result.0 else result.0)
  unfolding load_into
  load_into-known l result h e = ground (arith, h, e)

  load_into-FitsArray :
      (l : Loader) (total : ℕ)
      → get_watch_dir_count host fuel dict ≡ some (some total)
      → l.config.watch_dir_count ≡ 0
      → (l' : Loader) × (load_into host fuel dict l ≡ some l')
        × (total ≤ l.config.capacity → FitsArray l'.config)
  unfolding load_fire_on
  load_into-FitsArray l total counted empty = elim (Bool-cases (load_fire_on dict l.config).1) [
    | inl known ↦
        let l0 : Loader = record l { config = (load_fire_on dict l.config).0 } in
        let (result, e, few, cap) = load_watch_dir-count host fuel dict l0 total counted in
        let fits : total ≤ l.config.capacity → FitsArray result.0.config =
          λ room. omega (arith, few, cap, empty, room) in
        (
          if result.1 then load_rest host dict result.0 else result.0,
          load_into-known l result known e,
          if-rule (λ (x : Loader). total ≤ l.config.capacity → FitsArray x.config) result.1 _ _
              (λ _ room. load_rest-FitsArray host dict result.0 (fits room)) (λ _. fits),
        )
    | inr unknown ↦ (
      record l { config = (load_fire_on dict l.config).0 },
      load_into-unknown l unknown,
      λ room. fire_on-FitsArray dict l.config (omega (arith, empty)),
    )
  ]

  allocate-null :
      (count : Option ℕ)
      → host.grants 0 sizeof_conf ≡ false
      → allocate_for host count ≡ null_written
  unfolding allocate_for
  allocate-null count h = ground (arith, h)

  allocate-none :
      (count : Option ℕ)
      → host.grants 0 sizeof_conf ≡ true
      → host.grants 1 (array_size count) ≡ false
      → allocate_for host count ≡ no_memory
  unfolding allocate_for
  allocate-none count h k = ground (arith, h, k)

  pub allocate-some :
      (count : Option ℕ)
      → host.grants 0 sizeof_conf ≡ true
      → host.grants 1 (array_size count) ≡ true
      → allocate_for host count
        ≡ allocated (record { config = config_init (slots count); mallocs = 2; live = 2 })
  unfolding allocate_for
  allocate-some count h k = ground (arith, h, k)

  -- The directories that are counted are fewer than 2 ^ 28, so that their pointers' size is an `int`.
  abbrev pub IsCounted : Type 0
  IsCounted = (total : ℕ) → get_watch_dir_count host fuel dict ≡ some (some total) → total < 2 ^ 28

  with_array :
      (count : Option ℕ)
      → get_watch_dir_count host fuel dict ≡ some count
      → ((n : ℕ) → host.grants n (2 ^ 64 - 8) ≡ false)
      → host.grants 0 sizeof_conf ≡ true
      → host.grants 1 (array_size count) ≡ true
      → (r : Loaded) × (load_allocated host fuel dict (allocate_for host count) ≡ some r)
        × (IsCounted → IsSafe host r)
  unfolding config_init
  with_array none counted huge first second = absurd (cc (huge 1, second))
  with_array (some total) counted huge first second =
      let l : Loader = record {
        config = config_init (slots (some total));
        mallocs = 2;
        live = 2;
      } in
      let (c, e, fits) = load_into-FitsArray l total counted refl in
      (
        loaded c,
        ap (load_allocated host fuel dict) (allocate-some (some total) first second)
            ∙ ground (arith, e),
        λ few. fits (slots-whole total (few total counted)),
      )

  load_allocated-IsSafe :
      (count : Option ℕ)
      → get_watch_dir_count host fuel dict ≡ some count
      → ((n : ℕ) → host.grants n (2 ^ 64 - 8) ≡ false)
      → (r : Loaded) × (load_allocated host fuel dict (allocate_for host count) ≡ some r)
        × (IsCounted → IsSafe host r)
  load_allocated-IsSafe count counted huge = elim (Bool-cases (host.grants 0 sizeof_conf)) [
    | inr refused ↦
        (fault, ap (load_allocated host fuel dict) (allocate-null count refused), λ few. refused)
    | inl first ↦ elim (Bool-cases (host.grants 1 (array_size count))) [
      | inr refused ↦
          (null, ap (load_allocated host fuel dict) (allocate-none count first refused), λ few. tt)
      | inl second ↦ with_array count counted huge first second
    ]
  ]

  config_load-count :
      (height : Str → ℕ) (readable : Bool)
      → IsTree host height
      → All (λ dir. height dir < fuel) (dirs_of dict)
      → ((n : ℕ) → host.grants n (2 ^ 64 - 8) ≡ false)
      → (r : Loaded) × (config_load host fuel readable (some dict) ≡ some r)
        × (IsCounted → IsSafe host r)
  unfolding config_load allocate_config
  config_load-count height false tree low huge = (null, refl, λ few. tt)
  config_load-count height true tree low huge =
      let (count, counted) = get_watch_dir_count-Ends host height tree fuel dict low in
      let (r, e, safe) = load_allocated-IsSafe count counted huge in
      (r, ground (arith, counted, e), safe)

  pub config_load-some :
      (height : Str → ℕ) (readable : Bool)
      → IsTree host height
      → All (λ dir. height dir < fuel) (dirs_of dict)
      → ((n : ℕ) → host.grants n (2 ^ 64 - 8) ≡ false)
      → (r : Loaded) × (config_load host fuel readable (some dict) ≡ some r)
  config_load-some height readable tree low huge =
      let (r, e, _) = config_load-count height readable tree low huge in (r, e)

  -- On a finite tree of directories that does not change, with fuel above its height, fewer than
  -- 2 ^ 28 directories to count and a `malloc` that cannot give 2 ^ 64 - 8 bytes, `config_load` ends.
  -- The configuration that it returns, also after an error, has at most as many names in `watch_dir`
  -- as the array has room for; and it writes through NULL only if the `malloc` of the configuration
  -- itself has failed.
  pub config_load-IsSafe :
      (height : Str → ℕ) (readable : Bool)
      → IsTree host height
      → All (λ dir. height dir < fuel) (dirs_of dict)
      → IsCounted
      → ((n : ℕ) → host.grants n (2 ^ 64 - 8) ≡ false)
      → (r : Loaded) × (config_load host fuel readable (some dict) ≡ some r) × IsSafe host r
  config_load-IsSafe height readable tree low few huge =
      let (r, e, safe) = config_load-count height readable tree low huge in (r, e, safe few)
