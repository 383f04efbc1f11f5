-- ===== src/Config/Printer/RoundTrip.antt =====
-- A file with some settings is loaded to these settings.
use watch_it.Base.{
  inl, ℕ, ◌<◌, ◌≡◌, refl, sym, ap, ap₂, subst, ◌∙◌, Bool, true, false, List, [], ◌∷◌, some, All,
  arith,
}
use watch_it.Base.Words.{has_bits}
use watch_it.CString.{Str, codes, strcmp_eq, strcasecmp_eq, strtok_all}
use watch_it.CString.Tokens.{IsWord, strtok_all-join}
use watch_it.Config.Types.{Loader, Host}
use watch_it.Config.FireOn.Flags.{flags, says, all_known, words_of}
use watch_it.Config.Dirs.{is_recursive, dirs_of}
use watch_it.Config.Dirs.Ends.{IsTree}
use watch_it.Config.Dirs.Walk.{IsReliable, walk_words}
use watch_it.Config.Load.{loaded, config_load}
use watch_it.Config.Load.Exact.{described, complete, config_load-described}
use watch_it.Config.Printer.{Settings, ini_of, settings_of, print_fire_on}

words-printed :
    (o c : Bool)
    → let words = strtok_all (codes " |") (print_fire_on o c) in
      (all_known words ≡ true) × (says (codes "OPEN") words ≡ o) × (says (codes "CLOSE") words ≡ c)
unfolding says all_known strtok_all strcasecmp_eq
words-printed false false = (refl, refl, refl)
words-printed false true = (refl, refl, refl)
words-printed true false = (refl, refl, refl)
words-printed true true = (refl, refl, refl)

flags-bits : (o c : Bool) → (has_bits (flags o c) 0x20 ≡ o) × (has_bits (flags o c) 0x18 ≡ c)
flags-bits false false = (refl, refl)
flags-bits false true = (refl, refl)
flags-bits true false = (refl, refl)
flags-bits true true = (refl, refl)

walk_words-flat :
    (host : Host) (depth : ℕ) (words : List Str) → walk_words host false depth words ≡ words
unfolding walk_words
walk_words-flat host depth [] = refl
walk_words-flat host depth (word ∷ rest) = ap (◌∷◌ word) (walk_words-flat host depth rest)

dirs-printed :
    (s : Settings) → All (IsWord (codes ", ")) s.watch_dir → dirs_of (ini_of s) ≡ s.watch_dir
unfolding ini_of strcmp_eq
dirs-printed s printable = strtok_all-join s.watch_dir printable

fire-printed :
    (s : Settings)
    → words_of (ini_of s) ≡ strtok_all (codes " |") (print_fire_on s.for_open s.for_close)
unfolding ini_of strcmp_eq
fire-printed s = refl

flat-printed : (s : Settings) → is_recursive (ini_of s) ≡ false
unfolding ini_of strcmp_eq is_recursive strcasecmp_eq
flat-printed s = refl

settings-described : (s : Settings) → settings_of (described (ini_of s) s.watch_dir) ≡ s
unfolding settings_of described ini_of strcmp_eq
settings-described s =
    let (known, opens, closes) = words-printed s.for_open s.for_close in
    let bits = flags-bits s.for_open s.for_close in
    ground (arith, fire-printed s, known, opens, closes, bits)

-- If nothing fails, on a finite tree of directories, `config_load` reads a file with some settings,
-- whose directories are words, to a configuration that stands for just these settings.
pub config_load-ini_of :
    (host : Host) (height : Str → ℕ) (fuel : ℕ) (s : Settings)
    → IsReliable host
    → IsTree host height
    → All (λ dir. height dir < fuel) s.watch_dir
    → All (IsWord (codes ", ")) s.watch_dir
    → (l : Loader) × (config_load host fuel true (some (ini_of s)) ≡ some (loaded l))
      × (settings_of l.config ≡ s)
unfolding complete
config_load-ini_of host height fuel s works tree low printable =
    let dict = ini_of s in
    let known = ap all_known (fire-printed s) ∙ (words-printed s.for_open s.for_close).0 in
    let named = dirs-printed s printable in
    let found = walk_words host (is_recursive dict) fuel (dirs_of dict) in
    let same : found ≡ s.watch_dir =
      ap₂ (λ (r : Bool) (words : List Str). walk_words host r fuel words) (flat-printed s) named
      ∙ walk_words-flat host fuel s.watch_dir in
    let below = subst (All (λ dir. height dir < fuel)) (sym named) low in
    (
      complete dict found,
      config_load-described host works dict known height fuel tree below (inl (flat-printed s)),
      ap (λ (dirs : List Str). settings_of (described dict dirs)) same ∙ settings-described s,
    )
