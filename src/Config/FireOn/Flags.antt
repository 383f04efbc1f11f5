-- ===== src/Config/FireOn/Flags.antt =====
-- Which events a list of known words stands for.
use watch_it.Base.{
  ℕ, ◌≡◌, refl, Bool, true, false, ◌&&◌, ◌||◌, List, [], ◌∷◌, arith, Bool-cases, inl, inr,
}
use watch_it.CString.{Str, codes, strcasecmp_eq, strtok_all}
use watch_it.Config.Types.{Conf, Ini, equals}
use watch_it.Config.FireOn.{fire_open, fire_close, fire_loop, load_fire_on}

-- The events of `OPEN` (IN_OPEN and IN_ACCESS), of `CLOSE` (IN_CLOSE, IN_DELETE and
-- IN_DELETE_SELF), of both or of neither.
abbrev pub flags : Bool → Bool → ℕ
flags false false = 0
flags true false = 0x21
flags false true = 0x618
flags true true = 0x639

fire_open-flags : (o c : Bool) → fire_open (flags o c) ≡ flags true c
fire_open-flags false false = refl
fire_open-flags false true = refl
fire_open-flags true false = refl
fire_open-flags true true = refl

fire_close-flags : (o c : Bool) → fire_close (flags o c) ≡ flags o true
fire_close-flags false false = refl
fire_close-flags false true = refl
fire_close-flags true false = refl
fire_close-flags true true = refl

-- A word of the list is the given one, in any case of letters.
unfoldable pub says : Str → List Str → Bool
says word [] = false
says word (pch ∷ rest) = equals pch word || says word rest

-- Every word is known.
unfoldable pub all_known : List Str → Bool
all_known [] = true
all_known (pch ∷ rest) = (equals pch (codes "OPEN") || equals pch (codes "CLOSE")) && all_known rest

-- No word is both.
apart : (pch : Str) → equals pch (codes "OPEN") ≡ true → equals pch (codes "CLOSE") ≡ false
unfolding strcasecmp_eq
apart [] h = refl
apart (x ∷ pch) h = ground arith

or_true : (b : Bool) → (b || true) ≡ true
or_true false = refl
or_true true = refl

fire_loop-flags :
    (words : List Str) (o c : Bool)
    → all_known words ≡ true
    → fire_loop words (flags o c)
      ≡ (flags (o || says (codes "OPEN") words) (c || says (codes "CLOSE") words), true)
unfolding fire_loop says all_known
fire_loop-flags [] false false h = refl
fire_loop-flags [] false true h = refl
fire_loop-flags [] true false h = refl
fire_loop-flags [] true true h = refl
fire_loop-flags (pch ∷ rest) o c h = elim (Bool-cases (equals pch (codes "OPEN"))) [
  | inl opens ↦
      rw (opens, apart pch opens, fire_open-flags o c, or_true o)
        (fire_loop-flags rest true c (ground (arith, opens)))
  | inr other ↦ elim (Bool-cases (equals pch (codes "CLOSE"))) [
    | inl closes ↦
        rw (other, closes, fire_close-flags o c, or_true c)
          (fire_loop-flags rest o true (ground (arith, other, closes)))
    | inr unknown ↦ absurd (ground (arith, other, unknown))
  ]
]

fire_loop-known : (words : List Str) (mask : ℕ) → (fire_loop words mask).1 ≡ all_known words
unfolding fire_loop all_known
fire_loop-known [] mask = refl
fire_loop-known (pch ∷ rest) mask =
    ground (arith, fire_loop-known rest (fire_open mask), fire_loop-known rest (fire_close mask))

-- The words of the file's `fire_on`.
abbrev pub words_of : Ini → List Str
words_of dict = strtok_all (codes " |") (dict.getstring (codes "folder:fire_on") [])

absorb : (b : Bool) → (b || b) ≡ b
absorb false = refl
absorb true = refl

-- If every word is known, `load_fire_on` on a fresh configuration returns 0 and asks for the events
-- of `OPEN` if that is a word, for those of `CLOSE` if that is, in any case of letters and any
-- order, and for nothing else; and loading a second time changes nothing.
pub load_fire_on-flags :
    (dict : Ini) (config : Conf)
    → config.fire_on ≡ 0
    → all_known (words_of dict) ≡ true
    → let loaded : Conf = record config {
      fire_on = flags (says (codes "OPEN") (words_of dict)) (says (codes "CLOSE") (words_of dict));
    } in
      (load_fire_on dict config ≡ (loaded, true)) × (load_fire_on dict loaded ≡ (loaded, true))
unfolding load_fire_on
load_fire_on-flags dict config zero known =
    let opens = says (codes "OPEN") (words_of dict) in
    let closes = says (codes "CLOSE") (words_of dict) in
    (
      rw (zero, fire_loop-flags (words_of dict) false false known) refl,
      rw (fire_loop-flags (words_of dict) opens closes known, absorb opens, absorb closes) refl,
    )

-- `load_fire_on` returns 0 exactly if every word is known.
pub load_fire_on-unknown :
    (dict : Ini) (config : Conf) → (load_fire_on dict config).1 ≡ all_known (words_of dict)
unfolding load_fire_on
load_fire_on-unknown dict config = fire_loop-known (words_of dict) config.fire_on
