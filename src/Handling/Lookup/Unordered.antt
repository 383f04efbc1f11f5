-- ===== src/Handling/Lookup/Unordered.antt =====
-- Lists of files that have the same entries, in whatever order.
use watch_it.Base.{
  ℕ, ◌≤◌, ◌≡◌, refl, sym, ◌∙◌, Bool, true, false, List, Option, if◌then◌else◌, Bool-cases, inl, inr,
}
use watch_it.Handling.Types.{State, Env, Event, FileEvent, FileList}
use watch_it.Handling.Files.{equals_file}
use watch_it.Handling.Files.Find.{wanted}
use watch_it.Handling.Commands.Effect.{Grants}
use watch_it.Handling.Add.{add_event}
use watch_it.Handling.Consumer.Shortened.{ShowsAt}
use watch_it.Handling.Invariant.Defs.{Inv}
use watch_it.Handling.Invariant.Keys.{equals_file-SameKey, equals_file-left, equals_file-right}
use watch_it.Handling.Lookup.{lookup}
use watch_it.Handling.Lookup.Commute.{swap-view}

-- Two lists have the same entry for every file.
abbrev pub SameView : List FileList → List FileList → Type 0
SameView xs ys = (k : FileEvent) → lookup k xs ≡ lookup k ys

equals_file_comm : (f g : FileEvent) → equals_file f g ≡ false → equals_file g f ≡ false
equals_file_comm f g h = elim (Bool-cases (equals_file g f)) [
  | inr other ↦ other
  | inl same ↦
      let key = equals_file-SameKey g f same in
      absurd (cc (h, same, equals_file-left g f g key, equals_file-right g f g key))
]

if-swap :
    (p q : Bool) (a b c : Option FileList)
    → (p ≡ true → q ≡ false)
    → (if q then a else if p then b else c) ≡ (if p then b else if q then a else c)
if-swap true true a b c h = absurd (cc (h refl))
if-swap true false a b c h = refl
if-swap false q a b c h = refl

-- No file is two different ones.
one_file :
    (f g k : FileEvent) → equals_file f g ≡ false → equals_file f k ≡ true → equals_file g k ≡ false
one_file f g k other same = elim (Bool-cases (equals_file g k)) [
  | inr apart ↦ apart
  | inl too ↦
      let key = equals_file-SameKey g k too in
      absurd (cc (other, same, equals_file-right g k f key))
]

-- With a clock that stands and no failed allocation, two events of different files that are added
-- to a sound list leave the same entries in either order.
pub swap-SameView :
    (env : Env) (now : ℕ)
    → ShowsAt env now
    → Grants env
    → (e f : Event) (s : State) → s.last_tick ≤ now
    → Inv s.file_event_list
    → equals_file (wanted e) (wanted f) ≡ false
    → SameView
        (add_event env f (add_event env e s).0).0.file_event_list
        (add_event env e (add_event env f s).0).0.file_event_list
swap-SameView env now clock grants e f s h v other k =
    swap-view env now clock grants e f s k h v other
    ∙ if-swap (equals_file (wanted e) k) (equals_file (wanted f) k) _ _ _
        (one_file (wanted e) (wanted f) k other)
    ∙ sym
        (swap-view env now clock grants f e s k h v (equals_file_comm (wanted e) (wanted f) other))
