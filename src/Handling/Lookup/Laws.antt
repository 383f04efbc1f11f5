-- ===== src/Handling/Lookup/Laws.antt =====
-- How writing, erasing and appending an entry change the finite map.
use watch_it.Base.{
  ℕ, zero, suc, ◌≡◌, refl, sym, ◌∙◌, true, false, List, [], ◌∷◌, ◌++◌, none, some, All-get_elem?,
  get_elem?, set, erase_idx, if◌then◌else◌, arith, Bool-cases, inl, inr,
}
use mathlib.Core.Option
use watch_it.Handling.Types.{Event, FileEvent, FileList}
use watch_it.Handling.Files.{equals_file, find_from, find_in_file_list}
use watch_it.Handling.Files.Find.{wanted, IsHandled, copied}
use watch_it.Handling.Invariant.Defs.{IsAbsent, IsUnique}
use watch_it.Handling.Invariant.Keys.{
  SameKey, equals_file-left, equals_file-right, equals_file-SameKey,
}
use watch_it.Handling.Lookup.{lookup}

-- Two entries of one list are not both for a file.
apart :
    (x y : FileList) (k : FileEvent)
    → equals_file y.file x.file ≡ false
    → equals_file x.file k ≡ true
    → equals_file y.file k ≡ false
apart x y k h e = sym (equals_file-right x.file k y.file (equals_file-SameKey x.file k e)) ∙ h

pub lookup-absent :
    (k f : FileEvent) (files : List FileList)
    → equals_file f k ≡ true
    → IsAbsent f files
    → lookup k files ≡ none
unfolding lookup
lookup-absent k f [] e h = refl
lookup-absent k f (x ∷ rest) e h =
    ground (
      arith,
      equals_file-right f k x.file (equals_file-SameKey f k e),
      lookup-absent k f rest e h.1,
    )

pub lookup-set :
    (k : FileEvent) (files : List FileList) (i : ℕ) (old new : FileList)
    → get_elem? files i ≡ some old
    → SameKey old.file new.file
    → IsUnique files
    → lookup k (set files i new) ≡ (if equals_file old.file k then some new else lookup k files)
unfolding lookup
lookup-set k [] i old new e same u = absurd (cc)
lookup-set k (x ∷ rest) zero old new e same u = ground (arith, equals_file-left old.file new.file k)
lookup-set k (x ∷ rest) (suc i) old new e same u = ground (
  arith,
  lookup-set k rest i old new e same u.1,
  apart x old k (All-get_elem? _ rest i old u.0 e),
)

pub lookup-erase_idx :
    (k : FileEvent) (files : List FileList) (i : ℕ) (old : FileList)
    → get_elem? files i ≡ some old
    → IsUnique files
    → lookup k (erase_idx files i) ≡ (if equals_file old.file k then none else lookup k files)
unfolding lookup
lookup-erase_idx k [] i old e u = absurd (cc)
lookup-erase_idx k (x ∷ rest) zero old e u = ground (arith, lookup-absent k x.file rest)
lookup-erase_idx k (x ∷ rest) (suc i) old e u =
    ground
      (arith, lookup-erase_idx k rest i old e u.1, apart x old k (All-get_elem? _ rest i old u.0 e))

pub lookup-snoc :
    (k : FileEvent) (files : List FileList) (new : FileList)
    → IsAbsent new.file files
    → lookup k (files ++ new ∷ []) ≡ (if equals_file new.file k then some new else lookup k files)
unfolding lookup
lookup-snoc k [] new h = refl
lookup-snoc k (x ∷ rest) new h = ground (arith, lookup-snoc k rest new h.1, apart new x k h.0)

lookup-find_from :
    (f : FileEvent) (start : ℕ) (files : List FileList)
    → lookup f files ≡ Option.map (λ p. p.1) (find_from f start files)
unfolding lookup find_from
lookup-find_from f start [] = refl
lookup-find_from f start (x ∷ rest) = ground (arith, lookup-find_from f (suc start) rest)

-- `find_in_file_list` finds the entry of the event's file.
pub lookup-find :
    (e : Event) (files : List FileList)
    → IsHandled e
    → lookup (wanted e) files ≡ Option.map (λ p. p.1) (find_in_file_list e files)
unfolding find_in_file_list
lookup-find e files h = lookup-find_from (wanted e) 0 files ∙ ground (arith, copied e h)

-- The view depends on the key alone.
pub lookup-SameKey :
    (f g : FileEvent) (files : List FileList) → SameKey f g → lookup f files ≡ lookup g files
unfolding lookup
lookup-SameKey f g [] e = refl
lookup-SameKey f g (x ∷ rest) e =
    ground (arith, equals_file-right f g x.file e, lookup-SameKey f g rest e)

-- What a map that is left alone says of the file of an entry.
pub lookup-kept :
    (k : FileEvent) (files : List FileList) (fl : FileList)
    → lookup fl.file files ≡ some fl
    → lookup k files ≡ (if equals_file fl.file k then some fl else lookup k files)
lookup-kept k files fl view = elim (Bool-cases (equals_file fl.file k)) [
  | inl same ↦
      rw same (sym (lookup-SameKey fl.file k files (equals_file-SameKey fl.file k same)) ∙ view)
  | inr other ↦ rw other refl
]
