-- ===== src/Handling/Invariant/Keys.antt =====
-- The key of a file, its id and name, and lists in which no key occurs twice.
use watch_it.Base.{
  ℕ, zero, suc, ◌≡◌, sym, ap, true, false, List, [], ◌∷◌, ◌++◌, Option, none, some, set, erase_idx,
  get_elem?, arith, Bool-cases, inl, inr,
}
use watch_it.CString.{Str}
use watch_it.CString.Search.{strcmp_eq→eq}
use watch_it.Handling.Types.{FileEvent, FileList}
use watch_it.Handling.Files.{names_equal, equals_file}
use watch_it.Handling.Invariant.Defs.{IsAbsent, IsUnique}

-- Two files have one key.
abbrev pub SameKey : FileEvent → FileEvent → Type 0
SameKey f g = (f.id ≡ g.id) × (f.name ≡ g.name)

pub equals_file-left : (f g h : FileEvent) → SameKey f g → equals_file f h ≡ equals_file g h
unfolding equals_file
equals_file-left f g h e = ground arith

pub equals_file-right : (f g h : FileEvent) → SameKey f g → equals_file h f ≡ equals_file h g
unfolding equals_file
equals_file-right f g h e = ground arith

names_equal→eq : (a b : Option Str) → names_equal a b ≡ true → a ≡ b
unfolding names_equal
names_equal→eq (some a) (some b) h = ap some (strcmp_eq→eq a b h)
names_equal→eq none b h = absurd (cc)
names_equal→eq (some a) none h = absurd (cc)

-- Files that are equal have one key.
pub equals_file-SameKey : (f g : FileEvent) → equals_file f g ≡ true → SameKey f g
unfolding equals_file
equals_file-SameKey f g h = (ground arith, names_equal→eq f.name g.name (ground arith))

pub equals_file-sym : (f g : FileEvent) → equals_file f g ≡ false → equals_file g f ≡ false
equals_file-sym f g h = elim (Bool-cases (equals_file g f)) [
  | inl same ↦
      let (i, n) = equals_file-SameKey g f same in
      absurd (cc (h, same, equals_file-left f g g (sym i, sym n), equals_file-right g f g (i, n)))
  | inr other ↦ other
]

pub IsAbsent-SameKey :
    (f g : FileEvent) (files : List FileList) → SameKey f g → IsAbsent f files → IsAbsent g files
IsAbsent-SameKey f g [] e h = tt
IsAbsent-SameKey f g (x ∷ rest) e h =
    (ground (arith, equals_file-right f g x.file), IsAbsent-SameKey f g rest e h.1)

pub IsAbsent-set :
    (f : FileEvent) (files : List FileList) (i : ℕ) (old new : FileList)
    → get_elem? files i ≡ some old
    → SameKey old.file new.file
    → IsAbsent f files
    → IsAbsent f (set files i new)
IsAbsent-set f [] i old new e k h = h
IsAbsent-set f (x ∷ rest) zero old new e k h =
    (ground (arith, equals_file-left old.file new.file f), h.1)
IsAbsent-set f (x ∷ rest) (suc i) old new e k h = (h.0, IsAbsent-set f rest i old new e k h.1)

pub IsUnique-set :
    (files : List FileList) (i : ℕ) (old new : FileList)
    → get_elem? files i ≡ some old
    → SameKey old.file new.file
    → IsUnique files
    → IsUnique (set files i new)
IsUnique-set [] i old new e k h = h
IsUnique-set (x ∷ rest) zero old new e k h =
    (ground (arith, IsAbsent-SameKey old.file new.file rest), h.1)
IsUnique-set (x ∷ rest) (suc i) old new e k h =
    (IsAbsent-set x.file rest i old new e k h.0, IsUnique-set rest i old new e k h.1)

IsAbsent-erase :
    (f : FileEvent) (files : List FileList) (i : ℕ)
    → IsAbsent f files
    → IsAbsent f (erase_idx files i)
IsAbsent-erase f [] i h = h
IsAbsent-erase f (x ∷ rest) zero h = h.1
IsAbsent-erase f (x ∷ rest) (suc i) h = (h.0, IsAbsent-erase f rest i h.1)

pub IsUnique-erase : (files : List FileList) (i : ℕ) → IsUnique files → IsUnique (erase_idx files i)
IsUnique-erase [] i h = h
IsUnique-erase (x ∷ rest) zero h = h.1
IsUnique-erase (x ∷ rest) (suc i) h = (IsAbsent-erase x.file rest i h.0, IsUnique-erase rest i h.1)

IsAbsent-snoc :
    (f : FileEvent) (files : List FileList) (new : FileList)
    → IsAbsent f files
    → equals_file new.file f ≡ false
    → IsAbsent f (files ++ new ∷ [])
IsAbsent-snoc f [] new h k = (k, tt)
IsAbsent-snoc f (x ∷ rest) new h k = (h.0, IsAbsent-snoc f rest new h.1 k)

-- A new entry is appended where its file is absent.
pub IsUnique-snoc :
    (files : List FileList) (new : FileList)
    → IsAbsent new.file files
    → IsUnique files
    → IsUnique (files ++ new ∷ [])
IsUnique-snoc [] new a u = (tt, tt)
IsUnique-snoc (x ∷ rest) new a u = (
  IsAbsent-snoc x.file rest new u.0 (equals_file-sym x.file new.file a.0),
  IsUnique-snoc rest new a.1 u.1,
)
