-- ===== src/Handling/Files/Find.antt =====
-- What `find_in_file_list` finds: the first entry for the event's file, if the list has one.
use watch_it.Base.{
  ℕ, suc, ◌+◌, ◌≡◌, true, false, List, [], ◌∷◌, none, some, All, get_elem?, arith, Bool-cases, inl,
  inr, ◌⊎◌,
}
use watch_it.Handling.Types.{Event, FileEvent, FileList}
use watch_it.Handling.Files.{
  equals_file, find_from, find_in_file_list, copy_event_to_file, init_file, is_close_event,
  is_open_event,
}

-- The file that `find_in_file_list` compares with.
abbrev pub wanted : Event → FileEvent
wanted e = (copy_event_to_file e (init_file none 0 0)).0

pub wanted-key : (e : Event) → ((wanted e).id ≡ e.id) × ((wanted e).name ≡ some e.name)
unfolding copy_event_to_file
wanted-key e = ground arith

-- The event is one that the handler reacts to.
abbrev pub IsHandled : Event → Type 0
IsHandled e = (is_close_event e ≡ true) ⊎ (is_open_event e ≡ true)

pub copied : (e : Event) → IsHandled e → (copy_event_to_file e (init_file none 0 0)).1 ≡ true
unfolding copy_event_to_file
copied e h = ground arith

-- An entry found stands at its position, counted from `start`, and is for the file wanted.
find_from-some :
    (f : FileEvent) (start : ℕ) (files : List FileList) (j : ℕ) (fl : FileList)
    → find_from f start files ≡ some (j, fl)
    → (k : ℕ) × (j ≡ start + k) × (get_elem? files k ≡ some fl) × (equals_file fl.file f ≡ true)
unfolding find_from
find_from-some f start [] j fl h = absurd (cc)
find_from-some f start (x ∷ rest) j fl h = elim (Bool-cases (equals_file x.file f)) [
  | inl here ↦ (0, ground arith, ground arith, ground arith)
  | inr other ↦
      let (k, p, q, r) = find_from-some f (suc start) rest j fl (ground arith) in
      (suc k, omega arith, q, r)
]

find_from-none :
    (f : FileEvent) (start : ℕ) (files : List FileList)
    → find_from f start files ≡ none
    → All (λ fl. equals_file fl.file f ≡ false) files
unfolding find_from
find_from-none f start [] h = tt
find_from-none f start (x ∷ rest) h = elim (Bool-cases (equals_file x.file f)) [
  | inl here ↦ absurd (ground arith)
  | inr other ↦ (other, find_from-none f (suc start) rest (ground arith))
]

pub find-some :
    (e : Event) (files : List FileList) (i : ℕ) (fl : FileList)
    → find_in_file_list e files ≡ some (i, fl)
    → (get_elem? files i ≡ some fl) × (equals_file fl.file (wanted e) ≡ true)
unfolding find_in_file_list
find-some e files i fl h =
    let (k, p, q, r) = find_from-some (wanted e) 0 files i fl (ground arith) in (ground arith, r)

pub find-none :
    (e : Event) (files : List FileList)
    → IsHandled e
    → find_in_file_list e files ≡ none
    → All (λ fl. equals_file fl.file (wanted e) ≡ false) files
unfolding find_in_file_list
find-none e files handled h = find_from-none (wanted e) 0 files (ground (arith, copied e handled))
