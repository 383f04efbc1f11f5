-- ===== src/Daemon/Reader/Reports.antt =====
-- Which events the tests of a round let through.
use watch_it.Base.{
  ℕ, ◌≡◌, sym, ◌∙◌, true, some, some-inj, ◌⊎◌, refl, none, not, ◌&&◌, arith, inl, inr, Bool-cases,
  Option-cases, ◌==◌,
}
use watch_it.Base.Words.{has_bits}
use watch_it.CString.{Str}
use watch_it.Handling.Types.{Event}
use watch_it.Daemon.Table.{Table, WdNameTuple, find_in_map}
use watch_it.Daemon.Reader.{
  InotifyEvent, filter_event, stamped, next_event, watch_dir, watch_content, in_isdir,
}

-- By its tuple, an event may be handed over with a name: that of the directory itself where it is
-- watched, or any where its content is.
abbrev pub Allows : WdNameTuple → Str → Type 0
Allows tuple name =
    (has_bits tuple.type watch_dir ≡ true) × (name ≡ tuple.name)
    ⊎ (has_bits tuple.type watch_content ≡ true)

-- By the table, an event may be handed over for a descriptor with a name.
abbrev pub Reports : Table → ℕ → Str → Type 0
Reports table id name =
    (tuple : WdNameTuple) × (find_in_map id table ≡ some tuple) × Allows tuple name

filter_event-Allows :
    (e : InotifyEvent) (tuple : WdNameTuple) (name : Str)
    → filter_event e tuple ≡ some name
    → Allows tuple name
unfolding filter_event
filter_event-Allows e tuple name h = elim (Bool-cases (e.len == 0)) [
  | inl nameless ↦ inl (ground (arith, nameless), ground (arith, nameless))
  | inr named ↦ inr (ground (arith, named))
]

pub next_event-known :
    (table : Table) (e : InotifyEvent) (tuple : WdNameTuple) (name : Str)
    → find_in_map e.wd table ≡ some tuple
    → filter_event e tuple ≡ some name
    → next_event table e ≡ some (stamped e tuple name)
unfolding next_event
next_event-known table e tuple name known kept = ground (arith, known, kept)

pub next_event-Reports :
    (table : Table) (e : InotifyEvent) (f : ℕ → Event) (tick : ℕ)
    → next_event table e ≡ some f
    → Reports table (f tick).id (f tick).name
unfolding next_event
next_event-Reports table e f tick h = elim (Option-cases (find_in_map e.wd table)) [
  | inl unknown ↦ absurd (ground (arith, unknown))
  | inr (tuple, known) ↦ elim (Option-cases (filter_event e tuple)) [
    | inl dropped ↦ absurd (ground (arith, known, dropped))
    | inr (name, kept) ↦
        let same : stamped e tuple name ≡ f =
          some-inj (sym (next_event-known table e tuple name known kept) ∙ h) in
        rw (← same) (tuple, known, filter_event-Allows e tuple name kept)
  ]
]

-- `event_name` is empty, or is copied from the tuple or from the event.
pub filter_event-copied :
    (e : InotifyEvent) (tuple : WdNameTuple)
    → (filter_event e tuple ≡ none)
      ⊎ ((name : Str) × (filter_event e tuple ≡ some name)
          × ((name ≡ tuple.name) ⊎ (name ≡ e.name)))
unfolding filter_event
filter_event-copied e tuple = elim (Bool-cases (e.len == 0)) [
  | inl nameless ↦ elim (Bool-cases (has_bits tuple.type watch_dir)) [
    | inl wanted ↦ inr (tuple.name, ground (arith, nameless, wanted), inl refl)
    | inr other ↦ inl (ground (arith, nameless, other))
  ]
  | inr named ↦
      elim (Bool-cases (has_bits tuple.type watch_content && not (has_bits e.mask in_isdir))) [
        | inl wanted ↦ inr (e.name, ground (arith, named, wanted), inr refl)
        | inr other ↦ inl (ground (arith, named, other))
      ]
]
