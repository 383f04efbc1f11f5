-- ===== src/Handling/Lookup/Examples.antt =====
-- The theorem about reordered events at concrete inputs.
use watch_it.Base.{refl, [], ◌∷◌, arith}
use watch_it.CString.{strcmp_eq}
use watch_it.Handling.Invariant.Defs.{Inv}
use watch_it.Handling.Types.{Event}
use watch_it.Handling.Files.{equals_file, copy_event_to_file, is_close_event, is_open_event}
use watch_it.Handling.Lookup.Unordered.{SameView}
use watch_it.Handling.Lookup.Reorder.{add_all, swap, add_all-Reorder}
use watch_it.Handling.Consumer.Examples.{steady-ShowsAt}
use watch_it.Handling.Samples.{steady, fresh, opened, closed, empty-Inv}

-- The same name in another directory.
abbrev elsewhere : Event
elsewhere = record opened { id = 2 }

add_all-Reorder_example :
    let xs = (add_all steady (opened ∷ elsewhere ∷ closed ∷ []) fresh).file_event_list in
    let ys = (add_all steady (elsewhere ∷ opened ∷ closed ∷ []) fresh).file_event_list in
    Inv xs × Inv ys × SameView xs ys
unfolding equals_file copy_event_to_file is_close_event is_open_event strcmp_eq
add_all-Reorder_example =
    add_all-Reorder steady 100000000 steady-ShowsAt (λ n. refl)
      (swap opened elsewhere (closed ∷ []) refl) fresh (omega arith) empty-Inv
