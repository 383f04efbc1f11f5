-- ===== src/Handling/Lookup/Reorder.antt =====
-- A burst of events in another order.
use watch_it.Base.{ℕ, ◌≤◌, ◌≡◌, refl, sym, ◌∙◌, false, List, [], ◌∷◌}
use watch_it.Handling.Types.{State, Env, Event}
use watch_it.Handling.Files.{equals_file}
use watch_it.Handling.Files.Find.{wanted}
use watch_it.Handling.Commands.Effect.{Grants}
use watch_it.Handling.Add.{add_event}
use watch_it.Handling.Add.Quiet.{add_event-IsQuiet}
use watch_it.Handling.Consumer.Shortened.{ShowsAt}
use watch_it.Handling.Invariant.Defs.{Inv}
use watch_it.Handling.Invariant.Produced.{add_event-Inv}
use watch_it.Handling.Lookup.Commute.{event-view, add_event-within}
use watch_it.Handling.Lookup.Unordered.{SameView, swap-SameView}

-- The events one after the other.
unfoldable pub add_all : Env → List Event → State → State
add_all env [] s = s
add_all env (e ∷ es) s = add_all env es (add_event env e s).0

-- Neighbours that are for different files may change places, so the events of each file keep their
-- order.
pub data Reorder : List Event → List Event → Type 0 where
  done : Reorder [] []
  keep : {es fs : List Event} (e : Event) → Reorder es fs → Reorder (e ∷ es) (e ∷ fs)
  swap :
      (e f : Event) (es : List Event)
      → equals_file (wanted e) (wanted f) ≡ false
      → Reorder (e ∷ f ∷ es) (f ∷ e ∷ es)
  both : {es fs gs : List Event} → Reorder es fs → Reorder fs gs → Reorder es gs

module _ (env : Env) (now : ℕ) (clock : ShowsAt env now) (grants : Grants env) where
  -- The list is sound, and no tick is above the clock.
  record IsCalm (s : State) : Type 0 where
    within : s.last_tick ≤ now
    inv : Inv s.file_event_list

  add-IsCalm : (e : Event) (s : State) → IsCalm s → IsCalm (add_event env e s).0
  add-IsCalm e s c = record {
    within = add_event-within env now clock grants e s c.within;
    inv = add_event-Inv env e s c.inv;
  }

  -- Two such states with the same delay and the same entries.
  record Alike (s t : State) : Type 0 where
    left : IsCalm s
    right : IsCalm t
    delay : s.max_delay_before_fire ≡ t.max_delay_before_fire
    view : SameView s.file_event_list t.file_event_list

  Alike-refl : (s : State) → IsCalm s → Alike s s
  Alike-refl s c = record { left = c; right = c; delay = refl; view = λ k. refl }

  Alike-trans : {s t u : State} → Alike s t → Alike t u → Alike s u
  Alike-trans p q = record {
    left = p.left;
    right = q.right;
    delay = p.delay ∙ q.delay;
    view = λ k. p.view k ∙ q.view k;
  }

  add-Alike :
      (e : Event) (s t : State) → Alike s t → Alike (add_event env e s).0 (add_event env e t).0
  add-Alike e s t a = record {
    left = add-IsCalm e s a.left;
    right = add-IsCalm e t a.right;
    delay = (add_event-IsQuiet env e s).delay ∙ a.delay ∙ sym (add_event-IsQuiet env e t).delay;
    view = λ k.
        event-view env now clock grants e s k a.left.within a.left.inv
        ∙ rw (a.delay, a.view (wanted e), a.view k) refl
        ∙ sym (event-view env now clock grants e t k a.right.within a.right.inv);
  }

  add_all-Alike :
      (es : List Event) (s t : State) → Alike s t → Alike (add_all env es s) (add_all env es t)
  unfolding add_all
  add_all-Alike [] s t a = a
  add_all-Alike (e ∷ es) s t a = add_all-Alike es _ _ (add-Alike e s t a)

  swap-Alike :
      (e f : Event) (s : State)
      → equals_file (wanted e) (wanted f) ≡ false
      → IsCalm s
      → Alike (add_event env f (add_event env e s).0).0 (add_event env e (add_event env f s).0).0
  swap-Alike e f s other c =
      let se : State = (add_event env e s).0 in
      let sf : State = (add_event env f s).0 in
      record {
        left = add-IsCalm f se (add-IsCalm e s c);
        right = add-IsCalm e sf (add-IsCalm f s c);
        delay =
            (add_event-IsQuiet env f se).delay
            ∙ (add_event-IsQuiet env e s).delay
            ∙ sym (add_event-IsQuiet env f s).delay
            ∙ sym (add_event-IsQuiet env e sf).delay;
        view = swap-SameView env now clock grants e f s c.within c.inv other;
      }

  Reorder-Alike :
      {es fs : List Event}
      → Reorder es fs
      → (s : State) → IsCalm s
      → Alike (add_all env es s) (add_all env fs s)
  unfolding add_all
  Reorder-Alike done s c = Alike-refl s c
  Reorder-Alike (keep e r) s c = Reorder-Alike r (add_event env e s).0 (add-IsCalm e s c)
  Reorder-Alike (swap e f es other) s c = add_all-Alike es _ _ (swap-Alike e f s other c)
  Reorder-Alike (both p q) s c = Alike-trans (Reorder-Alike p s c) (Reorder-Alike q s c)

  -- With a clock that stands and no failed allocation: when events are added to a sound list, no
  -- tick being above the clock's, in another order in which the events of each file come in the
  -- same order as before, both resulting lists are sound, so that neither has two entries for one
  -- file, and for every file they have the same entry or none.
  pub add_all-Reorder :
      {es fs : List Event}
      → Reorder es fs
      → (s : State) → s.last_tick ≤ now
      → Inv s.file_event_list
      → Inv (add_all env es s).file_event_list
        × Inv (add_all env fs s).file_event_list
        × SameView (add_all env es s).file_event_list (add_all env fs s).file_event_list
  add_all-Reorder r s h v =
      let alike = Reorder-Alike r s (record { within = h; inv = v }) in
      (alike.left.inv, alike.right.inv, alike.view)
