-- ===== src/Handling/Consumer/Sweep.antt =====
-- The second loop of a round.
use watch_it.Base.{
  ◌∙◌, ◌≡◌, refl, ap, List, [], ◌∷◌, All, if◌then◌else◌, if-rule, arith, Bool-cases, inl, inr,
}
use watch_it.Handling.Types.{State, FileList, free}
use watch_it.Handling.Add.Quiet.{IsQuiet, IsQuiet-trans}
use watch_it.Handling.Consumer.{sweep}

-- The entries that the second loop leaves.
abbrev pub survivors : List FileList → List FileList
survivors [] = []
survivors (x ∷ rest) = if x.remove then survivors rest else x ∷ survivors rest

pub sweep-survivors : (files : List FileList) (s : State) → (sweep files s).1 ≡ survivors files
unfolding sweep
sweep-survivors [] s = refl
sweep-survivors (x ∷ rest) s =
    ap (λ (kept : List FileList). if x.remove then kept else x ∷ kept) (sweep-survivors rest _)

pub All-survivors :
    (P : FileList → Type 0) (files : List FileList) → All P files → All P (survivors files)
All-survivors P [] h = tt
All-survivors P (x ∷ rest) h =
    let later = All-survivors P rest h.1 in
    if-rule (All P) x.remove _ _ (λ _. later) (λ _. (h.0, later))

-- It runs no command.
pub sweep-IsQuiet : (files : List FileList) (s : State) → IsQuiet s (sweep files s).0
unfolding sweep
sweep-IsQuiet [] s = ground arith
sweep-IsQuiet (x ∷ rest) s = elim (Bool-cases x.remove) [
  | inl marked ↦ rw marked (
      IsQuiet-trans {t = free (free (free s))} (ground arith)
        (sweep-IsQuiet rest (free (free (free s)))))
  | inr kept ↦ rw kept (sweep-IsQuiet rest s)
]

pub sweep-last_tick :
    (files : List FileList) (s : State) → (sweep files s).0.last_tick ≡ s.last_tick
unfolding sweep
sweep-last_tick [] s = refl
sweep-last_tick (x ∷ rest) s =
    sweep-last_tick rest (if x.remove then free (free (free s)) else s)
    ∙ if-rule (λ (t : State). t.last_tick ≡ s.last_tick) x.remove _ _ (λ _. refl) (λ _. refl)
