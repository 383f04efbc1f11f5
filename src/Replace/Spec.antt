-- ===== src/Replace/Spec.antt =====
-- What `str_replace` is to compute: one scan from left to right that puts `with` for each
-- occurrence of `rep` and goes on behind it; and that its two loops do so.
use watch_it.Base.{
  ◌⊎◌, ◌^◌, if-rule, ℕ, zero, suc, ◌+◌, ◌-◌, ◌*◌, ◌<◌, ◌≤◌, ◌≡◌, refl, sym, ap, ◌∙◌, inl, inr, [],
  ◌∷◌, ◌++◌, append_assoc, none, some, length, length-drop, length-append, take, drop,
  if◌then◌else◌, Option-cases, Bool-cases, arith,
}
use watch_it.CString.{Str, starts_with, strstr}
use watch_it.CString.Search.{starts_with-length, strstr-bound}
use watch_it.Replace.{Replaced, result, overflow, fits, count_loop, copy_loop}

-- The scan, with the number of bytes still to skip of the last occurrence.
unfoldable pub scan : Str → Str → ℕ → Str → Str
scan rep with skip [] = []
scan rep with (suc skip) (x ∷ s) = scan rep with skip s
scan rep with zero (x ∷ s) =
    let onward = scan rep with 0 s in
    let jump = scan rep with (length rep - 1) s in
    if starts_with rep (x ∷ s) then with ++ jump else x ∷ onward

-- How many occurrences the scan replaces.
pub hits : Str → ℕ → Str → ℕ
hits rep skip [] = 0
hits rep (suc skip) (x ∷ s) = hits rep skip s
hits rep zero (x ∷ s) =
    let onward = hits rep 0 s in
    let jump = hits rep (length rep - 1) s in if starts_with rep (x ∷ s) then suc jump else onward

abbrev pub replace_all : Str → Str → Str → Str
replace_all rep with s = scan rep with 0 s

abbrev pub occurrences : Str → Str → ℕ
occurrences rep s = hits rep 0 s

drop-shift : (k n x : ℕ) (s : Str) → drop (suc k + n) (x ∷ s) ≡ drop (k + n) s
drop-shift k n x s = ap (λ i. drop i (x ∷ s)) (suc-add k n)
  where
    suc-add : (a b : ℕ) → suc a + b ≡ suc (a + b)
    suc-add a b = omega arith

module _ (c : ℕ) (p : Str) where
  abbrev rep : Str
  rep = c ∷ p

  hits-skip : (k : ℕ) (s : Str) → hits rep k s ≡ hits rep 0 (drop k s)
  unfolding hits
  hits-skip zero [] = refl
  hits-skip (suc k) [] = refl
  hits-skip zero (x ∷ s) = refl
  hits-skip (suc k) (x ∷ s) = hits-skip k s

  hits-none : (s : Str) → strstr s rep ≡ none → hits rep 0 s ≡ 0
  unfolding hits strstr
  hits-none [] h = refl
  hits-none (x ∷ s) h = ground (arith, hits-none s)

  pub hits-some :
      (s : Str) (k : ℕ)
      → strstr s rep ≡ some k
      → hits rep 0 s ≡ suc (hits rep 0 (drop (k + length rep) s))
  unfolding hits strstr starts_with
  hits-some [] k h = cc
  hits-some (x ∷ s) zero h = ground (arith, hits-skip (length p) s)
  hits-some (x ∷ s) (suc k) h = ground (arith, hits-some s k, drop-shift k (length rep) x s)

  module _ (with : Str) where
    scan-skip : (k : ℕ) (s : Str) → scan rep with k s ≡ scan rep with 0 (drop k s)
    unfolding scan
    scan-skip zero [] = refl
    scan-skip (suc k) [] = refl
    scan-skip zero (x ∷ s) = refl
    scan-skip (suc k) (x ∷ s) = scan-skip k s

    pub scan-none : (s : Str) → strstr s rep ≡ none → scan rep with 0 s ≡ s
    unfolding scan strstr
    scan-none [] h = refl
    scan-none (x ∷ s) h = ground (arith, scan-none s)

    scan-some :
        (s : Str) (k : ℕ)
        → strstr s rep ≡ some k
        → scan rep with 0 s ≡ take k s ++ with ++ scan rep with 0 (drop (k + length rep) s)
    unfolding scan strstr starts_with
    scan-some [] k h = cc
    scan-some (x ∷ s) zero h = ground (arith, scan-skip (length p) s)
    scan-some (x ∷ s) (suc k) h = ground (arith, scan-some s k, drop-shift k (length rep) x s)

    regroup :
        (out : Str) (k : ℕ) (s : Str)
        → (out ++ take k s ++ with) ++ scan rep with 0 (drop (k + length rep) s)
          ≡ out ++ (take k s ++ with ++ scan rep with 0 (drop (k + length rep) s))
    regroup out k s = simp append_assoc

    -- A round of the copying loop.
    copy_round :
        (size n k : ℕ) (out orig : Str)
        → strstr orig rep ≡ some k
        → copy_loop size (suc n) out orig rep with ≡ (
            if fits k
            then copy_loop size n (out ++ take k orig ++ with) (drop (k + length rep) orig) rep with
            else overflow)
    unfolding copy_loop
    copy_round size n k out orig e = rw (e, copy_loop) refl

    copy_done :
        (size k : ℕ) (out orig : Str)
        → strstr orig rep ≡ some k
        → result size ((out ++ take k orig ++ with) ++ scan rep with 0 (drop (k + length rep) orig))
          ≡ result size (out ++ scan rep with 0 orig)
    copy_done size k out orig e =
        ap (result size) (regroup out k orig ∙ ap (◌++◌ out) (sym (scan-some orig k e)))

    -- The copying loop, run as often as `rep` occurs, writes the scan, unless an `int` overflows.
    pub copy_loop-scan :
        (size n : ℕ) (out orig : Str)
        → hits rep 0 orig ≡ n
        → (copy_loop size n out orig rep with ≡ overflow)
          ⊎ (copy_loop size n out orig rep with ≡ result size (out ++ scan rep with 0 orig))
    copy_loop-scan size zero out orig h = elim (Option-cases (strstr orig rep)) [
      | inl none_left ↦ inr (rw (scan-none orig none_left) (unfold copy_loop in refl))
      | inr (k, e) ↦ absurd (omega (arith, h, hits-some orig k e))
    ]
    copy_loop-scan size (suc n) out orig h = elim (Option-cases (strstr orig rep)) [
      | inl none_left ↦ absurd (omega (arith, h, hits-none orig none_left))
      | inr (k, e) ↦ rw (copy_round size n k out orig e) (
          if-rule
            (λ (r : Replaced). (r ≡ overflow) ⊎ (r ≡ result size (out ++ scan rep with 0 orig)))
            (fits k) _ _
            (λ _.
              elim (copy_loop-scan size n (out ++ take k orig ++ with) (drop (k + length rep) orig)
                (omega (arith, h, hits-some orig k e))) [
                  | inl over ↦ inl over
                  | inr done ↦ inr (done ∙ copy_done size k out orig e)
                ])
            (λ _. inl refl))
    ]

    -- None does in a short string.
    pub copy_loop-short :
        (size n : ℕ) (out orig : Str)
        → hits rep 0 orig ≡ n
        → length orig < 2 ^ 31
        → copy_loop size n out orig rep with ≡ result size (out ++ scan rep with 0 orig)
    copy_loop-short size zero out orig h short = elim (Option-cases (strstr orig rep)) [
      | inl none_left ↦ rw (scan-none orig none_left) (unfold copy_loop in refl)
      | inr (k, e) ↦ absurd (omega (arith, h, hits-some orig k e))
    ]
    copy_loop-short size (suc n) out orig h short = elim (Option-cases (strstr orig rep)) [
      | inl none_left ↦ absurd (omega (arith, h, hits-none orig none_left))
      | inr (k, e) ↦
          let bound = strstr-bound orig rep k e in
          let onward =
            copy_loop-short size n (out ++ take k orig ++ with) (drop (k + length rep) orig)
              (omega (arith, h, hits-some orig k e))
              (omega (arith, short, length-drop (k + length rep) orig)) in
          rw (copy_round size n k out orig e) (
            if-rule (λ (r : Replaced). r ≡ result size (out ++ scan rep with 0 orig)) (fits k) _ _
              (λ _. onward ∙ copy_done size k out orig e)
              (λ over. absurd (ground (arith, over, bound, short))))
    ]

  -- The counting loop ends within as many rounds as the string has bytes, and counts right.
  pub count_loop-hits :
      (fuel : ℕ) (ins : Str) (count : ℕ)
      → length ins < fuel
      → count_loop fuel ins rep count ≡ some (count + hits rep 0 ins)
  unfolding count_loop
  count_loop-hits zero ins count h = absurd (omega arith)
  count_loop-hits (suc fuel) ins count h = elim (Option-cases (strstr ins rep)) [
    | inl none_left ↦ rw (none_left, count_loop) (ap some (omega (arith, hits-none ins none_left)))
    | inr (k, e) ↦
        rw (e, count_loop)
          (count_loop-hits fuel (drop (k + length rep) ins) (suc count)
              (omega (arith, length-drop (k + length rep) ins, strstr-bound ins rep k e))
            ∙ ap some (omega (arith, hits-some ins k e)))
  ]

  -- Counting may start at the first occurrence.
  pub hits-first : (s : Str) (k : ℕ) → strstr s rep ≡ some k → hits rep 0 (drop k s) ≡ hits rep 0 s
  unfolding hits strstr
  hits-first [] zero h = refl
  hits-first [] (suc k) h = refl
  hits-first (x ∷ s) zero h = refl
  hits-first (x ∷ s) (suc k) h = ground (arith, hits-first s k)

  -- The length of the result, for a scan that starts with `k` bytes to skip.
  pub length-scan :
      (with : Str) (k : ℕ) (s : Str)
      → k ≤ length s
      → length (scan rep with k s) + k + length rep * hits rep k s
        ≡ length s + length with * hits rep k s
  unfolding scan hits starts_with
  length-scan with zero [] h = omega arith
  length-scan with (suc k) [] h = absurd (omega arith)
  length-scan with (suc k) (x ∷ s) h = omega (arith, length-scan with k s (omega arith))
  length-scan with zero (x ∷ s) h = elim (Bool-cases (starts_with rep (x ∷ s))) [
    | inl here ↦ rw here (
        omega (
          arith,
          length-append with (scan rep with (length rep - 1) s),
          length-scan with (length rep - 1) s (omega (arith, starts_with-length rep (x ∷ s) here)),
        ))
    | inr other ↦ rw other (omega (arith, length-scan with 0 s (omega arith)))
  ]
