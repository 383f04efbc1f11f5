-- ===== src/Replace/Bounds.antt =====
-- `str_replace` as a whole: its result, the exact size of its buffer, and its NULL cases.
use watch_it.Base.{
  ◌≤◌, ◌*◌, ◌⊎◌, ◌&&◌, if◌then◌else◌, if-rule, ltb, leb, lt→ltb, ℕ, suc, ◌+◌, ◌<◌, ◌^◌, ◌≡◌, refl,
  ap, ◌∙◌, ◌≢◌, inl, inr, Bool, true, false, [], ◌∷◌, Option, some, length, drop, Option-cases,
  arith, length-drop,
}
use watch_it.CString.{Str, strstr}
use watch_it.CString.Search.{strstr-bound}
use watch_it.Replace.{
  Replaced, overflow, fits, product_fits, copy_loop, null, result, fault, count_loop, alloc_size,
  or_empty, str_replace,
}
use watch_it.Replace.Spec.{
  hits, replace_all, hits-some, copy_loop-scan, copy_loop-short, count_loop-hits, hits-first,
  length-scan,
}

le_mul : (a m : ℕ) → a ≤ a * suc m
le_mul a m = omega arith

mul_le : (a n : ℕ) → n ≤ suc a * n
mul_le a n = omega arith

module _ (c : ℕ) (p : Str) where
  counted :
      (orig : Str) (k : ℕ)
      → strstr orig (c ∷ p) ≡ some k
      → count_loop (suc (length orig)) (drop k orig) (c ∷ p) 0 ≡ some (hits (c ∷ p) 0 orig)
  counted orig k e =
      count_loop-hits c p (suc (length orig)) (drop k orig) 0 (omega (arith, length-drop k orig))
      ∙ ap some (omega (arith, hits-first c p orig k e))

  -- The size asked for is the bytes of the result and its terminating zero.
  exact_size :
      (orig with : Str)
      → length orig < 2 ^ 64
      → length (replace_all (c ∷ p) with orig) + 1 < 2 ^ 64
      → alloc_size orig (c ∷ p) with (hits (c ∷ p) 0 orig)
        ≡ suc (length (replace_all (c ∷ p) with orig))
  unfolding alloc_size
  exact_size orig with room h =
      omega
        (arith, length-scan c p with 0 orig (omega arith), length-scan c p [] 0 orig (omega arith))

  -- How the call on an `orig` that holds `rep` goes on from the count.
  found_counted :
      (granted : Bool) (orig : Str) (with : Option Str) (k : ℕ)
      → strstr orig (c ∷ p) ≡ some k
      → let n = hits (c ∷ p) 0 orig in
        let text = or_empty with in
        str_replace granted (some orig) (some (c ∷ p)) with ≡ (
          if fits (length (c ∷ p))
            && (fits (length text) && (fits n && product_fits (c ∷ p) text n))
          then (if granted
              then copy_loop (alloc_size orig (c ∷ p) text n) n [] orig (c ∷ p) text
              else null)
          else overflow)
  unfolding str_replace
  found_counted granted orig with k e = ground (arith, e, counted orig k e)

  -- Either an `int` overflows, or every occurrence is replaced.
  pub str_replace-scan :
      (orig : Str) (with : Option Str) (k : ℕ)
      → strstr orig (c ∷ p) ≡ some k
      → (str_replace true (some orig) (some (c ∷ p)) with ≡ overflow)
        ⊎ (str_replace true (some orig) (some (c ∷ p)) with
            ≡ result
                (alloc_size orig (c ∷ p) (or_empty with) (hits (c ∷ p) 0 orig))
                (replace_all (c ∷ p) (or_empty with) orig))
  str_replace-scan orig with k e =
      let n = hits (c ∷ p) 0 orig in
      rw (found_counted true orig with k e) (
        if-rule
          (λ (r : Replaced).
            (r ≡ overflow)
            ⊎ (r
                ≡ result (alloc_size orig (c ∷ p) (or_empty with) n)
                    (replace_all (c ∷ p) (or_empty with) orig)))
          (fits (length (c ∷ p))
            && (fits (length (or_empty with))
                && (fits n && product_fits (c ∷ p) (or_empty with) n)))
          _ _
          (λ _.
            copy_loop-scan c p (or_empty with) (alloc_size orig (c ∷ p) (or_empty with) n) n [] orig
              refl)
          (λ _. inl refl))

  -- Without memory the result is NULL, unless an `int` overflows.
  pub str_replace-refused :
      (orig : Str) (with : Option Str) (k : ℕ)
      → strstr orig (c ∷ p) ≡ some k
      → (str_replace false (some orig) (some (c ∷ p)) with ≡ overflow)
        ⊎ (str_replace false (some orig) (some (c ∷ p)) with ≡ null)
  str_replace-refused orig with k e = rw (found_counted false orig with k e) (
      if-rule (λ (r : Replaced). (r ≡ overflow) ⊎ (r ≡ null)) _ _ _ (λ _. inr refl) (λ _. inl refl))

  -- In short strings every `int` fits.
  all_fit :
      (orig with : Str) (k : ℕ)
      → strstr orig (c ∷ p) ≡ some k
      → length orig < 2 ^ 31
      → length (replace_all (c ∷ p) with orig) < 2 ^ 31
      → let n = hits (c ∷ p) 0 orig in
        (fits (length (c ∷ p)) && (fits (length with) && (fits n && product_fits (c ∷ p) with n)))
        ≡ true
  all_fit orig with k e short fitting =
      let n = hits (c ∷ p) 0 orig in
      let m = hits (c ∷ p) 0 (drop (k + length (c ∷ p)) orig) in
      let some_hit : n ≡ suc m = hits-some c p orig k e in
      let once : length with ≤ length with * n = rw some_hit (le_mul (length with) m) in
      let bytes : length (c ∷ p) ≤ length orig = omega (arith, strstr-bound orig (c ∷ p) k e) in
      let each : n ≤ length (c ∷ p) * n = mul_le (length p) n in
      let whole = length-scan c p with 0 orig (omega arith) in
      let erased = length-scan c p [] 0 orig (omega arith) in
      let w : fits (length with) ≡ true =
        lt→ltb _ _ (omega (arith, once, whole, erased, fitting)) in
      let r : fits (length (c ∷ p)) ≡ true = lt→ltb _ _ (omega (arith, bytes, short)) in
      let h : fits n ≡ true = lt→ltb _ _ (omega (arith, each, erased, short)) in
      let up : ltb (length with * n) (length (c ∷ p) * n + 2 ^ 31) ≡ true =
        lt→ltb _ _ (omega (arith, whole, erased, fitting)) in
      let down : leb (length (c ∷ p) * n) (length with * n + 2 ^ 31) ≡ true =
        ground (arith, whole, erased, short) in
      rw (r, w, h, up, down) refl

  -- If `rep` is not empty and occurs in `orig`, the allocation succeeds, and both `orig` and the
  -- result are shorter than 2 ^ 31 bytes, `str_replace` returns `orig` with every occurrence
  -- replaced, from left to right, and has asked for exactly the bytes that it writes.
  pub str_replace-found :
      (orig : Str) (with : Option Str) (k : ℕ)
      → strstr orig (c ∷ p) ≡ some k
      → length orig < 2 ^ 31
      → length (replace_all (c ∷ p) (or_empty with) orig) < 2 ^ 31
      → str_replace true (some orig) (some (c ∷ p)) with
        ≡ result
            (suc (length (replace_all (c ∷ p) (or_empty with) orig)))
            (replace_all (c ∷ p) (or_empty with) orig)
  str_replace-found orig with k e short fitting =
      let n = hits (c ∷ p) 0 orig in
      found_counted true orig with k e
      ∙ rw (all_fit orig (or_empty with) k e short fitting) (
          copy_loop-short c p (or_empty with) (alloc_size orig (c ∷ p) (or_empty with) n) n [] orig
            refl short)
      ∙ ap (λ n. result n (replace_all (c ∷ p) (or_empty with) orig))
          (exact_size orig (or_empty with) (omega (arith, short)) (omega (arith, fitting)))

  found-ne-fault :
      (granted : Bool) (orig : Str) (with : Option Str) (k : ℕ)
      → strstr orig (c ∷ p) ≡ some k
      → length orig < 2 ^ 31
      → length (replace_all (c ∷ p) (or_empty with) orig) < 2 ^ 31
      → (str_replace granted (some orig) (some (c ∷ p)) with ≢ fault)
        × (str_replace granted (some orig) (some (c ∷ p)) with ≢ overflow)
  found-ne-fault true orig with k e short fitting =
      let done = str_replace-found orig with k e short fitting in
      ((λ f. cc (f, done)), (λ f. cc (f, done)))
  found-ne-fault false orig with k e short fitting =
      let done : str_replace false (some orig) (some (c ∷ p)) with ≡ null =
        found_counted false orig with k e
        ∙ rw (all_fit orig (or_empty with) k e short fitting) refl in
      ((λ f. cc (f, done)), (λ f. cc (f, done)))

-- If `rep` is not empty, and `orig`, `rep` and `orig` with every occurrence replaced are shorter than
-- 2 ^ 31 bytes, whether or not `rep` occurs and the allocation succeeds: neither loop runs out of
-- fuel or uses a NULL `ins`, and no `int` overflows.
pub str_replace-ne-fault :
    (granted : Bool) (orig : Str) (c : ℕ) (p : Str) (with : Option Str)
    → length orig < 2 ^ 31
    → length (c ∷ p) < 2 ^ 31
    → length (replace_all (c ∷ p) (or_empty with) orig) < 2 ^ 31
    → (str_replace granted (some orig) (some (c ∷ p)) with ≢ fault)
      × (str_replace granted (some orig) (some (c ∷ p)) with ≢ overflow)
str_replace-ne-fault granted orig c p with short rep_short fitting =
    elim (Option-cases (strstr orig (c ∷ p))) [
      | inl missing ↦
          let done : str_replace granted (some orig) (some (c ∷ p)) with ≡ null =
            unfold str_replace in ground (arith, missing, rep_short) in
          ((λ f. cc (f, done)), (λ f. cc (f, done)))
      | inr (k, e) ↦ found-ne-fault c p granted orig with k e short fitting
    ]
