-- ===== src/CString/Search.antt =====
-- Facts about `strcmp` and `strstr`.
use watch_it.Base.{ℕ, zero, suc, ◌+◌, ◌≤◌, ◌≡◌, refl, true, [], ◌∷◌, some, length, arith}
use watch_it.CString.{Str, strcmp_eq, starts_with, strstr}

pub strcmp_eq→eq : (a b : Str) → strcmp_eq a b ≡ true → a ≡ b
unfolding strcmp_eq
strcmp_eq→eq [] [] h = refl
strcmp_eq→eq [] (y ∷ ys) h = cc
strcmp_eq→eq (x ∷ xs) [] h = cc
strcmp_eq→eq (x ∷ xs) (y ∷ ys) h = ground (arith, strcmp_eq→eq xs ys)

pub strcmp_eq_refl : (a : Str) → strcmp_eq a a ≡ true
unfolding strcmp_eq
strcmp_eq_refl [] = refl
strcmp_eq_refl (x ∷ xs) = ground (arith, strcmp_eq_refl xs)

pub starts_with-length : (p s : Str) → starts_with p s ≡ true → length p ≤ length s
unfolding starts_with
starts_with-length [] s h = omega arith
starts_with-length (c ∷ p) [] h = absurd (cc)
starts_with-length (c ∷ p) (x ∷ s) h = ground (arith, starts_with-length p s)

-- An occurrence lies inside the string.
pub strstr-bound :
    (hay needle : Str) (k : ℕ) → strstr hay needle ≡ some k → k + length needle ≤ length hay
unfolding strstr
strstr-bound [] needle k h = ground (arith, starts_with-length needle [])
strstr-bound (x ∷ xs) needle zero h = ground (arith, starts_with-length needle (x ∷ xs))
strstr-bound (x ∷ xs) needle (suc k) h = ground (arith, strstr-bound xs needle k)
