-- ===== src/CString.antt =====
-- The C library's string functions, as the source uses them, on the bytes of a string before its
-- terminating zero. A pointer into a string is an offset.
pub mod Search
pub mod Tokens
use watch_it.Base.{
  ℕ, zero, suc, ◌+◌, ◌≡◌, refl, Bool, true, false, ◌&&◌, ◌||◌, List, [], ◌∷◌, Option, none, some,
  length, leb, ◌==◌, if◌then◌else◌, arith, ◌≤◌,
}
use mathlib.Core.Option
use Prim.Native.Char.{code}
use Prim.Native.String.{String}

abbrev pub Str : Type 0
Str = List ℕ

-- A string literal.
abbrev pub codes : String → Str
codes String.[] = []
codes (String.◌∷◌ c s) = code c ∷ codes s

-- `!strcmp(a, b)`
unfoldable pub strcmp_eq : Str → Str → Bool
strcmp_eq [] [] = true
strcmp_eq [] (y ∷ ys) = false
strcmp_eq (x ∷ xs) [] = false
strcmp_eq (x ∷ xs) (y ∷ ys) = x == y && strcmp_eq xs ys

-- `s` begins with `p`.
unfoldable pub starts_with : Str → Str → Bool
starts_with [] s = true
starts_with (c ∷ p) [] = false
starts_with (c ∷ p) (x ∷ s) = x == c && starts_with p s

-- `strstr(hay, needle)`: the offset of the first occurrence.
unfoldable pub strstr : Str → Str → Option ℕ
unfolding starts_with
strstr [] needle = if starts_with needle [] then some 0 else none
strstr (x ∷ xs) needle =
    let later = Option.map suc (strstr xs needle) in
    if starts_with needle (x ∷ xs) then some 0 else later

-- `tolower` on an ASCII byte.
abbrev pub to_lower : ℕ → ℕ
to_lower c = if leb b'A' c && leb c b'Z' then c + 32 else c

-- `strcasecmp(a, b) == 0`
unfoldable pub strcasecmp_eq : Str → Str → Bool
strcasecmp_eq [] [] = true
strcasecmp_eq [] (y ∷ ys) = false
strcasecmp_eq (x ∷ xs) [] = false
strcasecmp_eq (x ∷ xs) (y ∷ ys) = to_lower x == to_lower y && strcasecmp_eq xs ys

unfoldable pub is_delimiter : Str → ℕ → Bool
is_delimiter [] c = false
is_delimiter (d ∷ ds) c = c == d || is_delimiter ds c

-- A token in front of the others; an empty one is no token.
push_token : Str × List Str → List Str
push_token ([], tokens) = tokens
push_token (c ∷ token, tokens) = (c ∷ token) ∷ tokens

-- The token that the string begins with, which may be empty, and the tokens after it.
split_tokens : Str → Str → Str × List Str
unfolding is_delimiter push_token
split_tokens delimiters [] = ([], [])
split_tokens delimiters (c ∷ s) =
    let later = split_tokens delimiters s in
    if is_delimiter delimiters c then ([], push_token later) else (c ∷ later.0, later.1)

-- What `strtok(s, delimiters)` and then `strtok(NULL, delimiters)` return, up to NULL.
unfoldable pub strtok_all : Str → Str → List Str
unfolding split_tokens
strtok_all delimiters s = push_token (split_tokens delimiters s)
