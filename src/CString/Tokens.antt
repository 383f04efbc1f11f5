-- ===== src/CString/Tokens.antt =====
-- `strtok` on words that are joined by delimiters.
use watch_it.Base.{◌≡◌, ◌≢◌, refl, sym, ap, ◌∙◌, false, List, [], ◌∷◌, ◌++◌, append-nil, All, arith}
use watch_it.CString.{Str, codes, is_delimiter, push_token, split_tokens, strtok_all}

-- A word has a byte, and no delimiter.
pub record IsWord (delimiters : Str) (word : Str) : Type 0 where
  pub some_byte : word ≢ []
  pub no_delimiter : All (λ c. is_delimiter delimiters c ≡ false) word

-- The words with a comma and a blank between each two.
pub join : List Str → Str
join [] = []
join (word ∷ []) = word
join (word ∷ next ∷ rest) = word ++ (b',' ∷ b' ' ∷ join (next ∷ rest))

split-word :
    (delimiters word s : Str)
    → All (λ c. is_delimiter delimiters c ≡ false) word
    → split_tokens delimiters (word ++ s)
      ≡ (word ++ (split_tokens delimiters s).0, (split_tokens delimiters s).1)
unfolding split_tokens
split-word delimiters [] s h = refl
split-word delimiters (c ∷ word) s h = ground (arith, h.0, split-word delimiters word s h.1)

push-word :
    (word : Str) (tokens : List Str) → word ≢ [] → push_token (word ++ [], tokens) ≡ word ∷ tokens
unfolding push_token
push-word [] tokens h = absurd (h refl)
push-word (c ∷ word) tokens h = ap (λ (w : Str). (c ∷ w) ∷ tokens) (append-nil word)

after-word :
    (s : Str) → split_tokens (codes ", ") (b',' ∷ b' ' ∷ s) ≡ ([], strtok_all (codes ", ") s)
unfolding strtok_all split_tokens push_token is_delimiter
after-word s = refl

-- The joined words are split again.
pub strtok_all-join :
    (words : List Str)
    → All (IsWord (codes ", ")) words
    → strtok_all (codes ", ") (join words) ≡ words
unfolding strtok_all join split_tokens push_token
strtok_all-join [] h = refl
strtok_all-join (word ∷ []) h =
    ap (λ (w : Str). push_token (split_tokens (codes ", ") w)) (sym (append-nil word))
    ∙ ap push_token (split-word (codes ", ") word [] h.0.no_delimiter)
    ∙ push-word word [] h.0.some_byte
strtok_all-join (word ∷ next ∷ rest) h =
    let s : Str = b',' ∷ b' ' ∷ join (next ∷ rest) in
    let split = split-word (codes ", ") word s h.0.no_delimiter in
    let after = after-word (join (next ∷ rest)) in
    ap push_token (split ∙ ap (λ (r : Str × List Str). (word ++ r.0, r.1)) after)
    ∙ push-word word _ h.0.some_byte
    ∙ ap (◌∷◌ word) (strtok_all-join (next ∷ rest) h.1)
