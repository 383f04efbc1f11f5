-- ===== src/Daemon/Reader/Wire.antt =====
-- How the kernel lays out events in the bytes that `read` returns.
use watch_it.Base.{
  ℕ, zero, suc, ◌+◌, ◌/◌, ◌%◌, ◌^◌, ◌<◌, ◌≡◌, ◌≢◌, refl, ap, List, [], ◌∷◌, ◌++◌, All, length,
  arith, ◌⊎◌,
}
use watch_it.CString.{Str}
use watch_it.Daemon.Reader.{InotifyEvent, byte, u32_at, cstring, event_at}

-- An event of the kernel. Its name, if it has one, is followed by `padding` zero bytes.
pub record KernelEvent : Type 0 where
  pub wd : ℕ
  pub mask : ℕ
  pub cookie : ℕ
  pub name : Str
  pub padding : ℕ

abbrev pub zeros : ℕ → List ℕ
zeros zero = []
zeros (suc n) = 0 ∷ zeros n

abbrev pub field_len : KernelEvent → ℕ
field_len e = length e.name + e.padding

-- The fields fit 32 bits. A name has no zero byte and at least one behind it; without a name there
-- is no padding.
pub record IsWellFormed (e : KernelEvent) : Type 0 where
  pub wd_fits : e.wd < 2 ^ 32
  pub mask_fits : e.mask < 2 ^ 32
  pub len_fits : field_len e < 2 ^ 32
  pub name_bytes : All (λ b. b ≢ 0) e.name
  pub ended : ((e.name ≡ []) × (e.padding ≡ 0)) ⊎ (0 < e.padding)

-- A 32-bit field, least significant byte first.
abbrev pub le32 : ℕ → List ℕ → List ℕ
le32 w rest = w % 256 ∷ (w / 256 % 256) ∷ (w / 65536 % 256) ∷ (w / 16777216 % 256) ∷ rest

-- The bytes of an event, before some more.
abbrev pub encode : KernelEvent → List ℕ → List ℕ
encode e rest =
    le32 e.wd
      (le32 e.mask (le32 e.cookie (le32 (field_len e) (e.name ++ (zeros e.padding ++ rest)))))

unfoldable pub encode_all : List KernelEvent → List ℕ
encode_all [] = []
encode_all (e ∷ es) = encode e (encode_all es)

-- What the loop is to see of an event.
abbrev pub view : KernelEvent → InotifyEvent
view e = record { wd = e.wd; mask = e.mask; len = field_len e; name = e.name }

-- A name is read up to its first padding byte.
pub cstring-padded :
    (name : Str) (n : ℕ) (rest : List ℕ)
    → 0 < n
    → All (λ b. b ≢ 0) name
    → cstring (name ++ (zeros n ++ rest)) ≡ name
unfolding cstring
cstring-padded [] zero rest m h = absurd (omega arith)
cstring-padded [] (suc n) rest m h = refl
cstring-padded (b ∷ name) n rest m h = ground (arith, h.0, cstring-padded name n rest m h.1)

pub length-zeros : (n : ℕ) → length (zeros n) ≡ n
length-zeros zero = refl
length-zeros (suc n) = ap suc (length-zeros n)

-- The numbers that the loop reads from the bytes of an event are those of the event.
pub event_at-numbers :
    (e : KernelEvent) (rest : List ℕ)
    → IsWellFormed e
    → ((event_at (encode e rest)).wd ≡ e.wd)
      × ((event_at (encode e rest)).mask ≡ e.mask)
      × ((event_at (encode e rest)).len ≡ field_len e)
unfolding event_at u32_at byte
event_at-numbers e rest h = (omega arith, omega arith, omega arith)
