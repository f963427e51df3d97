-- ===== src/Rpc/Words.antt =====
-- Little-endian u32 words, as the headers of crates/coro-rpc/src/protocol.rs have them.
use cakemaster.Base.{ℕ, ◌+◌, ◌*◌, ◌/◌, ◌%◌, ◌<◌, ◌≤◌, Option, none, some, List, [], ◌∷◌, ◌≡◌, arith}

abbrev pub u32_max : ℕ
u32_max = 4294967295

abbrev pub IsByte : ℕ → Type 0
IsByte n = n < 256

-- `to_le_bytes`.
abbrev pub to_le_bytes : ℕ → List ℕ
to_le_bytes n = n % 256 ∷ n / 256 % 256 ∷ n / 65536 % 256 ∷ n / 16777216 % 256 ∷ []

-- `get_u32_le`, with what is left; none is a panic.
abbrev pub get_u32_le : List ℕ → Option (ℕ × List ℕ)
get_u32_le (a ∷ b ∷ c ∷ d ∷ rest) = some (a + 256 * b + 65536 * c + 16777216 * d, rest)
get_u32_le _ = none

abbrev pub word : ℕ → ℕ → ℕ → ℕ → ℕ
word a b c d = a + 256 * b + 65536 * c + 16777216 * d

pub word_of_bytes :
    (n : ℕ)
    → n ≤ u32_max
    → word (n % 256) (n / 256 % 256) (n / 65536 % 256) (n / 16777216 % 256) ≡ n
word_of_bytes n h = omega (arith, h)

pub bytes_of_word :
    (a b c d : ℕ)
    → IsByte a
    → IsByte b
    → IsByte c
    → IsByte d
    → (word a b c d % 256 ≡ a)
      × (word a b c d / 256 % 256 ≡ b)
      × (word a b c d / 65536 % 256 ≡ c)
      × (word a b c d / 16777216 % 256 ≡ d)
bytes_of_word a b c d ha hb hc hd = omega (arith, ha, hb, hc, hd)

-- A chain of reads.
infixl 5 ◌>>=◌
abbrev pub ◌>>=◌ {ℓ κ} : {A : Type ℓ} {B : Type κ} → Option A → (A → Option B) → Option B
none >>= f = none
some a >>= f = f a
