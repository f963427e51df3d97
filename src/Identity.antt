-- ===== src/Identity.antt =====
-- src/segment/identity.rs: the two-word identifiers of segments and clients, and what names a segment.
use Prim.Native.String.{String}
use text.Mathlib.Text.{◌==◌ as same_text}
use text.Mathlib.TextEquality.{eq_iff as text_iff}
use cakemaster.Base.{ℕ, ◌+◌, ◌*◌, ◌/◌, ◌%◌, ◌≡◌, ◌↔◌, Bool, true, ◌&&◌, ◌||◌, arith, ltb, eqb, Eq}

-- Both invocations of `uuid_pair_id!`; the words are u64.
pub record Uuid : Type 0 where
  pub high : ℕ
  pub low : ℕ

abbrev pub SegmentId : Type 0
SegmentId = Uuid

abbrev pub ClientId : Type 0
ClientId = Uuid

abbrev uuid_beq : Uuid → Uuid → Bool
uuid_beq a b = eqb a.high b.high && eqb a.low b.low

pub uuid_beq_iff : (a b : Uuid) → (uuid_beq a b ≡ true) ↔ (a ≡ b)
uuid_beq_iff a b = ((λ h. ground arith), (λ h. ground arith))

instance abbrev pub uuid_eq : Eq Uuid
uuid_eq = record { equal = uuid_beq; equal_iff = uuid_beq_iff }

abbrev pub is_nil : Uuid → Bool
is_nil a = eqb a.high 0 && eqb a.low 0

-- The derived `Ord`: by the fields in their order.
abbrev pub uuid_lt : Uuid → Uuid → Bool
uuid_lt a b = ltb a.high b.high || eqb a.high b.high && ltb a.low b.low

-- `From<u128>`: the two `as u64` casts.
unfoldable pub from_u128 : ℕ → Uuid
from_u128 value = record {
  high = value / 18446744073709551616 % 18446744073709551616;
  low = value % 18446744073709551616;
}

-- `From<$name> for u128`; the or of disjoint words is their sum.
unfoldable pub to_u128 : Uuid → ℕ
to_u128 value = value.high * 18446744073709551616 + value.low

instance abbrev pub string_eq : Eq String
string_eq = record { equal_iff = text_iff; equal = same_text }

pub record SegmentIdentity : Type 0 where
  pub id : SegmentId
  pub owner : ClientId
  pub name : String
  pub host_id : String
