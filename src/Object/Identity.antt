-- ===== src/Object/Identity.antt =====
-- src/object/identity.rs, content.rs and write.rs: what names an object, and who writes it.
use Prim.Native.String.{String}
use cakemaster.Base.{
  ℕ, Bool, true, false, ◌&&◌, Option, none, some, eqb, Eq, ◌==◌, nat_eq, ◌≡◌, ◌↔◌, arith,
}
use cakemaster.Identity.{ClientId, uuid_eq, uuid_beq_iff, string_eq}
use cakemaster.Client.Types.{Session}

-- `NamespaceId` is its number, and `ObjectKey` its text.
pub record ObjectIdentity : Type 0 where
  pub namespace : ℕ
  pub key : String

abbrev identity_beq : ObjectIdentity → ObjectIdentity → Bool
identity_beq a b = eqb a.namespace b.namespace && a.key == b.key

pub identity_beq_iff : (a b : ObjectIdentity) → (identity_beq a b ≡ true) ↔ (a ≡ b)
identity_beq_iff a b = (
  (λ h. ground (arith, string_eq.equal_iff a.key b.key)),
  (λ h. ground (arith, string_eq.equal_iff a.key b.key)),
)

instance abbrev pub object_identity_eq : Eq ObjectIdentity
object_identity_eq = record { equal = identity_beq; equal_iff = identity_beq_iff }

pub data ObjectKind : Type 0 where
  kv_cache tensor general : ObjectKind

pub record ObjectContent : Type 0 where
  pub logical_bytes : ℕ
  pub kind : ObjectKind

pub data WriteMode : Type 0 where
  insert_only upsert : WriteMode

pub record WriteOwner : Type 0 where
  pub client : ClientId
  pub session_generation : ℕ

abbrev owner_beq : WriteOwner → WriteOwner → Bool
owner_beq a b = a.client == b.client && eqb a.session_generation b.session_generation

pub owner_beq_iff : (a b : WriteOwner) → (owner_beq a b ≡ true) ↔ (a ≡ b)
owner_beq_iff a b = (
  (λ h. ground (arith, uuid_beq_iff a.client b.client)),
  (λ h. ground (arith, uuid_beq_iff a.client b.client)),
)

instance abbrev pub write_owner_eq : Eq WriteOwner
write_owner_eq = record { equal = owner_beq; equal_iff = owner_beq_iff }

-- `WriteOwner::for_session`.
abbrev pub owner_for_session : Session → WriteOwner
owner_for_session s = record { client = s.client_id; session_generation = s.generation }

-- `ObjectCommit` is its checksum.
abbrev pub ObjectCommit : Type 0
ObjectCommit = Option ℕ

abbrev pub commit_beq : ObjectCommit → ObjectCommit → Bool
commit_beq none none = true
commit_beq (some a) (some b) = eqb a b
commit_beq _ _ = false
