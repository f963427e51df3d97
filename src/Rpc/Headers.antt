-- ===== src/Rpc/Headers.antt =====
-- The frame headers: crates/coro-rpc/src/protocol.rs. A u8 and a u32 are numbers below 2^8 and 2^32.
use cakemaster.Base.{
  ℕ, not, Option, none, some, List, ◌∷◌, ◌++◌, if◌then◌else◌, eqb, ltb, Result, ok, err,
}
use cakemaster.Base.Lists.{length}
use cakemaster.Rpc.Words.{to_le_bytes, get_u32_le, ◌>>=◌}

abbrev pub magic_byte : ℕ
magic_byte = 21

abbrev pub protocol_version : ℕ
protocol_version = 0

abbrev pub struct_pack_serialization : ℕ
struct_pack_serialization = 0

abbrev pub request_header_len : ℕ
request_header_len = 20

abbrev pub response_header_len : ℕ
response_header_len = 16

pub data ProtocolError : Type 0 where
  invalid_header_length : ℕ → ℕ → ProtocolError
  invalid_magic unsupported_version unsupported_serialization : ℕ → ProtocolError
  body_too_large attachment_too_large : ℕ → ℕ → ProtocolError
  body_length_mismatch attachment_length_mismatch : ℕ → ℕ → ProtocolError
  length_overflow : ProtocolError

pub record RequestHeader : Type 0 where
  pub magic : ℕ
  pub version : ℕ
  pub serialize_type : ℕ
  pub msg_type : ℕ
  pub sequence : ℕ
  pub function_id : ℕ
  pub body_len : ℕ
  pub attachment_len : ℕ

abbrev pub new_request_header : ℕ → ℕ → ℕ → ℕ → RequestHeader
new_request_header sequence function_id body_len attachment_len = record {
  magic = magic_byte;
  version = protocol_version;
  serialize_type = struct_pack_serialization;
  msg_type = 0;
  sequence = sequence;
  function_id = function_id;
  body_len = body_len;
  attachment_len = attachment_len;
}

abbrev pub encode_request_header : RequestHeader → List ℕ
encode_request_header h =
    h.magic
    ∷ h.version
    ∷ h.serialize_type
    ∷ h.msg_type
    ∷ (to_le_bytes h.sequence
        ++ to_le_bytes h.function_id
        ++ to_le_bytes h.body_len
        ++ to_le_bytes h.attachment_len)

abbrev pub validate_common : ℕ → ℕ → Result {0, 0} ProtocolError Unit
validate_common magic version =
    if not (eqb magic magic_byte)
    then err (invalid_magic magic)
    else if ltb protocol_version version
    then err (unsupported_version version)
    else ok tt

abbrev pub check_request_header : RequestHeader → Result ProtocolError RequestHeader
check_request_header h = elim (validate_common h.magic h.version) [
  | err e ↦ err e
  | ok _ ↦
      if not (eqb h.serialize_type struct_pack_serialization)
      then err (unsupported_serialization h.serialize_type)
      else ok h
]

-- The fields in their order; none is a panic, where the bytes are too few.
abbrev pub read_request_fields : List ℕ → Option RequestHeader
read_request_fields (magic ∷ version ∷ serialize_type ∷ msg_type ∷ fields) = do
  (sequence, fields) ← get_u32_le fields
  (function_id, fields) ← get_u32_le fields
  (body_len, fields) ← get_u32_le fields
  (attachment_len, fields) ← get_u32_le fields
  some (record {
    magic = magic;
    version = version;
    serialize_type = serialize_type;
    msg_type = msg_type;
    sequence = sequence;
    function_id = function_id;
    body_len = body_len;
    attachment_len = attachment_len;
  })
read_request_fields _ = none

unfoldable pub decode_request_header : List ℕ → Option (Result ProtocolError RequestHeader)
decode_request_header bytes =
    if not (eqb (length bytes) request_header_len)
    then some (err (invalid_header_length request_header_len (length bytes)))
    else elim (read_request_fields bytes) [ none ↦ none | some h ↦ some (check_request_header h) ]

pub record ResponseHeader : Type 0 where
  pub magic : ℕ
  pub version : ℕ
  pub error_code : ℕ
  pub msg_type : ℕ
  pub sequence : ℕ
  pub body_len : ℕ
  pub attachment_len : ℕ

abbrev pub new_response_header : ℕ → ℕ → ℕ → ℕ → ResponseHeader
new_response_header sequence error_code body_len attachment_len = record {
  magic = magic_byte;
  version = protocol_version;
  error_code = error_code;
  msg_type = 0;
  sequence = sequence;
  body_len = body_len;
  attachment_len = attachment_len;
}

abbrev pub encode_response_header : ResponseHeader → List ℕ
encode_response_header h =
    h.magic
    ∷ h.version
    ∷ h.error_code
    ∷ h.msg_type
    ∷ (to_le_bytes h.sequence ++ to_le_bytes h.body_len ++ to_le_bytes h.attachment_len)

abbrev pub check_response_header : ResponseHeader → Result ProtocolError ResponseHeader
check_response_header h = elim (validate_common h.magic h.version) [ err e ↦ err e | ok _ ↦ ok h ]

abbrev pub read_response_fields : List ℕ → Option ResponseHeader
read_response_fields (magic ∷ version ∷ error_code ∷ msg_type ∷ fields) = do
  (sequence, fields) ← get_u32_le fields
  (body_len, fields) ← get_u32_le fields
  (attachment_len, fields) ← get_u32_le fields
  some (record {
    magic = magic;
    version = version;
    error_code = error_code;
    msg_type = msg_type;
    sequence = sequence;
    body_len = body_len;
    attachment_len = attachment_len;
  })
read_response_fields _ = none

unfoldable pub decode_response_header : List ℕ → Option (Result ProtocolError ResponseHeader)
decode_response_header bytes =
    if not (eqb (length bytes) response_header_len)
    then some (err (invalid_header_length response_header_len (length bytes)))
    else elim (read_response_fields bytes) [ none ↦ none | some h ↦ some (check_response_header h) ]
