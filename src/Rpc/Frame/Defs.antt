-- ===== src/Rpc/Frame/Defs.antt =====
-- The frames and their streaming codecs: crates/coro-rpc/src/protocol.rs. The codecs of requests and of
-- responses are the same code over the two headers. A buffer is the list of its bytes; a usize has 64 bits.
use cakemaster.Base.{
  ℕ, not, Option, none, some, List, [], ◌∷◌, ◌++◌, if◌then◌else◌, eqb, ltb, leb, Result, ok, err,
  checked_add,
}
use cakemaster.Base.Lists.{length, take, drop}
use cakemaster.Rpc.Words.{u32_max}
use cakemaster.Rpc.Headers.{
  ProtocolError, body_too_large, attachment_too_large, body_length_mismatch,
  attachment_length_mismatch, length_overflow, RequestHeader, new_request_header,
  encode_request_header, decode_request_header, request_header_len, ResponseHeader,
  new_response_header, encode_response_header, decode_response_header, response_header_len,
}

pub record FrameLimits : Type 0 where
  pub max_body_len : ℕ
  pub max_attachment_len : ℕ

pub data FrameError : Type 0 where
  unexpected_eof : ℕ → FrameError
  protocol_error : ProtocolError → FrameError

-- What a codec uses of its header.
pub record HeaderFormat : Type 1 where
  pub Header : Type 0
  pub header_len : ℕ
  pub encode_header : Header → List ℕ
  pub decode_header : List ℕ → Option (Result ProtocolError Header)
  pub body_len : Header → ℕ
  pub attachment_len : Header → ℕ

abbrev pub requests : HeaderFormat
requests = record {
  Header = RequestHeader;
  header_len = request_header_len;
  encode_header = encode_request_header;
  decode_header = decode_request_header;
  body_len = λ h. h.body_len;
  attachment_len = λ h. h.attachment_len;
}

abbrev pub responses : HeaderFormat
responses = record {
  Header = ResponseHeader;
  header_len = response_header_len;
  encode_header = encode_response_header;
  decode_header = decode_response_header;
  body_len = λ h. h.body_len;
  attachment_len = λ h. h.attachment_len;
}

pub record Frame (f : HeaderFormat) : Type 0 where
  pub header : f.Header
  pub body : List ℕ
  pub attachment : List ℕ

-- `u32::try_from` of a length.
abbrev pub to_u32 : ℕ → Result ProtocolError ℕ
to_u32 n = if leb n u32_max then ok n else err length_overflow

abbrev pub payload_lengths : List ℕ → List ℕ → Result ProtocolError (ℕ × ℕ)
payload_lengths body attachment = elim (to_u32 (length body)) [
  | err e ↦ err e
  | ok b ↦ elim (to_u32 (length attachment)) [ err e ↦ err e | ok a ↦ ok (b, a) ]
]

unfoldable pub new_request : ℕ → ℕ → List ℕ → List ℕ → Result ProtocolError (Frame requests)
new_request sequence function_id body attachment = elim (payload_lengths body attachment) [
  | err e ↦ err e
  | ok (b, a) ↦ ok (record {
    header = new_request_header sequence function_id b a;
    body = body;
    attachment = attachment;
  })
]

unfoldable pub new_response : ℕ → ℕ → List ℕ → List ℕ → Result ProtocolError (Frame responses)
new_response sequence error_code body attachment = elim (payload_lengths body attachment) [
  | err e ↦ err e
  | ok (b, a) ↦ ok (record {
    header = new_response_header sequence error_code b a;
    body = body;
    attachment = attachment;
  })
]

abbrev pub validate_lengths : ℕ → ℕ → FrameLimits → Result ProtocolError ℕ
validate_lengths body_len attachment_len limits =
    if ltb limits.max_body_len body_len
    then err (body_too_large body_len limits.max_body_len)
    else if ltb limits.max_attachment_len attachment_len
    then err (attachment_too_large attachment_len limits.max_attachment_len)
    else elim (checked_add body_len attachment_len) [ none ↦ err length_overflow | some n ↦ ok n ]

-- The body and the attachment cut from the buffer, and the buffer after them.
abbrev pub split_payload : List ℕ → ℕ → ℕ → ℕ → (List ℕ × List ℕ) × List ℕ
split_payload source header_len body_len attachment_len =
    let payload = drop header_len source in
    let rest = drop body_len payload in
    ((take body_len payload, take attachment_len rest), drop attachment_len rest)

abbrev pub payload_of :
    List ℕ → ℕ → ℕ → ℕ → ℕ → Result FrameError (Option (List ℕ × List ℕ)) × List ℕ
payload_of source header_len body_len attachment_len payload_len =
    elim (checked_add header_len payload_len) [
      | none ↦ (err (protocol_error length_overflow), source)
      | some frame_len ↦
          if ltb (length source) frame_len
          then (ok none, source)
          else (let (parts, rest) = split_payload source header_len body_len attachment_len in
              (ok (some parts), rest))
    ]

abbrev pub decode_payload :
    List ℕ → ℕ → ℕ → ℕ → FrameLimits → Result FrameError (Option (List ℕ × List ℕ)) × List ℕ
decode_payload source header_len body_len attachment_len limits =
    elim (validate_lengths body_len attachment_len limits) [
      | err e ↦ (err (protocol_error e), source)
      | ok payload_len ↦ payload_of source header_len body_len attachment_len payload_len
    ]

module _ (f : HeaderFormat) where
  -- The frame of a header and its payload, if that is complete.
  abbrev pub with_payload :
      f.Header → Result FrameError (Option (List ℕ × List ℕ)) → Result FrameError (Option (Frame f))
  with_payload h (err e) = err e
  with_payload h (ok none) = ok none
  with_payload h (ok (some (body, attachment))) =
      ok (some (record { header = h; body = body; attachment = attachment }))

  -- `decode` of the codecs, with the buffer after it; none is a panic.
  unfoldable pub decode_frame :
      FrameLimits → List ℕ → Option (Result FrameError (Option (Frame f)) × List ℕ)
  decode_frame limits source =
      if ltb (length source) f.header_len
      then some (ok none, source)
      else elim (f.decode_header (take f.header_len source)) [
        | none ↦ none
        | some (err e) ↦ some (err (protocol_error e), source)
        | some (ok h) ↦
            (let (payload, rest) =
                decode_payload source f.header_len (f.body_len h) (f.attachment_len h) limits in
              some (with_payload h payload, rest))
      ]

  abbrev pub require_complete_at_eof :
      List ℕ → Option (Frame f) → Result FrameError (Option (Frame f))
  require_complete_at_eof source (some frame) = ok (some frame)
  require_complete_at_eof [] none = ok none
  require_complete_at_eof (b ∷ source) none = err (unexpected_eof (length (b ∷ source)))

  unfoldable pub decode_eof :
      FrameLimits → List ℕ → Option (Result FrameError (Option (Frame f)) × List ℕ)
  unfolding decode_frame
  decode_eof limits source = elim (decode_frame limits source) [
    | none ↦ none
    | some (err e, rest) ↦ some (err e, rest)
    | some (ok decoded, rest) ↦ some (require_complete_at_eof rest decoded, rest)
  ]

  -- `encode` of the codecs: the bytes that are added to the destination, which has room for what it gets.
  abbrev pub frame_bytes : Frame f → List ℕ
  frame_bytes frame = f.encode_header frame.header ++ (frame.body ++ frame.attachment)

  abbrev pub checked_total : ℕ → ℕ → ℕ → Option ℕ
  checked_total a b c = elim (checked_add a b) [ none ↦ none | some n ↦ checked_add n c ]

  unfoldable pub encode_frame : Frame f → List ℕ → Result FrameError (List ℕ)
  encode_frame frame destination =
      let header = f.encode_header frame.header in
      if not (eqb (f.body_len frame.header) (length frame.body))
      then err (protocol_error (body_length_mismatch (f.body_len frame.header) (length frame.body)))
      else if not (eqb (f.attachment_len frame.header) (length frame.attachment))
      then err (
          protocol_error
            (attachment_length_mismatch (f.attachment_len frame.header) (length frame.attachment)))
      else elim (checked_total (length header) (length frame.body) (length frame.attachment)) [
        | none ↦ err (protocol_error length_overflow)
        | some _ ↦ ok (destination ++ frame_bytes frame)
      ]
