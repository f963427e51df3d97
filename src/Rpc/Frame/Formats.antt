-- ===== src/Rpc/Frame/Formats.antt =====
-- The two headers as formats of frames, and the frames that a sender makes.
use cakemaster.Base.{
  ℕ, ◌≤◌, List, ◌++◌, ok, ◌≡◌, refl, subst, arith, some, inl, inr, Result-cases, ok_inj,
}
use cakemaster.Base.Lists.{length}
use cakemaster.Rpc.Words.{u32_max}
use cakemaster.Rpc.Headers.{ProtocolError, new_request_header}
use cakemaster.Rpc.HeaderLaws.{
  IsRequest, decode-encode_request_header, encode-decode_request_header, IsResponse,
  decode-encode_response_header, encode-decode_response_header,
}
use cakemaster.Rpc.Frame.Defs.{
  FrameLimits, Frame, requests, responses, payload_lengths, new_request, encode_frame, decode_frame,
  frame_bytes,
}
use cakemaster.Rpc.Frame.Streams.{HeaderLaws, IsFrame, decode-encode_frame}

abbrev pub requests-HeaderLaws : HeaderLaws requests
requests-HeaderLaws = record {
  IsHeader = IsRequest;
  length-encode_header = λ h. refl;
  decode-encode_header = decode-encode_request_header;
  encode-decode_header = encode-decode_request_header;
  header_is_short = omega arith;
}

abbrev pub responses-HeaderLaws : HeaderLaws responses
responses-HeaderLaws = record {
  IsHeader = IsResponse;
  length-encode_header = λ h. refl;
  decode-encode_header = decode-encode_response_header;
  encode-decode_header = encode-decode_response_header;
  header_is_short = omega arith;
}

payload_lengths-inv :
    (body attachment : List ℕ) {b a : ℕ}
    → payload_lengths body attachment ≡ ok (b, a)
    → (b ≡ length body)
      × (a ≡ length attachment)
      × (length body ≤ u32_max)
      × (length attachment ≤ u32_max)
payload_lengths-inv body attachment done = ground (arith, done)

-- A request that a client makes of any body and attachment, with a sequence number and a function id that
-- are u32, reaches the server as it was made: the encoder appends its bytes, and the decoder reads it
-- back from them and leaves what follows; if the body and the attachment are within the server's limits.
pub new_request-decode_frame :
    (limits : FrameLimits) (sequence function_id : ℕ) (body attachment destination rest : List ℕ)
    {frame : Frame requests}
    → new_request sequence function_id body attachment ≡ ok frame
    → sequence ≤ u32_max
    → function_id ≤ u32_max
    → length body ≤ limits.max_body_len
    → length attachment ≤ limits.max_attachment_len
    → (frame.body ≡ body)
      × (frame.attachment ≡ attachment)
      × (encode_frame requests frame destination ≡ ok (destination ++ frame_bytes requests frame))
      × (decode_frame requests limits (frame_bytes requests frame ++ rest)
          ≡ some (ok (some frame), rest))
unfolding new_request
new_request-decode_frame limits sequence function_id body attachment destination rest {frame} made s
      f fits also_fits =
    elim (Result-cases (payload_lengths body attachment)) [
      | inl (e, long) ↦ absurd (ground (arith, made, long))
      | inr ((b, a), got) ↦
          let sent : Frame requests = record {
            header = new_request_header sequence function_id b a;
            body = body;
            attachment = attachment;
          } in
          let is : sent ≡ frame = ok_inj {E = ProtocolError} (ground (arith, made, got)) in
          let (b_is, a_is, small, also_small) = payload_lengths-inv body attachment got in
          let valid : IsFrame requests-HeaderLaws limits sent = (
            (refl, refl, refl, s, f, omega (arith, b_is, small), omega (arith, a_is, also_small)),
            b_is,
            a_is,
            small,
            also_small,
            fits,
            also_fits,
          ) in
          subst
            (λ x.
              (x.body ≡ body)
              × (x.attachment ≡ attachment)
              × (encode_frame requests x destination ≡ ok (destination ++ frame_bytes requests x))
              × (decode_frame requests limits (frame_bytes requests x ++ rest)
                  ≡ some (ok (some x), rest)))
            is
            (let (encoded, decoded) =
                decode-encode_frame requests-HeaderLaws limits sent valid destination rest in
              (refl, refl, encoded, decoded))
    ]
