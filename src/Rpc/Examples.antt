-- ===== src/Rpc/Examples.antt =====
-- A request on the wire, whole and in parts.
use cakemaster.Base.{ℕ, ◌≤◌, List, [], ◌∷◌, ◌++◌, ok, none, some, ◌≡◌, refl, arith}
use cakemaster.Base.Lists.{All}
use cakemaster.Rpc.Words.{IsByte}
use cakemaster.Rpc.Headers.{new_request_header, decode_request_header}
use cakemaster.Rpc.HeaderLaws.{IsRequest}
use cakemaster.Rpc.Frame.Defs.{
  FrameLimits, Frame, requests, new_request, encode_frame, decode_frame, frame_bytes,
}
use cakemaster.Rpc.Frame.Streams.{IsFrame, decode_frame-prefix, decode-encode_frame}
use cakemaster.Rpc.Frame.Accepts.{encode-decode_frame}
use cakemaster.Rpc.Frame.Formats.{requests-HeaderLaws, new_request-decode_frame}

abbrev limits : FrameLimits
limits = record { max_body_len = 67108864; max_attachment_len = 268435456 }

abbrev request : Frame requests
request = record {
  header = new_request_header 16909060 3417382616 3 2;
  body = 1 ∷ 2 ∷ 3 ∷ [];
  attachment = 9 ∷ 8 ∷ [];
}

request-IsFrame : IsFrame requests-HeaderLaws limits request
request-IsFrame = (
  (refl, refl, refl, omega arith, omega arith, omega arith, omega arith),
  refl,
  refl,
  omega arith,
  omega arith,
  omega arith,
  omega arith,
)

-- The bytes of the request, and of the first 22 of them.
abbrev wire : List ℕ
wire =
    21 ∷ 0 ∷ 0 ∷ 0 ∷ 4 ∷ 3 ∷ 2 ∷ 1 ∷ 216 ∷ 30 ∷ 177 ∷ 203 ∷ 3 ∷ 0 ∷ 0 ∷ 0 ∷ 2 ∷ 0 ∷ 0 ∷ 0 ∷ 1 ∷ 2
    ∷ 3 ∷ 9 ∷ 8 ∷ []

abbrev part : List ℕ
part =
    21 ∷ 0 ∷ 0 ∷ 0 ∷ 4 ∷ 3 ∷ 2 ∷ 1 ∷ 216 ∷ 30 ∷ 177 ∷ 203 ∷ 3 ∷ 0 ∷ 0 ∷ 0 ∷ 2 ∷ 0 ∷ 0 ∷ 0 ∷ 1 ∷ 2
    ∷ []

frame_bytes-request : frame_bytes requests request ≡ wire
frame_bytes-request = refl

decode-encode_frame_example :
    (encode_frame requests request (7 ∷ []) ≡ ok ((7 ∷ []) ++ frame_bytes requests request))
    × (decode_frame requests limits (frame_bytes requests request ++ (21 ∷ []))
        ≡ some (ok (some request), 21 ∷ []))
decode-encode_frame_example =
    decode-encode_frame requests-HeaderLaws limits request request-IsFrame (7 ∷ []) (21 ∷ [])

decode_frame-prefix_example : decode_frame requests limits part ≡ some (ok none, part)
decode_frame-prefix_example =
    decode_frame-prefix requests-HeaderLaws limits request request-IsFrame part (3 ∷ 9 ∷ 8 ∷ [])
      refl (omega arith)

new_request-runs : new_request 16909060 3417382616 (1 ∷ 2 ∷ 3 ∷ []) (9 ∷ 8 ∷ []) ≡ ok request
unfolding new_request
new_request-runs = refl

new_request-decode_frame_example :
    (request.body ≡ 1 ∷ 2 ∷ 3 ∷ [])
    × (request.attachment ≡ 9 ∷ 8 ∷ [])
    × (encode_frame requests request [] ≡ ok ([] ++ frame_bytes requests request))
    × (decode_frame requests limits (frame_bytes requests request ++ [])
        ≡ some (ok (some request), []))
new_request-decode_frame_example =
    new_request-decode_frame limits 16909060 3417382616 (1 ∷ 2 ∷ 3 ∷ []) (9 ∷ 8 ∷ []) [] []
      new_request-runs (omega arith) (omega arith) (omega arith) (omega arith)

wire-bytes : All IsByte (wire ++ (21 ∷ []))
wire-bytes = ground arith

wire-decoded : decode_frame requests limits (wire ++ (21 ∷ [])) ≡ some (ok (some request), 21 ∷ [])
unfolding decode_frame decode_request_header
wire-decoded = refl

encode-decode_frame_example :
    (frame_bytes requests request ++ (21 ∷ []) ≡ wire ++ (21 ∷ []))
    × IsRequest request.header
    × (request.header.body_len ≡ 3)
    × (request.header.attachment_len ≡ 2)
    × (3 ≤ limits.max_body_len)
    × (2 ≤ limits.max_attachment_len)
encode-decode_frame_example =
    encode-decode_frame requests-HeaderLaws limits (wire ++ (21 ∷ [])) request (21 ∷ []) wire-bytes
      wire-decoded
