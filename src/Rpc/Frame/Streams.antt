-- ===== src/Rpc/Frame/Streams.antt =====
-- The codecs on a stream: a frame is read back from its bytes, with whatever follows, and not before
-- they are all there.
use cakemaster.Base.{
  ℕ, ◌+◌, ◌≤◌, ◌<◌, true, false, none, some, List, [], ◌++◌, if◌then◌else◌, eqb, ltb, leb, ok, err,
  u64_max, ◌≡◌, refl, sym, ap, ◌∙◌, subst, arith, Bool-cases, inl, inr,
}
use cakemaster.Base.Lists.{
  length, length-append, take, drop, take-append, drop-append, take-append_short, append_assoc,
  append_nil, All,
}
use cakemaster.Rpc.Words.{u32_max, IsByte}
use cakemaster.Rpc.Frame.Defs.{
  FrameLimits, unexpected_eof, HeaderFormat, Frame, split_payload, payload_of, decode_payload,
  with_payload, decode_frame, decode_eof, frame_bytes, encode_frame,
}

-- What the codecs rely on in a header.
pub record HeaderLaws (f : HeaderFormat) : Type 1 where
  pub IsHeader : f.Header → Type 0
  pub length-encode_header : (h : f.Header) → length (f.encode_header h) ≡ f.header_len
  pub decode-encode_header :
      (h : f.Header) → IsHeader h → f.decode_header (f.encode_header h) ≡ some (ok h)
  pub encode-decode_header :
      (bytes : List ℕ) (h : f.Header)
      → All IsByte bytes
      → f.decode_header bytes ≡ some (ok h)
      → (f.encode_header h ≡ bytes) × IsHeader h
  pub header_is_short : f.header_len ≤ 1024

module _ (limits : FrameLimits) (source : List ℕ) (header_len body_len attachment_len : ℕ)
    (short : header_len ≤ 1024) (body_small : body_len ≤ u32_max)
    (attachment_small : attachment_len ≤ u32_max) (body_fits : body_len ≤ limits.max_body_len)
    (attachment_fits : attachment_len ≤ limits.max_attachment_len) where
  decode_payload-payload_of :
      decode_payload source header_len body_len attachment_len limits
      ≡ payload_of source header_len body_len attachment_len (body_len + attachment_len)
  decode_payload-payload_of =
      let body_ok : ltb limits.max_body_len body_len ≡ false = ground (arith, body_fits) in
      let attachment_ok : ltb limits.max_attachment_len attachment_len ≡ false =
        ground (arith, attachment_fits) in
      let sum_ok : leb (body_len + attachment_len) u64_max ≡ true =
        ground (arith, body_small, attachment_small) in
      ground (arith, body_ok, attachment_ok, sum_ok)

  total_ok : leb (header_len + (body_len + attachment_len)) u64_max ≡ true
  total_ok = ground (arith, short, body_small, attachment_small)

  decode_payload_whole :
      header_len + (body_len + attachment_len) ≤ length source
      → decode_payload source header_len body_len attachment_len limits ≡ (
          let (parts, rest) = split_payload source header_len body_len attachment_len in
          (ok (some parts), rest))
  decode_payload_whole enough =
      let late : ltb (length source) (header_len + (body_len + attachment_len)) ≡ false =
        ground (arith, enough) in
      decode_payload-payload_of ∙ ground (arith, total_ok, late)

  decode_payload_short :
      length source < header_len + (body_len + attachment_len)
      → decode_payload source header_len body_len attachment_len limits ≡ (ok none, source)
  decode_payload_short few =
      let early : ltb (length source) (header_len + (body_len + attachment_len)) ≡ true =
        ground (arith, few) in
      decode_payload-payload_of ∙ ground (arith, total_ok, early)

module _ (f : HeaderFormat) where
  pub decode_frame_step :
      (limits : FrameLimits) (source : List ℕ) (h : f.Header)
      → f.header_len ≤ length source
      → f.decode_header (take f.header_len source) ≡ some (ok h)
      → decode_frame f limits source ≡ (
          let (payload, rest) =
            decode_payload source f.header_len (f.body_len h) (f.attachment_len h) limits in
          some (with_payload f h payload, rest))
  unfolding decode_frame
  decode_frame_step limits source h enough good =
      let full : ltb (length source) f.header_len ≡ false = ground (arith, enough) in
      rw (full, good) refl

module _ {f : HeaderFormat} (laws : HeaderLaws f) where
  -- A frame whose header is right about its payload, within the limits.
  abbrev pub IsFrame : FrameLimits → Frame f → Type 0
  IsFrame limits frame =
      laws.IsHeader frame.header
      × (f.body_len frame.header ≡ length frame.body)
      × (f.attachment_len frame.header ≡ length frame.attachment)
      × (length frame.body ≤ u32_max)
      × (length frame.attachment ≤ u32_max)
      × (length frame.body ≤ limits.max_body_len)
      × (length frame.attachment ≤ limits.max_attachment_len)

  module _ (limits : FrameLimits) (frame : Frame f) (valid : IsFrame limits frame) where
    -- The bytes of a frame, of which a part may have arrived.
    header_bytes : List ℕ
    header_bytes = f.encode_header frame.header

    -- A buffer that starts with a whole frame.
    arrived : List ℕ → List ℕ
    arrived rest = f.encode_header frame.header ++ (frame.body ++ (frame.attachment ++ rest))

    take-arrived : (rest : List ℕ) → take f.header_len (arrived rest) ≡ f.encode_header frame.header
    unfolding arrived
    take-arrived rest =
        subst (λ n. take n (arrived rest) ≡ f.encode_header frame.header)
          (laws.length-encode_header frame.header)
          (take-append (f.encode_header frame.header) (frame.body ++ (frame.attachment ++ rest)))

    drop-arrived :
        (rest : List ℕ)
        → drop f.header_len (arrived rest) ≡ frame.body ++ (frame.attachment ++ rest)
    unfolding arrived
    drop-arrived rest =
        subst (λ n. drop n (arrived rest) ≡ frame.body ++ (frame.attachment ++ rest))
          (laws.length-encode_header frame.header)
          (drop-append (f.encode_header frame.header) (frame.body ++ (frame.attachment ++ rest)))

    length-arrived :
        (rest : List ℕ)
        → length (arrived rest)
          ≡ f.header_len + (length frame.body + length frame.attachment) + length rest
    unfolding arrived
    length-arrived rest = omega (
      arith,
      length-append (f.encode_header frame.header) (frame.body ++ (frame.attachment ++ rest)),
      length-append frame.body (frame.attachment ++ rest),
      length-append frame.attachment rest,
      laws.length-encode_header frame.header,
    )

    split_payload-arrived :
        (rest : List ℕ)
        → split_payload (arrived rest) f.header_len (length frame.body) (length frame.attachment)
          ≡ ((frame.body, frame.attachment), rest)
    split_payload-arrived rest =
        rw
          (
            drop-arrived rest,
            take-append frame.body (frame.attachment ++ rest),
            drop-append frame.body (frame.attachment ++ rest),
            take-append frame.attachment rest,
            drop-append frame.attachment rest,
          )
          refl

    decode_frame-arrived :
        (rest : List ℕ) → decode_frame f limits (arrived rest) ≡ some (ok (some frame), rest)
    unfolding arrived
    decode_frame-arrived rest =
        let (is, body_is, attachment_is, small, also_small, fits, also_fits) = valid in
        let enough : f.header_len ≤ length (arrived rest) = omega (arith, length-arrived rest) in
        let good : f.decode_header (take f.header_len (arrived rest)) ≡ some (ok frame.header) =
          subst (λ l. f.decode_header l ≡ some (ok frame.header)) (sym (take-arrived rest))
            (laws.decode-encode_header frame.header is) in
        let payload : decode_payload (arrived rest) f.header_len (f.body_len frame.header)
              (f.attachment_len frame.header) limits
            ≡ (ok (some (frame.body, frame.attachment)), rest) =
          rw (body_is, attachment_is)
            (decode_payload_whole limits (arrived rest) f.header_len (length frame.body)
                (length frame.attachment) laws.header_is_short small also_small fits also_fits
                (omega (arith, length-arrived rest))
              ∙ ap {A = (List ℕ × List ℕ) × List ℕ} (λ r. (ok (some r.0), r.1))
                  (split_payload-arrived rest)) in
        decode_frame_step f limits (arrived rest) frame.header enough good
        ∙ ap (λ r. some (with_payload f frame.header r.0, r.1)) payload

    frame_bytes-arrived : (rest : List ℕ) → frame_bytes f frame ++ rest ≡ arrived rest
    unfolding arrived
    frame_bytes-arrived rest =
        append_assoc (f.encode_header frame.header) (frame.body ++ frame.attachment) rest
        ∙ ap (λ l. f.encode_header frame.header ++ l)
            (append_assoc frame.body frame.attachment rest)

    encode_frame-frame_bytes :
        (destination : List ℕ)
        → encode_frame f frame destination ≡ ok (destination ++ frame_bytes f frame)
    unfolding encode_frame
    encode_frame-frame_bytes destination =
        let (is, body_is, attachment_is, small, also_small, fits, also_fits) = valid in
        ground (
          arith,
          body_is,
          attachment_is,
          small,
          also_small,
          laws.header_is_short,
          laws.length-encode_header frame.header,
        )

    -- The encoder appends the bytes of a frame to the destination, and the decoder takes exactly this frame
    -- off a buffer that starts with these bytes, and leaves what follows them; for a frame whose header is
    -- one of its kind and states the lengths of a payload within the decoder's limits.
    pub decode-encode_frame :
        (destination rest : List ℕ)
        → (encode_frame f frame destination ≡ ok (destination ++ frame_bytes f frame))
          × (decode_frame f limits (frame_bytes f frame ++ rest) ≡ some (ok (some frame), rest))
    decode-encode_frame destination rest = (
      encode_frame-frame_bytes destination,
      subst (λ l. decode_frame f limits l ≡ some (ok (some frame), rest))
          (sym (frame_bytes-arrived rest)) (decode_frame-arrived rest),
    )

    module _ (p q : List ℕ) (whole : p ++ q ≡ frame_bytes f frame) (missing : 1 ≤ length q) where
      whole-arrived : p ++ q ≡ arrived []
      whole-arrived = whole ∙ sym (append_nil (frame_bytes f frame)) ∙ frame_bytes-arrived []

      prefix_short : length p < f.header_len + (length frame.body + length frame.attachment)
      prefix_short =
          omega (arith, length-append p q, ap length whole-arrived, length-arrived [], missing)

      prefix_header : f.header_len ≤ length p → take f.header_len p ≡ f.encode_header frame.header
      prefix_header enough =
          sym (take-append_short f.header_len p q enough)
          ∙ ap (take f.header_len) whole-arrived
          ∙ take-arrived []

      decode_frame-prefix_headed :
          f.header_len ≤ length p → decode_frame f limits p ≡ some (ok none, p)
      decode_frame-prefix_headed enough =
          let (is, body_is, attachment_is, small, also_small, fits, also_fits) = valid in
          let good : f.decode_header (take f.header_len p) ≡ some (ok frame.header) =
            subst (λ l. f.decode_header l ≡ some (ok frame.header)) (sym (prefix_header enough))
              (laws.decode-encode_header frame.header is) in
          let payload : decode_payload p f.header_len (f.body_len frame.header)
                (f.attachment_len frame.header) limits
              ≡ (ok none, p) =
            rw (body_is, attachment_is)
              (decode_payload_short limits p f.header_len (length frame.body)
                (length frame.attachment) laws.header_is_short small also_small fits also_fits
                prefix_short) in
          decode_frame_step f limits p frame.header enough good
          ∙ ap (λ r. some (with_payload f frame.header r.0, r.1)) payload

      -- While a part of a frame is missing, wherever it is cut, the decoder waits: it returns no frame and no
      -- error, and takes nothing off the buffer.
      pub decode_frame-prefix : decode_frame f limits p ≡ some (ok none, p)
      unfolding decode_frame
      decode_frame-prefix = elim (Bool-cases (ltb (length p) f.header_len)) [
        | inl few ↦ rw few refl
        | inr enough ↦ decode_frame-prefix_headed (ground (arith, enough))
      ]

      -- A stream that ends inside a frame is an error at its end, which says how many bytes were left,
      -- unless it ends before the first byte.
      pub decode_eof-prefix :
          decode_eof f limits p
          ≡ some ((if eqb (length p) 0 then ok none else err (unexpected_eof (length p))), p)
      unfolding decode_eof
      decode_eof-prefix = ground (arith, decode_frame-prefix)
