-- ===== src/Rpc/Frame/Accepts.antt =====
-- What the codecs accept: the other direction of the round trip.
use cakemaster.Base.{
  ℕ, ◌+◌, ◌≤◌, Option, none, some, List, ◌++◌, ltb, Result, ok, err, ◌≡◌, sym, ap, ◌∙◌, subst,
  arith, Bool-cases, Option-cases, Result-cases, inl, inr, ok_inj,
}
use mathlib.Core.Option.{some_inj}
use cakemaster.Base.Lists.{
  length, take, drop, take-drop, append_assoc, All, All-take, length-take, length-drop,
}
use cakemaster.Rpc.Words.{IsByte}
use cakemaster.Rpc.Frame.Defs.{
  FrameLimits, FrameError, HeaderFormat, Frame, split_payload, payload_of, decode_payload,
  with_payload, decode_frame, frame_bytes,
}
use cakemaster.Rpc.Frame.Streams.{HeaderLaws, decode_frame_step}

ap2_pair : {A B : Type 0} {a a' : A} {b b' : B} → a ≡ a' → b ≡ b' → Path (A × B) (a, b) (a', b')
ap2_pair {a} {a'} {b} {b'} p q = ap (λ x. (x, b)) p ∙ ap (λ y. (a', y)) q

payload_of-inv :
    (source : List ℕ) (header_len body_len attachment_len n : ℕ) {parts : List ℕ × List ℕ}
    {rest : List ℕ}
    → payload_of source header_len body_len attachment_len n ≡ (ok (some parts), rest)
    → (header_len + n ≤ length source)
      × (split_payload source header_len body_len attachment_len ≡ (parts, rest))
payload_of-inv source header_len body_len attachment_len n done = ground (arith, done)

decode_payload-inv :
    (limits : FrameLimits) (source : List ℕ) (header_len body_len attachment_len : ℕ)
    {parts : List ℕ × List ℕ} {rest : List ℕ}
    → decode_payload source header_len body_len attachment_len limits ≡ (ok (some parts), rest)
    → (body_len ≤ limits.max_body_len)
      × (attachment_len ≤ limits.max_attachment_len)
      × (payload_of source header_len body_len attachment_len (body_len + attachment_len)
          ≡ (ok (some parts), rest))
decode_payload-inv limits source header_len body_len attachment_len done = ground (arith, done)

module _ (f : HeaderFormat) where
  with_payload-inv :
      (h : f.Header) (r : Result FrameError (Option (List ℕ × List ℕ))) (frame : Frame f)
      → with_payload f h r ≡ ok (some frame)
      → (h ≡ frame.header) × (r ≡ ok (some (frame.body, frame.attachment)))
  with_payload-inv h (err e) frame done = absurd (ground (arith, done))
  with_payload-inv h (ok none) frame done = absurd (ground (arith, done))
  with_payload-inv h (ok (some (body, attachment))) frame done =
      let same : record { header = h; body = body; attachment = attachment } ≡ frame =
        some_inj.0 (ok_inj done) in
      (ap (λ x. x.header) same, ap {A = Frame f} (λ x. ok (some (x.body, x.attachment))) same)

  decode_frame-inv :
      (limits : FrameLimits) (source : List ℕ) (frame : Frame f) (rest : List ℕ)
      → decode_frame f limits source ≡ some (ok (some frame), rest)
      → (f.decode_header (take f.header_len source) ≡ some (ok frame.header))
        × (decode_payload source f.header_len
              (f.body_len frame.header)
              (f.attachment_len frame.header)
              limits
            ≡ (ok (some (frame.body, frame.attachment)), rest))
  unfolding decode_frame
  decode_frame-inv limits source frame rest done =
      elim (Bool-cases (ltb (length source) f.header_len)) [
        | inl few ↦ absurd (ground (arith, done, few))
        | inr enough ↦ elim (Option-cases (f.decode_header (take f.header_len source))) [
          | inl panic ↦ absurd (ground (arith, done, enough, panic))
          | inr (r, read) ↦ elim (Result-cases r) [
            | inl (e, bad) ↦ absurd (ground (arith, done, enough, read, bad))
            | inr (h, good) ↦
                let accepted = read ∙ ap some good in
                let both = some_inj.0 (
                  sym (decode_frame_step f limits source h (ground (arith, enough)) accepted)
                  ∙ done) in
                let (same, payload) =
                  with_payload-inv h
                    (decode_payload source f.header_len (f.body_len h) (f.attachment_len h)
                      limits).0
                    frame (ap (λ x. x.0) both) in
                (
                  accepted ∙ ap (λ x. some (ok x)) same,
                  subst
                      (λ x.
                        decode_payload source f.header_len (f.body_len x) (f.attachment_len x)
                          limits
                        ≡ (ok (some (frame.body, frame.attachment)), rest))
                      same (ap2_pair payload (ap (λ x. x.1) both)),
                )
          ]
        ]
      ]

split_payload-whole :
    (source : List ℕ) (n b a : ℕ) (body attachment rest : List ℕ)
    → split_payload source n b a ≡ ((body, attachment), rest)
    → take n source ++ (body ++ (attachment ++ rest)) ≡ source
split_payload-whole source n b a body attachment rest split =
    ap (λ x. take n source ++ (x.0.0 ++ (x.0.1 ++ x.1))) (sym split)
    ∙ ap (λ l. take n source ++ (take b (drop n source) ++ l))
        (take-drop a (drop b (drop n source)))
    ∙ ap (λ l. take n source ++ l) (take-drop b (drop n source))
    ∙ take-drop n source

split_payload-lengths :
    (source : List ℕ) (n b a : ℕ) (body attachment rest : List ℕ)
    → n + (b + a) ≤ length source
    → split_payload source n b a ≡ ((body, attachment), rest)
    → (length body ≡ b) × (length attachment ≡ a)
split_payload-lengths source n b a body attachment rest enough split = (
  ap (λ x. length x.0.0) (sym split)
      ∙ length-take b (drop n source) (omega (arith, enough, length-drop n source)),
  ap (λ x. length x.0.1) (sym split)
      ∙ length-take a (drop b (drop n source))
          (omega (arith, enough, length-drop n source, length-drop b (drop n source))),
)

module _ {f : HeaderFormat} (laws : HeaderLaws f) where
  -- A frame that the decoder takes off a buffer of bytes is written back as exactly the bytes that were taken:
  -- with what the decoder left they are the buffer. Its header is one of its kind, it states the lengths of
  -- the body and the attachment, and these are within the decoder's limits.
  pub encode-decode_frame :
      (limits : FrameLimits) (source : List ℕ) (frame : Frame f) (rest : List ℕ)
      → All IsByte source
      → decode_frame f limits source ≡ some (ok (some frame), rest)
      → (frame_bytes f frame ++ rest ≡ source)
        × laws.IsHeader frame.header
        × (f.body_len frame.header ≡ length frame.body)
        × (f.attachment_len frame.header ≡ length frame.attachment)
        × (length frame.body ≤ limits.max_body_len)
        × (length frame.attachment ≤ limits.max_attachment_len)
  encode-decode_frame limits source frame rest small done =
      let (read, payload) = decode_frame-inv f limits source frame rest done in
      let (body_fits, attachment_fits, of) =
        decode_payload-inv limits source f.header_len (f.body_len frame.header)
          (f.attachment_len frame.header) payload in
      let (enough, split) =
        payload_of-inv source f.header_len (f.body_len frame.header) (f.attachment_len frame.header)
          (f.body_len frame.header + f.attachment_len frame.header) of in
      let (back, is) =
        laws.encode-decode_header (take f.header_len source) frame.header
          (All-take IsByte f.header_len source small) read in
      let whole =
        split_payload-whole source f.header_len (f.body_len frame.header)
          (f.attachment_len frame.header) frame.body frame.attachment rest split in
      let (body_length, attachment_length) =
        split_payload-lengths source f.header_len (f.body_len frame.header)
          (f.attachment_len frame.header) frame.body frame.attachment rest enough split in
      (
        append_assoc (f.encode_header frame.header) (frame.body ++ frame.attachment) rest
            ∙ ap (λ l. f.encode_header frame.header ++ l)
                (append_assoc frame.body frame.attachment rest)
            ∙ ap (λ l. l ++ (frame.body ++ (frame.attachment ++ rest))) back
            ∙ whole,
        is,
        sym body_length,
        sym attachment_length,
        omega (arith, body_length, body_fits),
        omega (arith, attachment_length, attachment_fits),
      )
