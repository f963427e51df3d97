-- ===== src/Rpc/HeaderLaws.antt =====
-- The headers read back what they wrote, and only that.
use cakemaster.Base.{
  ℕ, ◌+◌, ◌≤◌, Option, none, some, List, [], ◌∷◌, ◌++◌, ◌≡◌, refl, arith, Bool-cases, inl, inr, sym,
  ◌∙◌, ok_inj, ap, subst, Option-cases, eqb, ltb, ok,
}
use mathlib.Core.Option.{some_inj}
use cakemaster.Base.Lists.{length, All}
use cakemaster.Rpc.Words.{
  to_le_bytes, get_u32_le, ◌>>=◌, u32_max, IsByte, word, word_of_bytes, bytes_of_word,
}
use cakemaster.Rpc.Headers.{
  RequestHeader, encode_request_header, decode_request_header, read_request_fields,
  check_request_header, ResponseHeader, encode_response_header, decode_response_header,
  read_response_fields, check_response_header, magic_byte, protocol_version,
  struct_pack_serialization,
}

-- A header of this protocol whose lengths and numbers are u32.
abbrev pub IsRequest : RequestHeader → Type 0
IsRequest h =
    (h.magic ≡ magic_byte)
    × (h.version ≡ protocol_version)
    × (h.serialize_type ≡ struct_pack_serialization)
    × (h.sequence ≤ u32_max)
    × (h.function_id ≤ u32_max)
    × (h.body_len ≤ u32_max)
    × (h.attachment_len ≤ u32_max)

pub decode-encode_request_header :
    (h : RequestHeader)
    → IsRequest h
    → decode_request_header (encode_request_header h) ≡ some (ok h)
unfolding decode_request_header
decode-encode_request_header h (m, v, st, s, f, b, a) = ground (
  arith,
  m,
  v,
  st,
  word_of_bytes h.sequence s,
  word_of_bytes h.function_id f,
  word_of_bytes h.body_len b,
  word_of_bytes h.attachment_len a,
)

abbrev pub IsResponse : ResponseHeader → Type 0
IsResponse h =
    (h.magic ≡ magic_byte)
    × (h.version ≡ protocol_version)
    × (h.sequence ≤ u32_max)
    × (h.body_len ≤ u32_max)
    × (h.attachment_len ≤ u32_max)

pub decode-encode_response_header :
    (h : ResponseHeader)
    → IsResponse h
    → decode_response_header (encode_response_header h) ≡ some (ok h)
unfolding decode_response_header
decode-encode_response_header h (m, v, s, b, a) = ground (
  arith,
  m,
  v,
  word_of_bytes h.sequence s,
  word_of_bytes h.body_len b,
  word_of_bytes h.attachment_len a,
)

-- The bytes of a word are those that it was read from.
to_le_bytes-word :
    (a b c d : ℕ)
    → IsByte a
    → IsByte b
    → IsByte c
    → IsByte d
    → to_le_bytes (word a b c d) ≡ a ∷ b ∷ c ∷ d ∷ []
to_le_bytes-word a b c d ha hb hc hd =
    let (ea, eb, ec, ed) = bytes_of_word a b c d ha hb hc hd in rw (ea, eb, ec, ed) refl

check_request_header-inv :
    (h h' : RequestHeader)
    → check_request_header h ≡ ok h'
    → (h ≡ h')
      × (h.magic ≡ magic_byte)
      × (h.version ≡ protocol_version)
      × (h.serialize_type ≡ struct_pack_serialization)
check_request_header-inv h h' done = elim (Bool-cases (eqb h.magic magic_byte)) [
  | inr bad ↦ absurd (ground (arith, done, bad))
  | inl magic ↦ elim (Bool-cases (ltb protocol_version h.version)) [
    | inl late ↦ absurd (ground (arith, done, magic, late))
    | inr fine ↦ elim (Bool-cases (eqb h.serialize_type struct_pack_serialization)) [
      | inr other ↦ absurd (ground (arith, done, magic, fine, other))
      | inl same ↦
          let good : check_request_header h ≡ ok h = ground (arith, magic, fine, same) in
          (
            ok_inj (sym good ∙ done),
            ground (arith, magic),
            ground (arith, fine),
            ground (arith, same),
          )
    ]
  ]
]

check_response_header-inv :
    (h h' : ResponseHeader)
    → check_response_header h ≡ ok h'
    → (h ≡ h') × (h.magic ≡ magic_byte) × (h.version ≡ protocol_version)
check_response_header-inv h h' done = elim (Bool-cases (eqb h.magic magic_byte)) [
  | inr bad ↦ absurd (ground (arith, done, bad))
  | inl magic ↦ elim (Bool-cases (ltb protocol_version h.version)) [
    | inl late ↦ absurd (ground (arith, done, magic, late))
    | inr fine ↦
        let good : check_response_header h ≡ ok h = ground (arith, magic, fine) in
        (ok_inj (sym good ∙ done), ground (arith, magic), ground (arith, fine))
  ]
]

-- What was read is a u32, and its bytes with the rest are what was there.
abbrev ReadBack : List ℕ → ℕ × List ℕ → Type 0
ReadBack l (n, rest) =
    (l ≡ to_le_bytes n ++ rest) × (length l ≡ 4 + length rest) × (n ≤ u32_max) × All IsByte rest

get_u32_le-ReadBack :
    (l : List ℕ) (r : ℕ × List ℕ) → All IsByte l → get_u32_le l ≡ some r → ReadBack l r
get_u32_le-ReadBack [] r small got = absurd (ground (arith, got))
get_u32_le-ReadBack (a ∷ []) r small got = absurd (ground (arith, got))
get_u32_le-ReadBack (a ∷ b ∷ []) r small got = absurd (ground (arith, got))
get_u32_le-ReadBack (a ∷ b ∷ c ∷ []) r small got = absurd (ground (arith, got))
get_u32_le-ReadBack (a ∷ b ∷ c ∷ d ∷ rest) r (ha, (hb, (hc, (hd, hrest)))) got =
    subst (λ r. ReadBack (a ∷ b ∷ c ∷ d ∷ rest) r) (some_inj.0 got)
      (
        ap (λ l. l ++ rest) (sym (to_le_bytes-word a b c d ha hb hc hd)),
        omega arith,
        omega (arith, ha, hb, hc, hd),
        hrest,
      )

read_some :
    {A B : Type 0} (o : Option A) (f : A → Option B) {b : B}
    → (o >>= f) ≡ some b
    → (a : A) × (o ≡ some a) × (f a ≡ some b)
read_some none f done = absurd (ground (arith, done))
read_some (some a) f done = (a, refl, done)

empty_of_length : (l : List ℕ) → length l ≡ 0 → l ≡ []
empty_of_length [] h = refl
empty_of_length (x ∷ l) h = absurd (omega (arith, h))

read_request_fields-lem :
    (bytes : List ℕ) (h : RequestHeader)
    → All IsByte bytes
    → length bytes ≡ 20
    → read_request_fields bytes ≡ some h
    → (encode_request_header h ≡ bytes)
      × (h.sequence ≤ u32_max)
      × (h.function_id ≤ u32_max)
      × (h.body_len ≤ u32_max)
      × (h.attachment_len ≤ u32_max)
read_request_fields-lem (m ∷ v ∷ st ∷ t ∷ fields) h (hm, (hv, (hs, (ht, small)))) len done =
    let (r1, got1, done1) = read_some (get_u32_le fields) _ done in
    let (r2, got2, done2) = read_some (get_u32_le r1.1) _ done1 in
    let (r3, got3, done3) = read_some (get_u32_le r2.1) _ done2 in
    let (r4, got4, done4) = read_some (get_u32_le r3.1) _ done3 in
    let (back1, len1, u1, small1) = get_u32_le-ReadBack fields r1 small got1 in
    let (back2, len2, u2, small2) = get_u32_le-ReadBack r1.1 r2 small1 got2 in
    let (back3, len3, u3, small3) = get_u32_le-ReadBack r2.1 r3 small2 got3 in
    let (back4, len4, u4, small4) = get_u32_le-ReadBack r3.1 r4 small3 got4 in
    let last : r4.1 ≡ [] = empty_of_length r4.1 (omega (arith, len, len1, len2, len3, len4)) in
    let whole : fields
        ≡ to_le_bytes r1.0 ++ (to_le_bytes r2.0 ++ (to_le_bytes r3.0 ++ to_le_bytes r4.0)) =
      back1
      ∙ ap (λ l. to_le_bytes r1.0 ++ l)
          (back2
            ∙ ap (λ l. to_le_bytes r2.0 ++ l)
                (back3
                  ∙ ap (λ l. to_le_bytes r3.0 ++ l)
                      (back4 ∙ ap (λ l. to_le_bytes r4.0 ++ l) last))) in
    subst
      (λ h.
        (encode_request_header h ≡ m ∷ v ∷ st ∷ t ∷ fields)
        × (h.sequence ≤ u32_max)
        × (h.function_id ≤ u32_max)
        × (h.body_len ≤ u32_max)
        × (h.attachment_len ≤ u32_max))
      (some_inj.0 done4) (ap (λ l. m ∷ v ∷ st ∷ t ∷ l) (sym whole), u1, u2, u3, u4)
read_request_fields-lem [] h small len done = absurd (omega (arith, len))
read_request_fields-lem (m ∷ []) h small len done = absurd (omega (arith, len))
read_request_fields-lem (m ∷ v ∷ []) h small len done = absurd (omega (arith, len))
read_request_fields-lem (m ∷ v ∷ st ∷ []) h small len done = absurd (omega (arith, len))

-- What the decoder accepts as a request header has the magic byte, the version and the serialization of
-- this protocol and numbers that are u32, and is written back as exactly the bytes it was read from.
pub encode-decode_request_header :
    (bytes : List ℕ) (h : RequestHeader)
    → All IsByte bytes
    → decode_request_header bytes ≡ some (ok h)
    → (encode_request_header h ≡ bytes) × IsRequest h
unfolding decode_request_header
encode-decode_request_header bytes h small done = elim (Bool-cases (eqb (length bytes) 20)) [
  | inr wrong ↦ absurd (ground (arith, done, wrong))
  | inl right ↦ elim (Option-cases (read_request_fields bytes)) [
    | inl few ↦ absurd (ground (arith, done, right, few))
    | inr (read, got) ↦
        let checked : check_request_header read ≡ ok h = ground (arith, done, right, got) in
        let (same, magic, version, serialization) = check_request_header-inv read h checked in
        let (back, u1, u2, u3, u4) =
          read_request_fields-lem bytes read small (ground (arith, right)) got in
        subst (λ x. (encode_request_header x ≡ bytes) × IsRequest x) same
          (back, (magic, version, serialization, u1, u2, u3, u4))
  ]
]

read_response_fields-lem :
    (bytes : List ℕ) (h : ResponseHeader)
    → All IsByte bytes
    → length bytes ≡ 16
    → read_response_fields bytes ≡ some h
    → (encode_response_header h ≡ bytes)
      × (h.sequence ≤ u32_max)
      × (h.body_len ≤ u32_max)
      × (h.attachment_len ≤ u32_max)
read_response_fields-lem (m ∷ v ∷ st ∷ t ∷ fields) h (hm, (hv, (hs, (ht, small)))) len done =
    let (r1, got1, done1) = read_some (get_u32_le fields) _ done in
    let (r2, got2, done2) = read_some (get_u32_le r1.1) _ done1 in
    let (r3, got3, done3) = read_some (get_u32_le r2.1) _ done2 in
    let (back1, len1, u1, small1) = get_u32_le-ReadBack fields r1 small got1 in
    let (back2, len2, u2, small2) = get_u32_le-ReadBack r1.1 r2 small1 got2 in
    let (back3, len3, u3, small3) = get_u32_le-ReadBack r2.1 r3 small2 got3 in
    let last : r3.1 ≡ [] = empty_of_length r3.1 (omega (arith, len, len1, len2, len3)) in
    let whole : fields ≡ to_le_bytes r1.0 ++ (to_le_bytes r2.0 ++ to_le_bytes r3.0) =
      back1
      ∙ ap (λ l. to_le_bytes r1.0 ++ l)
          (back2
            ∙ ap (λ l. to_le_bytes r2.0 ++ l) (back3 ∙ ap (λ l. to_le_bytes r3.0 ++ l) last)) in
    subst
      (λ h.
        (encode_response_header h ≡ m ∷ v ∷ st ∷ t ∷ fields)
        × (h.sequence ≤ u32_max)
        × (h.body_len ≤ u32_max)
        × (h.attachment_len ≤ u32_max))
      (some_inj.0 done3) (ap (λ l. m ∷ v ∷ st ∷ t ∷ l) (sym whole), u1, u2, u3)
read_response_fields-lem [] h small len done = absurd (omega (arith, len))
read_response_fields-lem (m ∷ []) h small len done = absurd (omega (arith, len))
read_response_fields-lem (m ∷ v ∷ []) h small len done = absurd (omega (arith, len))
read_response_fields-lem (m ∷ v ∷ st ∷ []) h small len done = absurd (omega (arith, len))

-- The same of a response header, whose error code is any byte.
pub encode-decode_response_header :
    (bytes : List ℕ) (h : ResponseHeader)
    → All IsByte bytes
    → decode_response_header bytes ≡ some (ok h)
    → (encode_response_header h ≡ bytes) × IsResponse h
unfolding decode_response_header
encode-decode_response_header bytes h small done = elim (Bool-cases (eqb (length bytes) 16)) [
  | inr wrong ↦ absurd (ground (arith, done, wrong))
  | inl right ↦ elim (Option-cases (read_response_fields bytes)) [
    | inl few ↦ absurd (ground (arith, done, right, few))
    | inr (read, got) ↦
        let checked : check_response_header read ≡ ok h = ground (arith, done, right, got) in
        let (same, magic, version) = check_response_header-inv read h checked in
        let (back, u1, u2, u3) =
          read_response_fields-lem bytes read small (ground (arith, right)) got in
        subst (λ x. (encode_response_header x ≡ bytes) × IsResponse x) same
          (back, (magic, version, u1, u2, u3))
  ]
]
