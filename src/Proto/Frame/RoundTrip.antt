-- ===== src/Proto/Frame/RoundTrip.antt =====
-- Encoding and decoding of frames (crates/muxtop-proto/src/frame.rs) are inverse.
use muxtop.Base.{
  ℕ, suc, ◌+◌, ◌-◌, ◌%◌, ◌^◌, ◌≤◌, ◌<◌, ◌≡◌, ◌≢◌, refl, ap, sym, ◌∙◌, List, [], ◌∷◌, ◌++◌, arith,
  length, length-append, take-append, length-take, take, All, ok,
}
use muxtop.Proto.Frame.{Frame, encode_frame, decode_frame, decode_content, max_frame_size}
use muxtop.Proto.Frame.Words.{
  to_be_bytes, from_be_bytes, from_be_bytes-to_be_bytes, to_be_bytes-from_be_bytes,
}

len32 :
    (frame : Frame)
    → suc (length frame.payload) ≤ max_frame_size
    → (1 + length frame.payload) % 2 ^ 32 ≡ suc (length frame.payload)
len32 frame h = omega arith

-- A frame that fits is encoded as its length, its type and its payload.
pub encode_frame-eq_of_fits :
    (frame : Frame)
    → suc (length frame.payload) ≤ max_frame_size
    → encode_frame frame
      ≡ ok (to_be_bytes (suc (length frame.payload)) ++ (frame.msg_type ∷ frame.payload))
unfolding encode_frame
encode_frame-eq_of_fits frame h = ground (arith, len32 frame h)

pub fits_of_encode_frame :
    (frame : Frame) {bytes : List ℕ}
    → encode_frame frame ≡ ok bytes
    → suc (length frame.payload) ≤ max_frame_size
unfolding encode_frame
fits_of_encode_frame frame h = ground arith

decode-header :
    (n : ℕ) (frame : Frame) (rest : List ℕ)
    → n ≡ suc (length frame.payload)
    → n ≤ max_frame_size
    → decode_content n (to_be_bytes n ++ (frame.msg_type ∷ (frame.payload ++ rest)))
      ≡ ok (frame, 4 + n)
unfolding decode_content to_be_bytes
decode-header n frame rest e h = ground (
  arith,
  length-append frame.payload rest,
  take-append frame.payload rest (4 + n - 5) (omega arith),
)

-- The length prefix of an encoded frame is read back before the content is.
decode_frame-header :
    (n : ℕ) (rest : List ℕ)
    → n < 2 ^ 32
    → decode_frame (to_be_bytes n ++ rest) ≡ decode_content n (to_be_bytes n ++ rest)
unfolding decode_frame to_be_bytes
decode_frame-header n rest h = ground (arith, from_be_bytes-to_be_bytes n h)

length-encoded :
    (n t : ℕ) (payload : List ℕ)
    → length (to_be_bytes n ++ (t ∷ payload)) ≡ 4 + suc (length payload)
unfolding to_be_bytes
length-encoded n t payload = omega arith

append-encoded :
    (n t : ℕ) (payload rest : List ℕ)
    → (to_be_bytes n ++ (t ∷ payload)) ++ rest ≡ to_be_bytes n ++ (t ∷ (payload ++ rest))
unfolding to_be_bytes
append-encoded n t payload rest = refl

decode_encoded :
    (frame : Frame) (rest : List ℕ)
    → suc (length frame.payload) ≤ max_frame_size
    → decode_frame
        ((to_be_bytes (suc (length frame.payload)) ++ (frame.msg_type ∷ frame.payload)) ++ rest)
      ≡ ok (frame, 4 + suc (length frame.payload))
decode_encoded frame rest h = rw append-encoded (
    decode_frame-header (suc (length frame.payload)) _ (omega arith)
    ∙ decode-header (suc (length frame.payload)) frame rest refl h)

-- What `encode_frame` writes, `decode_frame` reads back whatever bytes follow, and it consumes
-- exactly the encoded bytes.
pub decode_frame-encode_frame :
    (frame : Frame) {bytes : List ℕ} (rest : List ℕ)
    → encode_frame frame ≡ ok bytes
    → decode_frame (bytes ++ rest) ≡ ok (frame, length bytes)
decode_frame-encode_frame frame rest h = cc (
  h,
  encode_frame-eq_of_fits frame (fits_of_encode_frame frame h),
  decode_encoded frame rest (fits_of_encode_frame frame h),
  length-encoded (suc (length frame.payload)) frame.msg_type frame.payload,
)

-- What an accepted content is: a type byte, then a payload of the length that the prefix gives.
record IsContent (n : ℕ) (x : ℕ) (rest : List ℕ) (frame : Frame) (k : ℕ) : Type 0 where
  nonempty : suc (length frame.payload) ≡ n
  fits : n ≤ max_frame_size
  inside : n ≤ suc (length rest)
  consumed : k ≡ 4 + n
  type_byte : frame.msg_type ≡ x
  payload_bytes : frame.payload ≡ take (n - 1) rest

IsContent-of_decode :
    (n x a b c d : ℕ) (rest : List ℕ) {frame : Frame} {k : ℕ}
    → decode_content n (a ∷ b ∷ c ∷ d ∷ x ∷ rest) ≡ ok (frame, k)
    → IsContent n x rest frame k
unfolding decode_content
IsContent-of_decode n x a b c d rest h =
    let shift : 4 + n - 5 ≡ n - 1 = omega arith in
    ground (arith, length-take (4 + n - 5) rest, ap (λ m. take m rest) shift)

decode_content_short :
    (n a b c d : ℕ) {p : Frame × ℕ} → decode_content n (a ∷ b ∷ c ∷ d ∷ []) ≢ ok p
unfolding decode_content
decode_content_short n a b c d h = ground arith

-- An accepted content is the encoding of its frame.
encode_content :
    (n x : ℕ) (rest : List ℕ) {frame : Frame} {k : ℕ}
    → IsContent n x rest frame k
    → encode_frame frame ≡ ok (to_be_bytes n ++ (x ∷ take (n - 1) rest))
encode_content n x rest {frame} v =
    encode_frame-eq_of_fits frame (omega arith) ∙ cc (v.nonempty, v.type_byte, v.payload_bytes)

take_content :
    (n k a b c d x : ℕ) (rest : List ℕ)
    → 0 < n
    → k ≡ 4 + n
    → take k (a ∷ b ∷ c ∷ d ∷ x ∷ rest) ≡ a ∷ b ∷ c ∷ d ∷ x ∷ take (n - 1) rest
take_content n k a b c d x rest h e =
    let five : k ≡ suc (suc (suc (suc (suc (n - 1))))) = omega arith in rw five

abbrev pub IsByte : ℕ → Type 0
IsByte x = x < 256

decode_frame-cons :
    (a b c d : ℕ) (rest : List ℕ)
    → decode_frame (a ∷ b ∷ c ∷ d ∷ rest)
      ≡ decode_content (from_be_bytes a b c d) (a ∷ b ∷ c ∷ d ∷ rest)
unfolding decode_frame
decode_frame-cons a b c d rest = ground arith

decode_frame_short : (buf : List ℕ) {p : Frame × ℕ} → length buf < 4 → decode_frame buf ≢ ok p
unfolding decode_frame
decode_frame_short buf h e = ground arith

-- Bytes decode to a frame only if they begin with the encoding of that frame, whose length is the
-- number of bytes that are consumed.
pub encode_frame-decode_frame :
    (buf : List ℕ) {frame : Frame} {n : ℕ}
    → All IsByte buf
    → decode_frame buf ≡ ok (frame, n)
    → (encode_frame frame ≡ ok (take n buf)) × (n ≤ length buf)
encode_frame-decode_frame (a ∷ b ∷ c ∷ d ∷ x ∷ rest) {frame} {n} (ha, (hb, (hc, (hd, _)))) h =
    let len = from_be_bytes a b c d in
    let v =
      IsContent-of_decode len x a b c d rest (sym (decode_frame-cons a b c d (x ∷ rest)) ∙ h) in
    (
      cc (
        encode_content len x rest v,
        take_content len n a b c d x rest (omega arith) v.consumed,
        ap (λ (l : List ℕ). l ++ (x ∷ take (len - 1) rest))
            (to_be_bytes-from_be_bytes a b c d ha hb hc hd),
      ),
      omega arith,
    )
encode_frame-decode_frame (a ∷ b ∷ c ∷ d ∷ []) _ h =
    absurd (decode_content_short _ a b c d (sym (decode_frame-cons a b c d []) ∙ h))
encode_frame-decode_frame buf _ h = absurd (decode_frame_short buf (omega arith) h)
