-- ===== src/Proto/Frame/Stream/Session.antt =====
-- What the reader makes of a stream that holds encoded frames (crates/muxtop-proto/src/frame.rs).
use muxtop.Base.{
  ℕ, suc, ◌-◌, ◌≤◌, ◌≡◌, refl, subst, ap, ◌∙◌, none, some, List, [], ◌∷◌, ◌++◌, length,
  length-append, take-append, drop-append, ok, arith, lt→ltb, le→ltb,
}
use muxtop.Proto.Frame.{Frame, encode_frame, max_frame_size}
use muxtop.Proto.Frame.Words.{to_be_bytes, from_be_bytes-to_be_bytes}
use muxtop.Proto.Frame.RoundTrip.{encode_frame-eq_of_fits, fits_of_encode_frame}
use muxtop.Proto.Frame.Stream.{
  ByteSource, read_frame_with_max_payload, read_frame, read_body, read_content,
}

-- The bytes that a writer sends for a list of frames.
pub data IsStream : List Frame → List ℕ → Type 0 where
  nil : IsStream [] []
  cons :
      (f : Frame) (bytes : List ℕ) {fs : List Frame} {rest : List ℕ}
      → encode_frame f ≡ ok bytes
      → IsStream fs rest
      → IsStream (f ∷ fs) (bytes ++ rest)

module _ (source : ByteSource) where
  open source use {
    Reader, read_exact, Delivers, read_exact_full, read_exact_short, read_exact_length,
  }

  -- Reading `n` bytes off a stream that begins with a block of `n` bytes.
  read_exact-append :
      (block rest : List ℕ) (r : Reader)
      → Delivers r (block ++ rest)
      → (r' : Reader) × (read_exact (length block) r ≡ (ok block, r')) × Delivers r' rest
  read_exact-append block rest r d =
      let (r', e, d') =
        read_exact_full (length block) r (block ++ rest) d
          (omega (arith, length-append block rest)) in
      (
        r',
        e ∙ ap (λ bytes. (ok bytes, r')) (take-append block rest (length block) refl),
        subst (Delivers r') (drop-append block rest (length block) refl) d',
      )

  read_body_delivers :
      (t : ℕ) (payload rest : List ℕ) (r : Reader)
      → Delivers r (t ∷ (payload ++ rest))
      → (r' : Reader) × (read_body source (length payload) r
          ≡ (ok (some (record { msg_type = t; payload = payload })), r'))
        × Delivers r' rest
  unfolding read_body
  read_body_delivers t [] rest r d =
      let (r₁, e₁, d₁) = read_exact-append (t ∷ []) rest r d in (r₁, rw e₁, d₁)
  read_body_delivers t (x ∷ xs) rest r d =
      let (r₁, e₁, d₁) = read_exact-append (t ∷ []) ((x ∷ xs) ++ rest) r d in
      let (r₂, e₂, d₂) = read_exact-append (x ∷ xs) rest r₁ d₁ in
      (r₂, rw e₁ (rw (lt→ltb 0 (length (x ∷ xs)) (omega arith)) (rw e₂)), d₂)

  -- Both caps let the content through.
  read_content-eq_body :
      (limit n : ℕ) (r : Reader)
      → n ≤ limit
      → suc n ≤ max_frame_size
      → read_content source limit (suc n) r ≡ read_body source n r
  unfolding read_content
  read_content-eq_body limit n r h k =
      ground (arith, le→ltb max_frame_size (suc n) k, le→ltb limit (suc n - 1) (omega arith))

  read_frame_delivers :
      (limit : ℕ) (frame : Frame) (rest : List ℕ) (r : Reader)
      → length frame.payload ≤ limit
      → suc (length frame.payload) ≤ max_frame_size
      → Delivers r
          ((to_be_bytes (suc (length frame.payload)) ++ (frame.msg_type ∷ frame.payload)) ++ rest)
      → (r' : Reader) × (read_frame_with_max_payload source limit r ≡ (ok (some frame), r'))
        × Delivers r' rest
  unfolding read_frame_with_max_payload to_be_bytes
  read_frame_delivers limit frame rest r h k d =
      let n = suc (length frame.payload) in
      let (r₁, e₁, d₁) =
        read_exact-append (to_be_bytes n) (frame.msg_type ∷ (frame.payload ++ rest)) r d in
      let (r₂, e₂, d₂) = read_body_delivers frame.msg_type frame.payload rest r₁ d₁ in
      (
        r₂,
        rw e₁ (
            rw (from_be_bytes-to_be_bytes n (omega arith))
              (read_content-eq_body limit (length frame.payload) r₁ h k ∙ e₂)),
        d₂,
      )

  -- An encoded frame whose payload is within the cap is read back from the stream, and the reader
  -- is left at the bytes that follow it.
  pub read_frame-encode_frame :
      (limit : ℕ) (frame : Frame) {bytes : List ℕ} (rest : List ℕ) (r : Reader)
      → encode_frame frame ≡ ok bytes
      → length frame.payload ≤ limit
      → Delivers r (bytes ++ rest)
      → (r' : Reader) × (read_frame_with_max_payload source limit r ≡ (ok (some frame), r'))
        × Delivers r' rest
  read_frame-encode_frame limit frame {bytes} rest r e h d =
      let fits = fits_of_encode_frame frame e in
      let same : bytes
          ≡ to_be_bytes (suc (length frame.payload)) ++ (frame.msg_type ∷ frame.payload) =
        cc (encode_frame-eq_of_fits frame fits) in
      read_frame_delivers limit frame rest r h fits (subst (λ b. Delivers r (b ++ rest)) same d)

  -- The frames that repeated calls of `read_frame` return before the clean end of the stream.
  pub data Receives : Reader → List Frame → Type 0 where
    end : {r r' : Reader} → read_frame source r ≡ (ok none, r') → Receives r []
    frame :
        {r r' : Reader} (f : Frame) {fs : List Frame}
        → read_frame source r ≡ (ok (some f), r')
        → Receives r' fs
        → Receives r (f ∷ fs)

  read_frame_end :
      (r : Reader) → Delivers r [] → (r' : Reader) × (read_frame source r ≡ (ok none, r'))
  unfolding read_frame read_frame_with_max_payload
  read_frame_end r d = let (r', e) = read_exact_short 4 r [] d (omega arith) in (r', rw e)

  -- A stream that holds the encodings of some frames, one after the other, is read as exactly
  -- these frames in this order, and then as a clean end.
  pub Receives-of_encoded :
      (r : Reader) {fs : List Frame} {stream : List ℕ}
      → IsStream fs stream
      → Delivers r stream
      → Receives r fs
  unfolding read_frame
  Receives-of_encoded r nil d = let (r', e) = read_frame_end r d in end e
  Receives-of_encoded r (cons f bytes {rest = rest} e s) d =
      let (r', read, d') =
        read_frame-encode_frame (max_frame_size - 1) f rest r e
          (omega (arith, fits_of_encode_frame f e)) d in
      frame f read (Receives-of_encoded r' s d')
