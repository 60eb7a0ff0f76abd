-- ===== src/Proto/Frame/Stream/Caps.antt =====
-- The caps of `read_frame_with_max_payload` (crates/muxtop-proto/src/frame.rs), for every stream.
use muxtop.Base.{
  ℕ, suc, ◌+◌, ◌-◌, ◌≤◌, ◌<◌, ◌≡◌, refl, some, List, length, get_or, Result, ok, err, arith, ltb,
  inl, inr, ◌⊎◌, if◌then◌else◌, min, ◌^◌,
}
use muxtop.Proto.Frame.{Frame, IoError, max_frame_size, frame_too_large}
use muxtop.Proto.Frame.Words.{from_be_bytes}
use muxtop.Proto.Frame.Stream.{ByteSource, read_frame_with_max_payload, read_body, read_content}

-- The length that a header announces.
abbrev pub announced : List ℕ → ℕ
announced h = from_be_bytes (get_or h 0 0) (get_or h 1 0) (get_or h 2 0) (get_or h 3 0)

module _ (source : ByteSource) where
  open source use {Reader, read_exact, read_exact_length}

  exact_length :
      (n : ℕ) (r : Reader) (bytes : List ℕ) → (read_exact n r).0 ≡ ok bytes → length bytes ≡ n
  exact_length n r bytes h = read_exact_length n r (λ i. (h i, (read_exact n r).1))

  Result-cases :
      (m : Result IoError (List ℕ)) → ((b : List ℕ) × (m ≡ ok b)) ⊎ ((e : IoError) × (m ≡ err e))
  Result-cases (ok b) = inl (b, refl)
  Result-cases (err e) = inr (e, refl)

  read_body-length :
      (n : ℕ) (r : Reader) (f : Frame) (r' : Reader)
      → read_body source n r ≡ (ok (some f), r')
      → length f.payload ≡ n
  unfolding read_body
  read_body-length n r f r' h = elim (Result-cases (read_exact n (read_exact 1 r).1).0) [
    | inl (b, e) ↦ ground (arith, e, exact_length n (read_exact 1 r).1 b)
    | inr (x, e) ↦ ground (arith, e)
  ]

  read_content_caps :
      (limit n : ℕ) (r : Reader) (f : Frame) (r' : Reader)
      → read_content source limit n r ≡ (ok (some f), r')
      → (length f.payload ≤ limit) × (suc (length f.payload) ≤ max_frame_size)
  unfolding read_content
  read_content_caps limit n r f r' h = ground (arith, read_body-length (n - 1) r f r')

  -- Whatever the stream does, a frame that is returned respects the caller's payload cap and the
  -- global one.
  pub read_frame_caps :
      (limit : ℕ) (r : Reader) {f : Frame} {r' : Reader}
      → read_frame_with_max_payload source limit r ≡ (ok (some f), r')
      → (length f.payload ≤ limit) × (suc (length f.payload) ≤ max_frame_size)
  unfolding read_frame_with_max_payload
  read_frame_caps limit r {f} {r'} h = elim (Result-cases (read_exact 4 r).0) [
    | inl (b, e) ↦ ground (arith, e, read_content_caps limit (announced b) (read_exact 4 r).1 f r')
    | inr (x, e) ↦ ground (arith, e)
  ]

  -- A header that announces more than the caller's cap allows is refused before anything behind it
  -- is read: the error names the cap that applies, and the reader is the one that the header left.
  pub read_frame_oversize :
      (limit : ℕ) (r : Reader) (header : List ℕ) {r₁ : Reader}
      → read_exact 4 r ≡ (ok header, r₁)
      → limit + 1 < announced header
      → read_frame_with_max_payload source limit r ≡ (
        err (
            frame_too_large (announced header) (
              if ltb max_frame_size (announced header)
              then max_frame_size
              else min (limit + 1) (2 ^ 32 - 1))),
        r₁,
      )
  unfolding read_frame_with_max_payload read_content
  read_frame_oversize limit r header h k = ground (arith, h)
