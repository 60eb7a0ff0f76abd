-- ===== src/Proto/Frame/Stream/Pipe.antt =====
-- A writer at one end and a reader at the other (crates/muxtop-proto/src/frame.rs).
use muxtop.Base.{ℕ, ◌≡◌, refl, sym, subst, ap, ◌∙◌, List, [], ◌∷◌, ◌++◌, Result, ok, err}
use mathlib.Core.List.{append-nil, append_assoc}
use muxtop.Proto.Frame.{Frame, ProtoError, IoError, encode_frame}
use muxtop.Proto.Frame.Stream.{ByteSource, ByteSink, write_frame, write_bytes, flush_after}
use muxtop.Proto.Frame.Stream.Session.{IsStream, nil, cons, Receives, Receives-of_encoded}

module _ (sink : ByteSink) where
  open sink use {Writer, write_all, flush, contents, write_all_contents, flush_contents}

  -- Repeated calls of `write_frame` that all succeed.
  pub data Sends : Writer → List Frame → Writer → Type 0 where
    done : {w : Writer} → Sends w [] w
    send :
        {w w' w'' : Writer} (f : Frame) {fs : List Frame}
        → write_frame sink f w ≡ (ok tt, w')
        → Sends w' fs w''
        → Sends w (f ∷ fs) w''

  flush_after_contents :
      (m : Result IoError (Unit {0})) (w w' : Writer)
      → flush_after sink m w ≡ (ok tt, w')
      → (m ≡ ok tt) × (contents w' ≡ contents w)
  unfolding flush_after
  flush_after_contents (ok tt) w w' h =
      (refl, ap contents (sym (ap (λ p. p.1) h)) ∙ flush_contents w)
  flush_after_contents (err e) w w' h = absurd (cc h)

  write_bytes_contents :
      (m : Result ProtoError (List ℕ)) (w w' : Writer)
      → write_bytes sink m w ≡ (ok tt, w')
      → (bytes : List ℕ) × (m ≡ ok bytes) × (contents w' ≡ contents w ++ bytes)
  unfolding write_bytes
  write_bytes_contents (ok bytes) w w' h =
      let (wrote, same) = flush_after_contents (write_all bytes w).0 (write_all bytes w).1 w' h in
      (bytes, refl, same ∙ write_all_contents bytes w (λ i. (wrote i, (write_all bytes w).1)))
  write_bytes_contents (err e) w w' h = absurd (cc h)

  -- A successful `write_frame` has sent the encoding of the frame, and nothing else.
  pub write_frame_contents :
      (f : Frame) (w w' : Writer)
      → write_frame sink f w ≡ (ok tt, w')
      → (bytes : List ℕ) × (encode_frame f ≡ ok bytes) × (contents w' ≡ contents w ++ bytes)
  unfolding write_frame
  write_frame_contents f w w' h = write_bytes_contents (encode_frame f) w w' h

  Sends-IsStream :
      {w w' : Writer} {fs : List Frame}
      → Sends w fs w'
      → (stream : List ℕ) × IsStream fs stream × (contents w' ≡ contents w ++ stream)
  Sends-IsStream done = ([], nil, sym (append-nil _))
  Sends-IsStream (send {w = w} {w' = w'} f e rest) =
      let (bytes, encoded, now) = write_frame_contents f w w' e in
      let (stream, s, after) = Sends-IsStream rest in
      (
        bytes ++ stream,
        cons f bytes encoded s,
        after ∙ ap (λ l. l ++ stream) now ∙ append_assoc (contents w) bytes stream,
      )

-- Frames that are written to a fresh connection are received at its other end, all of them and in
-- order, and then a clean end, if the connection delivers what was sent.
pub Receives-Sends :
    (sink : ByteSink) (source : ByteSource) (fs : List Frame) (w w' : sink.Writer)
    (r : source.Reader)
    → sink.contents w ≡ []
    → Sends sink w fs w'
    → source.Delivers r (sink.contents w')
    → Receives source r fs
Receives-Sends sink source fs w w' r fresh sent d =
    let (stream, s, after) = Sends-IsStream sink sent in
    Receives-of_encoded source r s
      (subst (source.Delivers r) (after ∙ ap (λ l. l ++ stream) fresh) d)
