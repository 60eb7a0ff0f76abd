-- ===== src/Proto/Wire/RoundTrip.antt =====
-- A message comes back from its frame (crates/muxtop-proto/src/wire.rs).
use muxtop.Base.{
  ℕ, ◌≤◌, ◌≡◌, refl, ap, ◌∙◌, List, Result, ok, err, leb, le→leb, if◌then◌else◌, Bool-cases, inl,
  inr,
}
use muxtop.Proto.Frame.{Frame, ProtoError, decode}
use muxtop.Proto.Wire.{
  WireMessage, snapshot, heartbeat, error, hello, welcome, Coder, Config, Bincode, bincode_config,
  max_decode_bytes, framed, mapped, to_frame, from_frame, heartbeat_of, error_of, hello_of,
  welcome_of,
}

-- What bincode documents: a value that has been encoded is decoded to itself, or refused if it
-- takes more memory than the limit allows.
abbrev pub within : {A : Type 0} → ℕ → ℕ → A → Result ProtoError A
within limit claimed a = if leb claimed limit then ok a else err decode

abbrev pub IsFaithful : {A : Type 0} → Coder A → Type 0
IsFaithful {A} c =
    (a : A) (config : Config) (bytes : List ℕ)
    → c.encode_to_vec a config ≡ ok bytes
    → c.decode_from_slice bytes config ≡ within config.limit (c.claimed a) a

pub record Faithful {Snapshot : Type 0} (bincode : Bincode Snapshot) : Type 0 where
  pub snapshots : IsFaithful bincode.of_snapshot
  pub heartbeats : IsFaithful bincode.of_heartbeat
  pub errors : IsFaithful bincode.of_error
  pub hellos : IsFaithful bincode.of_hello
  pub welcomes : IsFaithful bincode.of_welcome

framed_ok :
    (t : ℕ) (r : Result ProtoError (List ℕ)) (f : Frame)
    → framed t r ≡ ok f
    → (bytes : List ℕ) × ((r ≡ ok bytes) × (f ≡ record { msg_type = t; payload = bytes }))
framed_ok t (ok bytes) f h = (bytes, (refl, cc h))
framed_ok t (err e) f h = absurd (cc h)

mapped-within :
    {A B : Type 0} (f : A → B) (limit claimed : ℕ) (a : A)
    → mapped f (within limit claimed a) ≡ within limit claimed (f a)
mapped-within f limit claimed a = elim (Bool-cases (leb claimed limit)) [
  | inl e ↦ rw e refl
  | inr e ↦ rw e refl
]

module _ {Snapshot : Type 0} (bincode : Bincode Snapshot) where
  -- The memory that bincode claims to read the message back.
  abbrev pub claimed_by : WireMessage Snapshot → ℕ
  claimed_by (snapshot snap) = bincode.of_snapshot.claimed snap
  claimed_by (heartbeat v t) = bincode.of_heartbeat.claimed (v, t)
  claimed_by (error code message) = bincode.of_error.claimed (code, message)
  claimed_by (hello v token) = bincode.of_hello.claimed (v, token)
  claimed_by (welcome v host hz) = bincode.of_welcome.claimed (v, (host, hz))

  module _ (faithful : Faithful bincode) where
    -- With a bincode that is faithful to its limit, a message that has a frame is read back from it
    -- if reading it claims at most 4 MiB of memory, and is refused by the decoder if it claims more.
    pub from_frame-to_frame :
        (m : WireMessage Snapshot) (f : Frame)
        → to_frame bincode m ≡ ok f
        → from_frame bincode f ≡ within max_decode_bytes (claimed_by m) m
    unfolding to_frame from_frame
    from_frame-to_frame (snapshot snap) f h =
        let (bytes, (encoded, shape)) = framed_ok _ _ f h in
        rw shape (
          ap (mapped snapshot) (faithful.snapshots snap bincode_config bytes encoded)
          ∙ mapped-within snapshot max_decode_bytes (bincode.of_snapshot.claimed snap) snap)
    from_frame-to_frame (heartbeat v t) f h =
        let (bytes, (encoded, shape)) = framed_ok _ _ f h in
        rw shape (
          ap (mapped (heartbeat_of bincode))
            (faithful.heartbeats (v, t) bincode_config bytes encoded)
          ∙ mapped-within (heartbeat_of bincode) max_decode_bytes
              (bincode.of_heartbeat.claimed (v, t)) (v, t))
    from_frame-to_frame (error code message) f h =
        let (bytes, (encoded, shape)) = framed_ok _ _ f h in
        rw shape (
          ap (mapped (error_of bincode))
            (faithful.errors (code, message) bincode_config bytes encoded)
          ∙ mapped-within (error_of bincode) max_decode_bytes
              (bincode.of_error.claimed (code, message)) (code, message))
    from_frame-to_frame (hello v token) f h =
        let (bytes, (encoded, shape)) = framed_ok _ _ f h in
        rw shape (
          ap (mapped (hello_of bincode)) (faithful.hellos (v, token) bincode_config bytes encoded)
          ∙ mapped-within (hello_of bincode) max_decode_bytes (bincode.of_hello.claimed (v, token))
              (v, token))
    from_frame-to_frame (welcome v host hz) f h =
        let (bytes, (encoded, shape)) = framed_ok _ _ f h in
        rw shape (
          ap (mapped (welcome_of bincode))
            (faithful.welcomes (v, (host, hz)) bincode_config bytes encoded)
          ∙ mapped-within (welcome_of bincode) max_decode_bytes
              (bincode.of_welcome.claimed (v, (host, hz))) (v, (host, hz)))

    -- A message that the limit admits is read back.
    pub from_frame-admitted :
        (m : WireMessage Snapshot) (f : Frame)
        → to_frame bincode m ≡ ok f
        → claimed_by m ≤ max_decode_bytes
        → from_frame bincode f ≡ ok m
    from_frame-admitted m f h le = from_frame-to_frame m f h ∙ rw (le→leb _ _ le) refl
