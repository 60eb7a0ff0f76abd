-- ===== src/Proto/Wire/Plain.antt =====
-- A stand-in for bincode to run the model with: numbers as they are, a length before each string but
-- the last, and a decoder with a limit.
use muxtop.Base.{
  ℕ, zero, suc, ◌+◌, ◌≡◌, refl, sym, ap, ap₂, ◌∙◌, Option, none, some, List, [], ◌∷◌, ◌++◌, Result,
  ok, err, leb, if◌then◌else◌, length, take, drop, take-append, drop-append,
}
use muxtop.Proto.Frame.{ProtoError, decode}
use muxtop.Proto.Wire.{Coder, Config, Bincode}
use muxtop.Proto.Wire.RoundTrip.{IsFaithful, Faithful}

abbrev pub number : List ℕ → Result ProtoError ℕ
number [] = err decode
number (n ∷ s) = ok n

abbrev pub tail_first : List ℕ → Result ProtoError (List ℕ × ℕ)
tail_first [] = err decode
tail_first (n ∷ s) = ok (s, n)

abbrev pub head_first : List ℕ → Result ProtoError (ℕ × List ℕ)
head_first [] = err decode
head_first (n ∷ s) = ok (n, s)

abbrev pub encode_hello : List ℕ × Option (List ℕ) → Result ProtoError (List ℕ)
encode_hello (v, none) = ok (0 ∷ v)
encode_hello (v, some t) = ok (suc (length t) ∷ (t ++ v))

abbrev pub decode_hello : List ℕ → Result ProtoError (List ℕ × Option (List ℕ))
decode_hello [] = err decode
decode_hello (zero ∷ v) = ok (v, none)
decode_hello (suc n ∷ s) = ok (drop n s, some (take n s))

abbrev pub encode_welcome : List ℕ × (List ℕ × ℕ) → Result ProtoError (List ℕ)
encode_welcome (v, (h, hz)) = ok (hz ∷ length v ∷ (v ++ h))

abbrev pub decode_welcome : List ℕ → Result ProtoError (List ℕ × (List ℕ × ℕ))
decode_welcome (hz ∷ n ∷ s) = ok (take n s, (drop n s, hz))
decode_welcome s = err decode

abbrev pub heartbeat_bytes : List ℕ × ℕ → Result ProtoError (List ℕ)
heartbeat_bytes (v, t) = ok (t ∷ v)

abbrev pub error_bytes : ℕ × List ℕ → Result ProtoError (List ℕ)
error_bytes (code, message) = ok (code ∷ message)

-- The decoder refuses what takes more than the limit.
abbrev pub limited : {A : Type 0} → (A → ℕ) → Config → Result ProtoError A → Result ProtoError A
limited claimed config (ok a) = if leb (claimed a) config.limit then ok a else err decode
limited claimed config (err e) = err e

abbrev pub coder :
    {A : Type 0}
    → (A → Result ProtoError (List ℕ))
    → (List ℕ → Result ProtoError A)
    → (A → ℕ)
    → Coder A
coder encode read claimed = record {
  encode_to_vec = λ a config. encode a;
  decode_from_slice = λ bytes config. limited claimed config (read bytes);
  claimed = claimed;
}

abbrev pub token_length : Option (List ℕ) → ℕ
token_length none = 0
token_length (some t) = length t

abbrev pub hello_claims : List ℕ × Option (List ℕ) → ℕ
hello_claims (v, t) = length v + token_length t

abbrev pub welcome_claims : List ℕ × (List ℕ × ℕ) → ℕ
welcome_claims (v, (h, hz)) = length v + length h + 4

-- A snapshot is the number of bytes that it takes.
abbrev pub plain : Bincode ℕ
plain = record {
  of_snapshot = coder (λ n. ok (n ∷ [])) number (λ n. n);
  of_heartbeat = coder heartbeat_bytes tail_first (λ h. length h.0 + 8);
  of_error = coder error_bytes head_first (λ e. 2 + length e.1);
  of_hello = coder encode_hello decode_hello hello_claims;
  of_welcome = coder encode_welcome decode_welcome welcome_claims;
}

read_as :
    {A : Type 0} (f : List ℕ → Result ProtoError A) (a : A) (made bytes : List ℕ)
    → f made ≡ ok a
    → ◌≡◌ {A = Result ProtoError (List ℕ)} (ok made) (ok bytes)
    → f bytes ≡ ok a
read_as f a made bytes h e = let same : made ≡ bytes = cc e in ap f (sym same) ∙ h

-- A decoder without a limit that inverts the encoder is faithful with one.
coder-IsFaithful :
    {A : Type 0} (encode : A → Result ProtoError (List ℕ)) (read : List ℕ → Result ProtoError A)
    (claimed : A → ℕ)
    → ((a : A) (bytes : List ℕ) → encode a ≡ ok bytes → read bytes ≡ ok a)
    → IsFaithful (coder encode read claimed)
coder-IsFaithful encode read claimed inverse a config bytes e =
    ap (limited claimed config) (inverse a bytes e)

hello_inverse :
    (h : List ℕ × Option (List ℕ)) (bytes : List ℕ)
    → encode_hello h ≡ ok bytes
    → decode_hello bytes ≡ ok h
hello_inverse (v, none) bytes e = read_as decode_hello (v, none) (0 ∷ v) bytes refl e
hello_inverse (v, some t) bytes e =
    read_as decode_hello (v, some t) (suc (length t) ∷ (t ++ v)) bytes
      (ap₂ (λ x y. ok (x, some y)) (drop-append t v (length t) refl)
        (take-append t v (length t) refl))
      e

welcome_inverse :
    (w : List ℕ × (List ℕ × ℕ)) (bytes : List ℕ)
    → encode_welcome w ≡ ok bytes
    → decode_welcome bytes ≡ ok w
welcome_inverse (v, (h, hz)) bytes e =
    read_as decode_welcome (v, (h, hz)) (hz ∷ length v ∷ (v ++ h)) bytes
      (ap₂ (λ x y. ok (x, (y, hz))) (take-append v h (length v) refl)
        (drop-append v h (length v) refl))
      e

pub plain-Faithful : Faithful plain
plain-Faithful = record {
  snapshots =
      coder-IsFaithful (λ n. ok (n ∷ [])) number (λ n. n)
        (λ n bytes e. read_as number n (n ∷ []) bytes refl e);
  heartbeats =
      coder-IsFaithful heartbeat_bytes tail_first (λ h. length h.0 + 8)
        (λ (v, t) bytes e. read_as tail_first (v, t) (t ∷ v) bytes refl e);
  errors =
      coder-IsFaithful error_bytes head_first (λ e. 2 + length e.1)
        (λ (code, message) bytes e.
          read_as head_first (code, message) (code ∷ message) bytes refl e);
  hellos = coder-IsFaithful encode_hello decode_hello hello_claims hello_inverse;
  welcomes = coder-IsFaithful encode_welcome decode_welcome welcome_claims welcome_inverse;
}
