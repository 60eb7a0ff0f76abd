-- ===== src/Server/RateLimit/Table.antt =====
-- The hash map from addresses to buckets of crates/muxtop-server/src/rate_limit.rs.
use muxtop.Base.{
  ℕ, ◌+◌, ◌≤◌, ◌≡◌, ◌↔◌, ◌≢◌, ◌∙◌, refl, Bool, true, false, Option, none, some, List, [], ◌∷◌,
  arith, ◌==◌, if◌then◌else◌, length, Bool-cases, inl, inr,
}

pub data IpAddr : Type 0 where
  v4 v6 : ℕ → IpAddr

unfoldable pub same : IpAddr → IpAddr → Bool
same (v4 a) (v4 b) = a == b
same (v6 a) (v6 b) = a == b
same _ _ = false

pub same_iff : (a b : IpAddr) → (same a b ≡ true) ↔ (a ≡ b)
unfolding same
same_iff (v4 a) (v4 b) = ground arith
same_iff (v4 a) (v6 b) = ground arith
same_iff (v6 a) (v4 b) = ground arith
same_iff (v6 a) (v6 b) = ground arith

abbrev pub Assoc {ℓ} : Type ℓ → Type ℓ
Assoc V = List (IpAddr × V)

module _ {ℓ} {V : Type ℓ} where
  abbrev pub empty : Assoc V
  empty = []

  unfoldable pub get : IpAddr → Assoc V → Option V
  get k [] = none
  get k ((j, v) ∷ m) = if same j k then some v else get k m

  -- Replaces the entry of the key, or adds one.
  unfoldable pub put : IpAddr → V → Assoc V → Assoc V
  put k v [] = (k, v) ∷ []
  put k v ((j, w) ∷ m) = if same j k then (k, v) ∷ m else (j, w) ∷ put k v m

  -- `HashMap::retain`.
  unfoldable pub retain : (V → Bool) → Assoc V → Assoc V
  retain keep [] = []
  retain keep ((j, v) ∷ m) = let rest = retain keep m in if keep v then (j, v) ∷ rest else rest

  pub get-put :
      (k j : IpAddr) (v : V) (m : Assoc V)
      → get j (put k v m) ≡ (if same k j then some v else get j m)
  unfolding get put
  get-put k j v [] = refl
  get-put k j v ((i, w) ∷ m) =
      ground (arith, same_iff k j, same_iff i k, same_iff i j, get-put k j v m)

  pub get-put_self : (k : IpAddr) (v : V) (m : Assoc V) → get k (put k v m) ≡ some v
  get-put_self k v m = get-put k k v m ∙ rw ((same_iff k k).1 refl)

  pub get-put_ne : (k j : IpAddr) (v : V) (m : Assoc V) → k ≢ j → get j (put k v m) ≡ get j m
  get-put_ne k j v m h = ground (arith, get-put k j v m, same_iff k j)

  abbrev pub known : Option V → ℕ
  known none = 1
  known (some v) = 0

  -- Only an unknown key makes the table grow.
  pub length-put :
      (k : IpAddr) (v : V) (m : Assoc V) → length (put k v m) ≡ length m + known (get k m)
  unfolding get put
  length-put k v [] = omega arith
  length-put k v ((j, w) ∷ m) = elim (Bool-cases (same j k)) [
    | inl e ↦ rw e (omega arith)
    | inr e ↦ rw e (omega (arith, length-put k v m))
  ]

  pub length-retain-le : (keep : V → Bool) (m : Assoc V) → length (retain keep m) ≤ length m
  unfolding retain
  length-retain-le keep [] = omega arith
  length-retain-le keep ((j, v) ∷ m) = ground (arith, length-retain-le keep m)

  -- No key stands twice.
  abbrev pub IsFunctional : Assoc V → Type ℓ
  IsFunctional [] = Unit
  IsFunctional ((j, v) ∷ m) = (get j m ≡ none) × IsFunctional m

  abbrev pub keep_if : (V → Bool) → Option V → Option V
  keep_if keep none = none
  keep_if keep (some v) = if keep v then some v else none

  pub get-retain-none :
      (keep : V → Bool) (k : IpAddr) (m : Assoc V) → get k m ≡ none → get k (retain keep m) ≡ none
  unfolding get retain
  get-retain-none keep k [] h = refl
  get-retain-none keep k ((j, v) ∷ m) h = ground (arith, get-retain-none keep k m)

  pub get-retain :
      (keep : V → Bool) (k : IpAddr) (m : Assoc V)
      → IsFunctional m
      → get k (retain keep m) ≡ keep_if keep (get k m)
  unfolding get retain
  get-retain keep k [] h = refl
  get-retain keep k ((j, v) ∷ m) (h, hs) =
      ground (arith, same_iff j k, get-retain keep k m hs, get-retain-none keep j m h)

  pub retain-IsFunctional :
      (keep : V → Bool) (m : Assoc V) → IsFunctional m → IsFunctional (retain keep m)
  unfolding retain
  retain-IsFunctional keep [] h = tt
  retain-IsFunctional keep ((j, v) ∷ m) (h, hs) = elim (Bool-cases (keep v)) [
    | inl e ↦ rw e (get-retain-none keep j m h, retain-IsFunctional keep m hs)
    | inr e ↦ rw e (retain-IsFunctional keep m hs)
  ]

  pub put-IsFunctional :
      (k : IpAddr) (v : V) (m : Assoc V) → IsFunctional m → IsFunctional (put k v m)
  unfolding put get
  put-IsFunctional k v [] h = (refl, tt)
  put-IsFunctional k v ((j, w) ∷ m) (h, hs) = elim (Bool-cases (same j k)) [
    | inl e ↦ rw e (ground (arith, same_iff j k), hs)
    | inr e ↦
        rw e
          (ground (arith, same_iff j k, same_iff k j, get-put k j v m), put-IsFunctional k v m hs)
  ]
