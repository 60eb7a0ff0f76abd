-- ===== src/Core/Gpu/Engine/Owners.antt =====
-- Devices that are renumbered keep their processes (crates/muxtop-core/src/gpu_engine.rs).
use muxtop.Base.{
  ℕ, suc, zero, ◌+◌, ◌%◌, ◌^◌, ◌≤◌, ◌<◌, ◌≡◌, refl, subst, ap, ap₂, ◌∙◌, Option, none, some, List,
  [], ◌∷◌, ◌++◌, map, Result, ok, err, if◌then◌else◌, length, get_elem?, All, arith, length-append,
}
use muxtop.Core.Gpu.{GpuDeviceSnapshot, GpuProcessSnapshot, GpusSnapshot}
use muxtop.Core.Gpu.Engine.{GpuError, renumbered, moved}

module _ {A : Type 0} where
  get_elem?-append_left :
      (xs ys : List A) (i : ℕ) → i < length xs → get_elem? (xs ++ ys) i ≡ get_elem? xs i
  get_elem?-append_left [] ys i h = absurd (omega arith)
  get_elem?-append_left (x ∷ xs) ys zero h = refl
  get_elem?-append_left (x ∷ xs) ys (suc i) h = get_elem?-append_left xs ys i (omega arith)

  get_elem?-append_right :
      (xs ys : List A) (k i : ℕ) → k ≡ length xs + i → get_elem? (xs ++ ys) k ≡ get_elem? ys i
  get_elem?-append_right [] ys k i e = ap (get_elem? ys) (omega (arith, e))
  get_elem?-append_right (x ∷ xs) ys zero i e = absurd (omega (arith, e))
  get_elem?-append_right (x ∷ xs) ys (suc k) i e =
      get_elem?-append_right xs ys k i (omega (arith, e))

  pub length-map : {B : Type 0} (f : A → B) (xs : List A) → length (map f xs) ≡ length xs
  length-map f [] = refl
  length-map f (x ∷ xs) = ap suc (length-map f xs)

module _ {F32 : Type 0} where
  -- The devices carry their positions, from the first on.
  abbrev pub IsNumbered : ℕ → List (GpuDeviceSnapshot F32) → Type 0
  IsNumbered n [] = Unit
  IsNumbered n (d ∷ ds) = (d.index ≡ n) × IsNumbered (suc n) ds

  abbrev pub IsOn : List (GpuDeviceSnapshot F32) → GpuProcessSnapshot → Type 0
  IsOn ds p = p.device_index < length ds

  -- What a backend may answer: its devices are numbered, its processes run on them.
  abbrev pub IsSound : GpusSnapshot F32 → Type 0
  IsSound s = IsNumbered 0 s.devices × All (IsOn s.devices) s.processes

  abbrev pub IsSoundReading : Result GpuError (GpusSnapshot F32) → Type 0
  IsSoundReading (err e) = Unit
  IsSoundReading (ok s) = IsSound s

  -- A device without its number.
  abbrev pub card : Option (GpuDeviceSnapshot F32) → Option (GpuDeviceSnapshot F32)
  card none = none
  card (some d) = some (record d { index = 0 })

  abbrev pub owner :
      List (GpuDeviceSnapshot F32)
      → GpuProcessSnapshot
      → GpuProcessSnapshot × Option (GpuDeviceSnapshot F32)
  owner ds p = (record p { device_index = 0 }, card (get_elem? ds p.device_index))

  -- Each process, in order, with the card it runs on, whatever their numbers.
  abbrev pub owners : GpusSnapshot F32 → List (GpuProcessSnapshot × Option (GpuDeviceSnapshot F32))
  owners s = map (owner s.devices) s.processes

  abbrev pub all_owners :
      List (Result GpuError (GpusSnapshot F32))
      → List (GpuProcessSnapshot × Option (GpuDeviceSnapshot F32))
  all_owners [] = []
  all_owners (err e ∷ readings) = all_owners readings
  all_owners (ok s ∷ readings) =
      let rest = all_owners readings in if s.available then owners s ++ rest else rest

  abbrev pub count : List (Result GpuError (GpusSnapshot F32)) → ℕ
  count [] = 0
  count (err e ∷ readings) = count readings
  count (ok s ∷ readings) = length s.devices + count readings

  card-renumbered :
      (o : ℕ) (ds : List (GpuDeviceSnapshot F32)) (i : ℕ)
      → card (get_elem? (map (renumbered o) ds) i) ≡ card (get_elem? ds i)
  card-renumbered o [] i = refl
  card-renumbered o (d ∷ ds) zero = refl
  card-renumbered o (d ∷ ds) (suc i) = card-renumbered o ds i

  pub IsNumbered-append :
      (n : ℕ) (xs ys : List (GpuDeviceSnapshot F32))
      → IsNumbered n xs
      → IsNumbered (n + length xs) ys
      → IsNumbered n (xs ++ ys)
  IsNumbered-append n [] ys hx hy = subst (λ k. IsNumbered k ys) (omega arith) hy
  IsNumbered-append n (x ∷ xs) ys (h, hx) hy =
      (h, IsNumbered-append (suc n) xs ys hx (subst (λ k. IsNumbered k ys) (omega arith) hy))

  pub renumbered-IsNumbered :
      (o n : ℕ) (ds : List (GpuDeviceSnapshot F32))
      → IsNumbered n ds
      → o + n + length ds ≤ 2 ^ 32
      → IsNumbered (o + n) (map (renumbered o) ds)
  renumbered-IsNumbered o n [] h b = tt
  renumbered-IsNumbered o n (d ∷ ds) (e, h) b = (
    omega (arith, e),
    subst (λ k. IsNumbered k (map (renumbered o) ds)) (omega arith)
        (renumbered-IsNumbered o (suc n) ds h (omega arith)),
  )

  module _ (xs ds : List (GpuDeviceSnapshot F32)) (o : ℕ) where
    owner-before :
        (p : GpuProcessSnapshot)
        → p.device_index < length xs
        → owner (xs ++ map (renumbered o) ds) p ≡ owner xs p
    owner-before p h =
        ap (λ d. (record p { device_index = 0 }, card d))
          (get_elem?-append_left xs (map (renumbered o) ds) p.device_index h)

    owner-moved :
        (p : GpuProcessSnapshot)
        → p.device_index < length ds
        → o ≡ length xs
        → length xs + length ds ≤ 2 ^ 32
        → owner (xs ++ map (renumbered o) ds) (moved o p) ≡ owner ds p
    owner-moved p h e b =
        let at =
          get_elem?-append_right xs (map (renumbered o) ds) ((p.device_index + o) % 2 ^ 32)
            p.device_index (omega arith) in
        ap (λ d. (record p { device_index = 0 }, d))
          (ap card at ∙ card-renumbered o ds p.device_index)

    pub owners-before :
        (ps : List GpuProcessSnapshot)
        → All (IsOn xs) ps
        → map (owner (xs ++ map (renumbered o) ds)) ps ≡ map (owner xs) ps
    owners-before [] h = refl
    owners-before (p ∷ ps) (h, hs) = ap₂ (λ a b. a ∷ b) (owner-before p h) (owners-before ps hs)

    pub owners-moved :
        (ps : List GpuProcessSnapshot)
        → All (IsOn ds) ps
        → o ≡ length xs
        → length xs + length ds ≤ 2 ^ 32
        → map (owner (xs ++ map (renumbered o) ds)) (map (moved o) ps) ≡ map (owner ds) ps
    owners-moved [] h e b = refl
    owners-moved (p ∷ ps) (h, hs) e b =
        ap₂ (λ a b. a ∷ b) (owner-moved p h e b) (owners-moved ps hs e b)

    pub both-AreOn :
        (ps qs : List GpuProcessSnapshot)
        → All (IsOn xs) ps
        → All (IsOn ds) qs
        → o ≡ length xs
        → All (IsOn (xs ++ map (renumbered o) ds)) (ps ++ map (moved o) qs)
    both-AreOn [] [] h k e = tt
    both-AreOn [] (q ∷ qs) h (k, ks) e = (
      omega (arith, length-append xs (map (renumbered o) ds), length-map (renumbered o) ds),
      both-AreOn [] qs tt ks e,
    )
    both-AreOn (p ∷ ps) qs (h, hs) k e = (
      omega (arith, length-append xs (map (renumbered o) ds), length-map (renumbered o) ds),
      both-AreOn ps qs hs k e,
    )
