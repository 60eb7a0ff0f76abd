-- ===== src/Core/Process/Tree/Unvisited.antt =====
-- The `visited` marks of crates/muxtop-core/src/process.rs: what a walk moves from the unvisited
-- processes into the tree.
use mathlib.Core.List.{Perm, append_assoc}
use mathlib.Core.List.Perm
use muxtop.Base.{
  ℕ, zero, suc, ◌<◌, ◌≡◌, ◌≢◌, refl, ap, subst, ◌∙◌, Bool, true, false, some, List, [], ◌∷◌, ◌++◌,
  arith, length, get_elem?, set, replicate,
}
use muxtop.Core.Process.{ProcessInfo}

pub length-set {ℓ} : {A : Type ℓ} (xs : List A) (i : ℕ) (x : A) → length (set xs i x) ≡ length xs
length-set [] i x = refl
length-set (y ∷ ys) zero x = refl
length-set (y ∷ ys) (suc i) x = ap suc (length-set ys i x)

pub get_elem?-set_ne {ℓ} :
    {A : Type ℓ} (xs : List A) (i j : ℕ) (x : A) → j ≢ i → get_elem? (set xs i x) j ≡ get_elem? xs j
get_elem?-set_ne [] i j x h = refl
get_elem?-set_ne (y ∷ ys) zero zero x h = absurd (h refl)
get_elem?-set_ne (y ∷ ys) zero (suc j) x h = refl
get_elem?-set_ne (y ∷ ys) (suc i) zero x h = refl
get_elem?-set_ne (y ∷ ys) (suc i) (suc j) x h = get_elem?-set_ne ys i j x (λ e. h (ap suc e))

pub get_elem?-set_self {ℓ} :
    {A : Type ℓ} (xs : List A) (i : ℕ) (x : A) → i < length xs → get_elem? (set xs i x) i ≡ some x
get_elem?-set_self [] i x h = absurd (omega arith)
get_elem?-set_self (y ∷ ys) zero x h = refl
get_elem?-set_self (y ∷ ys) (suc i) x h = get_elem?-set_self ys i x (omega arith)

-- An index in range holds something, and what holds something is in range.
pub get_elem?-of_lt {ℓ} :
    {A : Type ℓ} (xs : List A) (i : ℕ) → i < length xs → (x : A) × (get_elem? xs i ≡ some x)
get_elem?-of_lt [] i h = absurd (omega arith)
get_elem?-of_lt (y ∷ ys) zero h = (y, refl)
get_elem?-of_lt (y ∷ ys) (suc i) h = get_elem?-of_lt ys i (omega arith)

pub lt_of_get_elem? {ℓ} :
    {A : Type ℓ} (xs : List A) (i : ℕ) (x : A) → get_elem? xs i ≡ some x → i < length xs
lt_of_get_elem? [] i x h = absurd (cc h)
lt_of_get_elem? (y ∷ ys) zero x h = omega arith
lt_of_get_elem? (y ∷ ys) (suc i) x h = omega (arith, lt_of_get_elem? ys i x h)

module _ {F32 : Type 0} where
  -- The processes that are not marked as visited.
  abbrev pub unvisited : List (ProcessInfo F32) → List Bool → List (ProcessInfo F32)
  unvisited [] v = []
  unvisited (p ∷ ps) [] = []
  unvisited (p ∷ ps) (true ∷ v) = unvisited ps v
  unvisited (p ∷ ps) (false ∷ v) = p ∷ unvisited ps v

  pub unvisited-set :
      (ps : List (ProcessInfo F32)) (v : List Bool) (i : ℕ) (p : ProcessInfo F32)
      → get_elem? ps i ≡ some p
      → get_elem? v i ≡ some false
      → Perm (unvisited ps v) (p ∷ unvisited ps (set v i true))
  unvisited-set [] v i p a b = absurd (cc a)
  unvisited-set (q ∷ ps) [] i p a b = absurd (cc b)
  unvisited-set (q ∷ ps) (true ∷ v) zero p a b = absurd (cc b)
  unvisited-set (q ∷ ps) (false ∷ v) zero p a b =
      let same : q ≡ p = cc a in
      subst (λ x. Perm (q ∷ unvisited ps v) (x ∷ unvisited ps v)) same (Perm.refl _)
  unvisited-set (q ∷ ps) (true ∷ v) (suc i) p a b = unvisited-set ps v i p a b
  unvisited-set (q ∷ ps) (false ∷ v) (suc i) p a b =
      Perm.trans (Perm.cons q (unvisited-set ps v i p a b)) (Perm.swap _ _ _)

  pub unvisited-replicate :
      (ps : List (ProcessInfo F32)) → unvisited ps (replicate (length ps) false) ≡ ps
  unvisited-replicate [] = refl
  unvisited-replicate (p ∷ ps) = ap (λ l. p ∷ l) (unvisited-replicate ps)

  -- Nothing is left once every mark is set.
  pub unvisited-nil :
      (ps : List (ProcessInfo F32)) (v : List Bool)
      → ((j : ℕ) → j < length ps → get_elem? v j ≡ some true)
      → unvisited ps v ≡ []
  unvisited-nil [] v h = refl
  unvisited-nil (p ∷ ps) [] h = refl
  unvisited-nil (p ∷ ps) (true ∷ v) h = unvisited-nil ps v (λ j lt. h (suc j) (omega arith))
  unvisited-nil (p ∷ ps) (false ∷ v) h = absurd (cc (h 0 (omega arith)))

  -- A walk turned the marks `v` into `v'` and placed the processes `placed`.
  pub record Moves (procs : List (ProcessInfo F32)) (v v' : List Bool)
      (placed : List (ProcessInfo F32)) : Type 0 where
    pub same_length : length v' ≡ length v
    pub moved : Perm (unvisited procs v) (placed ++ unvisited procs v')
    pub kept : (j : ℕ) → get_elem? v j ≡ some true → get_elem? v' j ≡ some true

  module _ (procs : List (ProcessInfo F32)) where
    pub Moves-refl : (v : List Bool) → Moves procs v v []
    Moves-refl v = record { same_length = refl; moved = Perm.refl _; kept = λ j h. h }

    pub Moves-trans :
        {v v' v'' : List Bool} {ps qs : List (ProcessInfo F32)}
        → Moves procs v v' ps
        → Moves procs v' v'' qs
        → Moves procs v v'' (ps ++ qs)
    Moves-trans {ps = ps} a b = record {
      same_length = b.same_length ∙ a.same_length;
      moved = rw append_assoc (Perm.trans a.moved (Perm.append_left ps b.moved));
      kept = λ j h. b.kept j (a.kept j h);
    }

    pub Moves-set :
        (v : List Bool) (i : ℕ) (p : ProcessInfo F32)
        → get_elem? procs i ≡ some p
        → get_elem? v i ≡ some false
        → Moves procs v (set v i true) (p ∷ [])
    Moves-set v i p a b = record {
      same_length = length-set v i true;
      moved = unvisited-set procs v i p a b;
      kept = λ j h. get_elem?-set_ne v i j true (λ same. cc (b, h, same)) ∙ h;
    }
