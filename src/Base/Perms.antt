-- ===== src/Base/Perms.antt =====
-- Boolean tests of every element of a list, which a permutation does not change.
use Prim.Native.Nat.{ℕ, zero, suc}
use mathlib.Core.Path.{◌≡◌, refl, ap, ◌∙◌}
use mathlib.Core.Bool.{Bool, true, ◌&&◌}
use mathlib.Core.Option.{some}
use mathlib.Core.Logic.Or
use mathlib.Core.Logic.{inl, inr}
use mathlib.Core.List.{
  List, [], ◌∷◌, map, Perm, Mem, not-mem-nil, mem-cons_self, mem-cons_of_mem, eq-or-mem_of_mem-cons,
}
use mathlib.Core.List.Perm
use muxtop.Base.Lists.{filter_by, get_elem?}
use muxtop.Base.Tests.{&&-split, Bool-cases}

abbrev pub all_by {ℓ} : {A : Type ℓ} → (A → Bool) → List A → Bool
all_by f [] = true
all_by f (x ∷ xs) = f x && all_by f xs

module _ {ℓ} {A : Type ℓ} (f : A → Bool) where
  all_by-mem : (xs : List A) → all_by f xs ≡ true → (x : A) → Mem x xs → f x ≡ true
  all_by-mem [] h x m = absurd (not-mem-nil m)
  all_by-mem (y ∷ ys) h x m =
      let (hy, hys) = &&-split (f y) (all_by f ys) h in
      Or.elim (hlevel) (eq-or-mem_of_mem-cons m) (λ e. ap f e ∙ hy) (λ n. all_by-mem ys hys x n)

  mem-all_by : (xs : List A) → ((x : A) → Mem x xs → f x ≡ true) → all_by f xs ≡ true
  mem-all_by [] h = refl
  mem-all_by (y ∷ ys) h = cc (h y mem-cons_self, mem-all_by ys (λ x m. h x (mem-cons_of_mem y m)))

  pub Perm-all_by : {xs ys : List A} → Perm xs ys → all_by f ys ≡ true → all_by f xs ≡ true
  Perm-all_by {xs} {ys} p h = mem-all_by xs (λ x m. all_by-mem ys h x ((Perm.mem_iff p).0 m))

  pub all_by-filter_by :
      (test : A → Bool) (xs : List A)
      → ((x : A) → test x ≡ true → f x ≡ true)
      → all_by f (filter_by test xs) ≡ true
  all_by-filter_by test [] h = refl
  all_by-filter_by test (x ∷ xs) h =
      let rest = all_by-filter_by test xs h in
      elim (Bool-cases (test x)) [ inl e ↦ let hx = h x e in cc (e, hx, rest) | inr e ↦ rw e rest ]

  pub filter_by-all_by :
      (test : A → Bool) (xs : List A) → all_by f xs ≡ true → all_by f (filter_by test xs) ≡ true
  filter_by-all_by test [] h = refl
  filter_by-all_by test (x ∷ xs) h =
      let (hx, hxs) = &&-split (f x) (all_by f xs) h in
      let rest = filter_by-all_by test xs hxs in
      elim (Bool-cases (test x)) [ inl e ↦ cc (e, hx, rest) | inr e ↦ rw e rest ]

  pub filter_by-both :
      (test : A → Bool) (xs : List A)
      → all_by f xs ≡ true
      → all_by (λ x. test x && f x) (filter_by test xs) ≡ true
  filter_by-both test [] h = refl
  filter_by-both test (x ∷ xs) h =
      let (hx, hxs) = &&-split (f x) (all_by f xs) h in
      let rest = filter_by-both test xs hxs in
      elim (Bool-cases (test x)) [ inl e ↦ cc (e, hx, rest) | inr e ↦ rw e rest ]

  pub all_by_mono :
      (g : A → Bool) (xs : List A)
      → ((x : A) → f x ≡ true → g x ≡ true)
      → all_by f xs ≡ true
      → all_by g xs ≡ true
  all_by_mono g [] h e = refl
  all_by_mono g (x ∷ xs) h e =
      let (ex, exs) = &&-split (f x) (all_by f xs) e in cc (h x ex, all_by_mono g xs h exs)

  pub all_by-get_elem? :
      (xs : List A) (i : ℕ) (x : A) → all_by f xs ≡ true → get_elem? xs i ≡ some x → f x ≡ true
  all_by-get_elem? [] i x h e = cc (h, e)
  all_by-get_elem? (y ∷ ys) zero x h e =
      let (hy, hys) = &&-split (f y) (all_by f ys) h in cc (hy, e)
  all_by-get_elem? (y ∷ ys) (suc i) x h e =
      let (hy, hys) = &&-split (f y) (all_by f ys) h in all_by-get_elem? ys i x hys e

  pub all_by-map {κ} :
      {B : Type κ} (g : B → A) (xs : List B) → all_by f (map g xs) ≡ all_by (λ x. f (g x)) xs
  all_by-map g [] = refl
  all_by-map g (x ∷ xs) = ap (λ b. f (g x) && b) (all_by-map g xs)
