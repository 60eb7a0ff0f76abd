-- ===== src/Core/Std/Plain.antt =====
-- A standard library to run the model with: floats are natural numbers, the sort is by insertion.
use Prim.Native.Nat.{compare, Ordering}
use mathlib.Core.List.{Perm}
use mathlib.Core.List.Perm
use muxtop.Base.{ℕ, ◌/◌, Bool, true, false, ◌==◌, some, List, [], ◌∷◌, if◌then◌else◌, if_ind}
use muxtop.Core.Process.Examples.{ascii_only}
use muxtop.Core.Std.{Std}

module _ {A : Type 0} (cmp : A → A → Ordering) where
  abbrev pub is_gt : Ordering → Bool
  is_gt Ordering.gt = true
  is_gt o = false

  abbrev pub insert : A → List A → List A
  insert x [] = x ∷ []
  insert x (y ∷ ys) = let rest = insert x ys in if is_gt (cmp x y) then y ∷ rest else x ∷ y ∷ ys

  abbrev pub insertion_sort : List A → List A
  insertion_sort [] = []
  insertion_sort (x ∷ xs) = insert x (insertion_sort xs)

  insert-perm : (x : A) (xs : List A) → Perm (insert x xs) (x ∷ xs)
  insert-perm x [] = Perm.refl (x ∷ [])
  insert-perm x (y ∷ ys) =
      if_ind (λ zs. Perm zs (x ∷ y ∷ ys)) (is_gt (cmp x y))
        (Perm.trans (Perm.cons y (insert-perm x ys)) (Perm.swap x y ys)) (Perm.refl (x ∷ y ∷ ys))

  pub insertion_sort-perm : (xs : List A) → Perm (insertion_sort xs) xs
  insertion_sort-perm [] = Perm.refl []
  insertion_sort-perm (x ∷ xs) =
      Perm.trans (insert-perm x (insertion_sort xs)) (Perm.cons x (insertion_sort-perm xs))

abbrev pub plain : Std
plain = record {
  F32 = ℕ;
  F64 = ℕ;
  partial_cmp_f32 = λ a b. some (compare a b);
  partial_cmp_f64 = λ a b. some (compare a b);
  one_f64 = 1;
  from_u32 = λ n. n;
  div_f64 = λ a b. a / b;
  sort_by = λ A cmp xs. insertion_sort cmp xs;
  sort_by_perm = λ A cmp xs. insertion_sort-perm cmp xs;
  lowercase = ascii_only;
  display_u32 = λ n. n ∷ [];
  is_whitespace = λ c. c == 32;
}
