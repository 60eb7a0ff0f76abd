-- ===== src/Core/Std.antt =====
-- What the program takes from Rust's standard library and from the hardware, as an interface:
-- floats, the sorts of slices and the lowering of text. A sort is only known to permute.
pub mod Plain
use Prim.Native.Nat.{compare, Ordering, lt, eq, gt}
use mathlib.Core.List.{Perm}
use muxtop.Base.{ℕ, Bool, true, false, Option, none, some, List, [], ◌∷◌}
use muxtop.Core.Process.{Text}
use muxtop.Core.Process.Search.{Lowercase}

pub record Std : Type 1 where
  pub F32 : Type 0
  pub F64 : Type 0
  pub partial_cmp_f32 : F32 → F32 → Option Ordering
  pub partial_cmp_f64 : F64 → F64 → Option Ordering
  pub one_f64 : F64
  pub from_u32 : ℕ → F64
  pub div_f64 : F64 → F64 → F64
  pub sort_by : (A : Type 0) → (A → A → Ordering) → List A → List A
  pub sort_by_perm :
      (A : Type 0) (cmp : A → A → Ordering) (xs : List A) → Perm (sort_by A cmp xs) xs
  pub lowercase : Lowercase
  -- `to_string` of a number.
  pub display_u32 : ℕ → Text
  -- `char::is_whitespace`.
  pub is_whitespace : ℕ → Bool

-- `Ordering::then_with`, `Ordering::reverse`, `unwrap_or(Ordering::Equal)`.
abbrev pub then_with : Ordering → Ordering → Ordering
then_with Ordering.eq o = o
then_with Ordering.lt o = Ordering.lt
then_with Ordering.gt o = Ordering.gt

abbrev pub or_equal : Option Ordering → Ordering
or_equal none = Ordering.eq
or_equal (some o) = o

-- `str::cmp` on code points, which orders UTF-8 text as its bytes do.
abbrev pub cmp_text : Text → Text → Ordering
cmp_text [] [] = Ordering.eq
cmp_text [] (d ∷ ds) = Ordering.lt
cmp_text (c ∷ cs) [] = Ordering.gt
cmp_text (c ∷ cs) (d ∷ ds) = then_with (compare c d) (cmp_text cs ds)

abbrev pub cmp_bool : Bool → Bool → Ordering
cmp_bool false true = Ordering.lt
cmp_bool true false = Ordering.gt
cmp_bool false false = Ordering.eq
cmp_bool true true = Ordering.eq
