-- ===== src/Core/Process/Sort.antt =====
-- The fields and the direction of a sort, and `sort_processes` (crates/muxtop-core/src/process.rs).
use Prim.Native.Nat.{compare, Ordering}
use mathlib.Core.List.{Perm, reverse, reverse_perm}
use mathlib.Core.List.Perm
use muxtop.Base.{List}
use muxtop.Core.Process.{ProcessInfo}
use muxtop.Core.Std.{Std, or_equal, cmp_text}

pub data SortField : Type 0 where
  cpu mem pid name user : SortField

pub data SortOrder : Type 0 where
  asc desc : SortOrder

module _ (std : Std) where
  open std use {F32, partial_cmp_f32, sort_by, sort_by_perm, lowercase}

  -- The comparison of each field; `sort_by_key` compares the keys.
  unfoldable pub compare_by : SortField → ProcessInfo F32 → ProcessInfo F32 → Ordering
  compare_by SortField.name a b = cmp_text (lowercase.lower a.name) (lowercase.lower b.name)
  compare_by SortField.user a b = cmp_text (lowercase.lower a.user) (lowercase.lower b.user)
  compare_by SortField.cpu a b = or_equal (partial_cmp_f32 a.cpu_percent b.cpu_percent)
  compare_by SortField.mem a b = compare a.memory_bytes b.memory_bytes
  compare_by SortField.pid a b = compare a.pid b.pid

  abbrev pub in_order {ℓ} : {A : Type ℓ} → SortOrder → List A → List A
  in_order SortOrder.asc xs = xs
  in_order SortOrder.desc xs = reverse xs

  unfoldable pub sort_processes :
      List (ProcessInfo F32) → SortField → SortOrder → List (ProcessInfo F32)
  unfolding compare_by
  sort_processes procs field order =
      in_order order (sort_by (ProcessInfo F32) (compare_by field) procs)

  in_order-perm : (order : SortOrder) (xs : List (ProcessInfo F32)) → Perm (in_order order xs) xs
  in_order-perm SortOrder.asc xs = Perm.refl xs
  in_order-perm SortOrder.desc xs = reverse_perm xs

  -- Sorting loses no process and adds none, by any field and in either direction.
  pub sort_processes-perm :
      (procs : List (ProcessInfo F32)) (field : SortField) (order : SortOrder)
      → Perm (sort_processes procs field order) procs
  unfolding sort_processes
  sort_processes-perm procs field order =
      Perm.trans (in_order-perm order _) (sort_by_perm (ProcessInfo F32) (compare_by field) procs)
