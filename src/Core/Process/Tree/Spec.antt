-- ===== src/Core/Process/Tree/Spec.antt =====
-- What a forest of crates/muxtop-core/src/process.rs holds, and when its links are right.
use mathlib.Core.List.{map-append, append_assoc}
use muxtop.Base.{ℕ, suc, ◌≤◌, ◌≡◌, refl, Option, some, List, ◌∷◌, ◌++◌, map}
use muxtop.Core.Process.{ProcessInfo}
use muxtop.Core.Process.Tree.{
  TreeNode, Forest, node, nil, cons, walk, flatten_tree, max_depth, append,
}

module _ {F32 : Type 0} where
  -- The processes of a forest, in the order of `flatten_tree`.
  abbrev pub processes : Forest F32 → List (ProcessInfo F32)
  processes f = map (λ (e : ProcessInfo F32 × ℕ). e.0) (flatten_tree f)

  abbrev pub tree_processes : TreeNode F32 → List (ProcessInfo F32)
  tree_processes t = map (λ (e : ProcessInfo F32 × ℕ). e.0) (walk t)

  pub processes-cons :
      (t : TreeNode F32) (f : Forest F32) → processes (cons t f) ≡ tree_processes t ++ processes f
  unfolding flatten_tree
  processes-cons t f = map-append _ (walk t) (flatten_tree f)

  pub processes-node :
      (p : ProcessInfo F32) (f : Forest F32) (d : ℕ) → tree_processes (node p f d) ≡ p ∷ processes f
  unfolding walk
  processes-node p f d = refl

  pub processes-append : (f g : Forest F32) → processes (append f g) ≡ processes f ++ processes g
  unfolding flatten_tree
  processes-append nil g = refl
  processes-append (cons t f) g = simp (processes-cons, processes-append f g, append_assoc)

  abbrev pub parent_of : TreeNode F32 → Option ℕ
  parent_of (node p f depth) = p.parent_pid

abbrev mutual
  -- The node stands at depth `d`, and so on below it.
  pub IsLinked : {F32 : Type 0} → ℕ → TreeNode F32 → Type 0
  IsLinked d (node p f depth) = (depth ≡ d) × (d ≤ max_depth) × AreChildren p.pid (suc d) f

  -- Each tree names the pid `k` as its parent and stands at depth `d`.
  pub AreChildren : {F32 : Type 0} → ℕ → ℕ → Forest F32 → Type 0
  AreChildren k d nil = Unit
  AreChildren k d (cons t f) = (parent_of t ≡ some k) × IsLinked d t × AreChildren k d f

-- Every tree of the forest has its root at depth 0 and is linked.
abbrev pub AllLinked : {F32 : Type 0} → Forest F32 → Type 0
AllLinked nil = Unit
AllLinked (cons t f) = IsLinked 0 t × AllLinked f
