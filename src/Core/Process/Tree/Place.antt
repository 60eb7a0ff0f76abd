-- ===== src/Core/Process/Tree/Place.antt =====
-- `build_subtree` of crates/muxtop-core/src/process.rs: it never panics, and what it places.
use muxtop.Base.{
  ℕ, zero, suc, ◌+◌, ◌≤◌, ◌≡◌, ◌≢◌, refl, sym, subst, ◌∙◌, Bool, true, false, Option, some, List,
  [], ◌∷◌, arith, length, get_elem?, set, All,
}
use muxtop.Core.Process.{ProcessInfo}
use muxtop.Core.Process.Tree.{
  TreeNode, Forest, node, nil, cons, flatten_tree, max_depth, place_children, build_subtree,
}
use muxtop.Core.Process.Tree.Index.{IsChild, IsRootAt, child_not_root}
use muxtop.Core.Process.Tree.Spec.{
  processes, tree_processes, processes-cons, processes-node, parent_of, IsLinked, AreChildren,
}
use muxtop.Core.Process.Tree.Unvisited.{
  Moves, Moves-refl, Moves-trans, Moves-set, length-set, get_elem?-set_ne, get_elem?-set_self,
  get_elem?-of_lt, lt_of_get_elem?,
}

module _ {F32 : Type 0} where
  abbrev pub process_of : TreeNode F32 → ProcessInfo F32
  process_of (node p f depth) = p

  module _ (procs : List (ProcessInfo F32)) where
    -- The walk from index `idx` at some depth made the tree `t` and turned the marks `v` into `v'`.
    pub record IsSubtree (idx depth : ℕ) (v v' : List Bool) (t : TreeNode F32) : Type 0 where
      pub moves : Moves procs v v' (tree_processes t)
      pub marked : get_elem? v' idx ≡ some true
      pub roots_kept : (j : ℕ) → IsRootAt procs j → j ≢ idx → get_elem? v' j ≡ get_elem? v j
      pub linked : IsLinked depth t
      pub process : get_elem? procs idx ≡ some (process_of t)

    -- The loop over the children of the pid `k` made the forest `f`.
    pub record IsPlaced (k depth : ℕ) (v v' : List Bool) (f : Forest F32) : Type 0 where
      pub moves : Moves procs v v' (processes f)
      pub roots_kept : (j : ℕ) → IsRootAt procs j → get_elem? v' j ≡ get_elem? v j
      pub children : AreChildren k depth f

    abbrev Walk : Type 0
    Walk = ℕ → List Bool → Option (TreeNode F32 × List Bool)

    -- What the loop needs of the walk of one child.
    abbrev IsGoodWalk : ℕ → ℕ → Walk → Type 0
    IsGoodWalk k depth build =
        (ci : ℕ) (v : List Bool)
        → length v ≡ length procs
        → get_elem? v ci ≡ some false
        → (t : TreeNode F32) × (v' : List Bool) × (build ci v ≡ some (t, v'))
          × IsSubtree ci depth v v' t

    parent_of-IsChild :
        (k ci : ℕ) (t : TreeNode F32)
        → IsChild procs k ci
        → get_elem? procs ci ≡ some (process_of t)
        → parent_of t ≡ some k
    parent_of-IsChild k ci (node p f d) c e =
        let same : some c.process ≡ some p = sym c.at ∙ e in cc (same, c.parent)

    IsPlaced-nil : (k depth : ℕ) (v : List Bool) → IsPlaced k depth v v nil
    unfolding flatten_tree
    IsPlaced-nil k depth v = record {
      moves = Moves-refl procs v;
      roots_kept = λ j r. refl;
      children = tt;
    }

    IsPlaced-cons :
        (k depth ci : ℕ) {v v₁ v₂ : List Bool} (t : TreeNode F32) (f : Forest F32)
        → IsChild procs k ci
        → IsSubtree ci depth v v₁ t
        → IsPlaced k depth v₁ v₂ f
        → IsPlaced k depth v v₂ (cons t f)
    IsPlaced-cons k depth ci t f c s q = record {
      moves = rw processes-cons (Moves-trans procs s.moves q.moves);
      roots_kept = λ j r.
          q.roots_kept j r
          ∙ s.roots_kept j r (λ same. child_not_root procs k ci c (subst (IsRootAt procs) same r));
      children = (parent_of-IsChild k ci t c s.process, s.linked, q.children);
    }

    -- A node over what the loop over its children placed.
    IsSubtree-node :
        (depth idx : ℕ) (v : List Bool) {v' : List Bool} (p : ProcessInfo F32) (f : Forest F32)
        → depth ≤ max_depth
        → get_elem? procs idx ≡ some p
        → get_elem? v idx ≡ some false
        → IsPlaced p.pid (suc depth) (set v idx true) v' f
        → IsSubtree idx depth v v' (node p f depth)
    IsSubtree-node depth idx v p f d at e q = record {
      moves = rw processes-node (Moves-trans procs (Moves-set procs v idx p at e) q.moves);
      marked = q.moves.kept idx (get_elem?-set_self v idx true (lt_of_get_elem? v idx false e));
      roots_kept = λ j r other. q.roots_kept j r ∙ get_elem?-set_ne v idx j true other;
      linked = (refl, d, q.children);
      process = at;
    }

    -- The loop over the children places every child that is not placed yet.
    place_children_lem :
        (k depth : ℕ) (build : Walk)
        → IsGoodWalk k depth build
        → (cs : List ℕ) (v : List Bool) → All (IsChild procs k) cs
        → length v ≡ length procs
        → (f : Forest F32) × (v' : List Bool) × (place_children build cs v ≡ some (f, v'))
          × IsPlaced k depth v v' f
    unfolding place_children
    place_children_lem k depth build good [] v h len = (nil, v, refl, IsPlaced-nil k depth v)
    place_children_lem k depth build good (ci ∷ cs) v (c, h) len =
        let (seen, e) =
          get_elem?-of_lt v ci (omega (arith, lt_of_get_elem? procs ci c.process c.at, len)) in
        place_child seen e (λ w. place_children_lem k depth build good cs w h)
      where
        place_child :
            (seen : Bool)
            → get_elem? v ci ≡ some seen
            → ((w : List Bool)
                → length w ≡ length procs
                → (f : Forest F32) × (v' : List Bool) × (place_children build cs w ≡ some (f, v'))
                  × IsPlaced k depth w v' f)
            → (f : Forest F32) × (v' : List Bool) × (place_children build (ci ∷ cs) v
                ≡ some (f, v'))
              × IsPlaced k depth v v' f
        place_child true e ih = let (f, v', eq, q) = ih v len in (f, v', rw e eq, q)
        place_child false e ih =
            let (t, v₁, e₁, s) = good ci v len e in
            let (f, v₂, e₂, q) = ih v₁ (s.moves.same_length ∙ len) in
            (cons t f, v₂, rw e (rw e₁ (rw e₂)), IsPlaced-cons k depth ci t f c s q)

    module _ (children : ℕ → List ℕ) (indexed : (k : ℕ) → All (IsChild procs k) (children k)) where
      -- From an unvisited index the walk never panics.
      pub build_subtree_lem :
          (left idx depth : ℕ) (v : List Bool)
          → left + depth ≡ max_depth
          → length v ≡ length procs
          → get_elem? v idx ≡ some false
          → (t : TreeNode F32) × (v' : List Bool) × (build_subtree procs children left idx depth v
              ≡ some (t, v'))
            × IsSubtree idx depth v v' t
      unfolding build_subtree
      build_subtree_lem zero idx depth v d len e =
          let (p, at) =
            get_elem?-of_lt procs idx (omega (arith, lt_of_get_elem? v idx false e, len)) in
          (
            node p nil depth,
            set v idx true,
            rw at,
            IsSubtree-node depth idx v p nil (omega arith) at e
                (IsPlaced-nil p.pid (suc depth) (set v idx true)),
          )
      build_subtree_lem (suc left) idx depth v d len e =
          let (p, at) =
            get_elem?-of_lt procs idx (omega (arith, lt_of_get_elem? v idx false e, len)) in
          let (f, v', eq, q) =
            place_children_lem p.pid (suc depth)
              (λ ci. build_subtree procs children left ci (suc depth))
              (λ ci w. build_subtree_lem left ci (suc depth) w (omega arith)) (children p.pid)
              (set v idx true) (indexed p.pid) (length-set v idx true ∙ len) in
          (node p f depth, v', rw at (rw eq), IsSubtree-node depth idx v p f (omega arith) at e q)
