-- ===== src/Core/Process/Tree/Total.antt =====
-- `build_process_tree` of crates/muxtop-core/src/process.rs as a whole: every process is in the
-- tree exactly once, and the tree is linked.
use mathlib.Core.List.{Perm, append-nil}
use mathlib.Core.List.Perm
use native.Mathlib.Decide.{ℕ_discrete}
use muxtop.Base.{
  ℕ, zero, suc, ◌+◌, ◌<◌, ◌≡◌, refl, sym, ap, subst, ◌∙◌, Bool, true, false, some, List, [], ◌∷◌,
  ◌++◌, arith, length, get_elem?, All, replicate, length-replicate,
}
use muxtop.Core.Process.{ProcessInfo}
use muxtop.Core.Process.Tree.{
  TreeNode, Forest, nil, cons, flatten_tree, max_depth, append, build_roots, reroot, build_forest,
  build_process_tree, index_children, roots_from,
}
use muxtop.Core.Process.Tree.Index.{
  IsChild, IsRootAt, Ascends, index_children-IsChild, roots_from-IsRootAt, roots_from-Ascends,
  IsTail-start,
}
use muxtop.Core.Process.Tree.Spec.{processes, processes-cons, processes-append, AllLinked}
use muxtop.Core.Process.Tree.Unvisited.{
  Moves, Moves-refl, Moves-trans, unvisited, unvisited-nil, unvisited-replicate, get_elem?-of_lt,
  lt_of_get_elem?,
}
use muxtop.Core.Process.Tree.Place.{IsSubtree, build_subtree_lem}

get_elem?-replicate : (n j : ℕ) → j < n → get_elem? (replicate n false) j ≡ some false
get_elem?-replicate zero j h = absurd (omega arith)
get_elem?-replicate (suc n) zero h = refl
get_elem?-replicate (suc n) (suc j) h = get_elem?-replicate n j (omega arith)

AllLinked-append :
    {F32 : Type 0} (f g : Forest F32) → AllLinked f → AllLinked g → AllLinked (append f g)
AllLinked-append nil g h k = k
AllLinked-append (cons t f) g (h, hs) k = (h, AllLinked-append f g hs k)

module _ {F32 : Type 0} (procs : List (ProcessInfo F32)) where
  -- A loop over top-level indices made the forest `f`.
  record IsGrown (v v' : List Bool) (f : Forest F32) : Type 0 where
    moves : Moves procs v v' (processes f)
    linked : AllLinked f

  IsGrown-nil : (v : List Bool) → IsGrown v v nil
  unfolding flatten_tree
  IsGrown-nil v = record { moves = Moves-refl procs v; linked = tt }

  IsGrown-cons :
      {idx : ℕ} {v v₁ v₂ : List Bool} {t : TreeNode F32} {f : Forest F32}
      → IsSubtree procs idx 0 v v₁ t
      → IsGrown v₁ v₂ f
      → IsGrown v v₂ (cons t f)
  IsGrown-cons s g = record {
    moves = rw processes-cons (Moves-trans procs s.moves g.moves);
    linked = (s.linked, g.linked);
  }

  abbrev AreUnvisited : List Bool → List ℕ → Type 0
  AreUnvisited v = All (λ j. get_elem? v j ≡ some false)

  -- The later roots are untouched by the walk from an earlier one.
  AreUnvisited-kept :
      (ri i depth : ℕ) {v v' : List Bool} {t : TreeNode F32}
      → IsSubtree procs ri depth v v' t
      → ri < i
      → (rs : List ℕ) → All (IsRootAt procs) rs
      → Ascends i rs
      → AreUnvisited v rs
      → AreUnvisited v' rs
  AreUnvisited-kept ri i depth s lt [] roots asc h = tt
  AreUnvisited-kept ri i depth s lt (r ∷ rs) (root, roots) (le, asc) (h, hs) = (
    s.roots_kept r root (λ same. absurd (omega arith)) ∙ h,
    AreUnvisited-kept ri (suc r) depth s (omega arith) rs roots asc hs,
  )

  AreUnvisited-replicate :
      (rs : List ℕ) → All (IsRootAt procs) rs → AreUnvisited (replicate (length procs) false) rs
  AreUnvisited-replicate [] h = tt
  AreUnvisited-replicate (r ∷ rs) (h, hs) = (
    get_elem?-replicate (length procs) r (lt_of_get_elem? procs r h.process h.at),
    AreUnvisited-replicate rs hs,
  )

  module _ (children : ℕ → List ℕ) (indexed : (k : ℕ) → All (IsChild procs k) (children k)) where
    build_roots_lem :
        (i : ℕ) (rs : List ℕ) (v : List Bool)
        → All (IsRootAt procs) rs
        → Ascends i rs
        → AreUnvisited v rs
        → length v ≡ length procs
        → (f : Forest F32) × (v' : List Bool) × (build_roots procs children rs v ≡ some (f, v'))
          × IsGrown v v' f
    unfolding build_roots
    build_roots_lem i [] v roots asc h len = (nil, v, refl, IsGrown-nil v)
    build_roots_lem i (r ∷ rs) v (root, roots) (le, asc) (h, hs) len =
        let (t, v₁, e₁, s) =
          build_subtree_lem procs children indexed max_depth r 0 v (omega arith) len h in
        let (f, v₂, e₂, g) =
          build_roots_lem (suc r) rs v₁ roots asc
            (AreUnvisited-kept r (suc r) 0 s (omega arith) rs roots asc hs)
            (s.moves.same_length ∙ len) in
        (cons t f, v₂, rw e₁ (rw e₂), IsGrown-cons s g)

    abbrev IsMarkedBelow : ℕ → List Bool → Type 0
    IsMarkedBelow n v = (j : ℕ) → j < n → get_elem? v j ≡ some true

    IsMarkedBelow-suc :
        (n : ℕ) (v : List Bool)
        → IsMarkedBelow n v
        → get_elem? v n ≡ some true
        → IsMarkedBelow (suc n) v
    IsMarkedBelow-suc n v h e j lt = elim (ℕ_discrete j n) [
      | yes same ↦ rw same e
      | no other ↦ h j (omega arith)
    ]

    reroot_lem :
        (n idx : ℕ) (v : List Bool)
        → n + idx ≡ length procs
        → IsMarkedBelow idx v
        → length v ≡ length procs
        → (f : Forest F32) × (v' : List Bool) × (reroot procs children n idx v ≡ some (f, v'))
          × IsGrown v v' f
          × IsMarkedBelow (length procs) v'
    unfolding reroot
    reroot_lem zero idx v e h len = (nil, v, refl, IsGrown-nil v, λ j lt. h j (omega arith))
    reroot_lem (suc n) idx v e h len =
        let (seen, at) = get_elem?-of_lt v idx (omega arith) in
        visit seen at (λ w. reroot_lem n (suc idx) w (omega arith))
      where
        visit :
            (seen : Bool)
            → get_elem? v idx ≡ some seen
            → ((w : List Bool)
                → IsMarkedBelow (suc idx) w
                → length w ≡ length procs
                → (f : Forest F32) × (v' : List Bool) × (reroot procs children n (suc idx) w
                    ≡ some (f, v'))
                  × IsGrown w v' f
                  × IsMarkedBelow (length procs) v')
            → (f : Forest F32) × (v' : List Bool) × (reroot procs children (suc n) idx v
                ≡ some (f, v'))
              × IsGrown v v' f
              × IsMarkedBelow (length procs) v'
        visit true at ih =
            let (f, v', eq, g, all) = ih v (IsMarkedBelow-suc idx v h at) len in
            (f, v', rw at eq, g, all)
        visit false at ih =
            let (t, v₁, e₁, s) =
              build_subtree_lem procs children indexed max_depth idx 0 v (omega arith) len at in
            let below : IsMarkedBelow (suc idx) v₁ =
              IsMarkedBelow-suc idx v₁ (λ j lt. s.moves.kept j (h j lt)) s.marked in
            let (f, v₂, e₂, g, all) = ih v₁ below (s.moves.same_length ∙ len) in
            (cons t f, v₂, rw at (rw e₁ (rw e₂)), IsGrown-cons s g, all)

-- The forest holds every process once, as often as the list does, and it is linked.
pub record IsTreeOf {F32 : Type 0} (procs : List (ProcessInfo F32)) (f : Forest F32) : Type 0 where
  pub once : Perm procs (processes f)
  pub linked : AllLinked f

module _ {F32 : Type 0} where
  IsTreeOf-append :
      (procs : List (ProcessInfo F32)) {v v' : List Bool} (rooted rest : Forest F32)
      → IsGrown procs (replicate (length procs) false) v rooted
      → IsGrown procs v v' rest
      → unvisited procs v' ≡ []
      → IsTreeOf procs (append rooted rest)
  IsTreeOf-append procs {v} {v'} rooted rest a b none_left =
      let all = (Moves-trans procs a.moves b.moves).moved in
      let whole : (processes rooted ++ processes rest) ++ unvisited procs v'
          ≡ processes (append rooted rest) =
        ap (λ l. (processes rooted ++ processes rest) ++ l) none_left
        ∙ append-nil _
        ∙ sym (processes-append rooted rest) in
      record {
        once =
            subst (λ l. Perm l (processes (append rooted rest))) (unvisited-replicate procs)
              (subst (λ l. Perm (unvisited procs (replicate (length procs) false)) l) whole all);
        linked = AllLinked-append rooted rest a.linked b.linked;
      }

  build_forest_lem :
      (procs : List (ProcessInfo F32))
      → (f : Forest F32) × (build_forest procs ≡ some f) × IsTreeOf procs f
  unfolding build_forest
  build_forest_lem procs =
      let children = index_children procs 0 procs (λ _. []) in
      let indexed = index_children-IsChild procs 0 procs (λ _. []) (IsTail-start procs) (λ k. tt) in
      let roots = roots_from-IsRootAt procs 0 procs (IsTail-start procs) in
      let (rooted, v, e₁, a) =
        build_roots_lem procs children indexed 0 (roots_from procs 0 procs)
          (replicate (length procs) false) roots (roots_from-Ascends procs 0 procs)
          (AreUnvisited-replicate procs _ roots) (length-replicate (length procs) false) in
      let (rest, v', e₂, b, marked) =
        reroot_lem procs children indexed (length procs) 0 v (omega arith)
          (λ j lt. absurd (omega arith))
          (a.moves.same_length ∙ length-replicate (length procs) false) in
      (
        append rooted rest,
        rw e₁ (rw e₂),
        IsTreeOf-append procs rooted rest a b (unvisited-nil procs v' marked),
      )

  -- `build_process_tree` never panics. Its forest holds every process of the list exactly once, cut
  -- cycles and chains deeper than the limit included; every root stands at depth 0, every child
  -- names its parent's pid and stands one level deeper, and no depth passes `MAX_DEPTH`.
  pub build_process_tree_total :
      (procs : List (ProcessInfo F32))
      → (f : Forest F32) × (build_process_tree procs ≡ some f) × IsTreeOf procs f
  unfolding build_process_tree
  build_process_tree_total [] =
      (nil, refl, record { once = unfold flatten_tree in Perm.refl []; linked = tt })
  build_process_tree_total (p ∷ ps) = build_forest_lem (p ∷ ps)
