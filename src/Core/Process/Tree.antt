-- ===== src/Core/Process/Tree.antt =====
-- `build_process_tree` and `flatten_tree` (crates/muxtop-core/src/process.rs).
--
-- An index out of range is a panic, `none`. The walk of `build_subtree` recurs on the levels that
-- are left below its depth, `MAX_DEPTH - depth`, which is what its test `depth < MAX_DEPTH` reads.
-- The hash map from a pid to its children is a function.
pub mod Index
pub mod Spec
pub mod Unvisited
pub mod Place
pub mod Total
use muxtop.Base.{
  ℕ, zero, suc, ◌+◌, Bool, true, false, not, ◌&&◌, Option, none, some, List, [], ◌∷◌, ◌++◌, map,
  ltb, ◌==◌, if◌then◌else◌, length, get_elem?, set, replicate,
}
use muxtop.Core.Process.{ProcessInfo}

-- Panics pass through.
infixl 5 ◌>>=◌
abbrev pub ◌>>=◌ {ℓ κ} : {A : Type ℓ} {B : Type κ} → Option A → (A → Option B) → Option B
none >>= f = none
some a >>= f = f a

mutual
  pub data TreeNode (F32 : Type 0) : Type 0 where
    node : (process : ProcessInfo F32) (children : Forest F32) (depth : ℕ) → TreeNode F32

  -- `Vec<TreeNode>`
  pub data Forest (F32 : Type 0) : Type 0 where
    nil : Forest F32
    cons : TreeNode F32 → Forest F32 → Forest F32

abbrev pub max_depth : ℕ
max_depth = 256

-- `children_map.entry(ppid).or_default().push(i)`
unfoldable pub push : (ℕ → List ℕ) → ℕ → ℕ → ℕ → List ℕ
push children ppid i k = if k == ppid then children k ++ (i ∷ []) else children k

pub record_child : (ℕ → List ℕ) → Option ℕ → ℕ → ℕ → List ℕ
record_child children none i = children
record_child children (some ppid) i = push children ppid i

module _ {F32 : Type 0} where
  abbrev pub append : Forest F32 → Forest F32 → Forest F32
  append nil g = g
  append (cons t f) g = cons t (append f g)

  -- `pid_set.contains`
  unfoldable pub contains : List (ProcessInfo F32) → ℕ → Bool
  contains [] k = false
  contains (p ∷ ps) k = if p.pid == k then true else contains ps k

  -- The guard of the first match: a parent that is positive and in the list.
  unfoldable pub listed_parent : List (ProcessInfo F32) → Option ℕ → Option ℕ
  listed_parent procs none = none
  listed_parent procs (some ppid) = if ltb 0 ppid && contains procs ppid then some ppid else none

  -- The loop that fills `children_map`, from index `i` on.
  unfoldable pub index_children :
      List (ProcessInfo F32) → ℕ → List (ProcessInfo F32) → (ℕ → List ℕ) → ℕ → List ℕ
  unfolding record_child
  index_children procs i [] children = children
  index_children procs i (p ∷ ps) children =
      index_children procs (suc i) ps (record_child children (listed_parent procs p.parent_pid) i)

  unfoldable pub is_root : List (ProcessInfo F32) → Option ℕ → Bool
  is_root procs none = true
  is_root procs (some zero) = true
  is_root procs (some ppid) = not (contains procs ppid)

  unfoldable pub roots_from : List (ProcessInfo F32) → ℕ → List (ProcessInfo F32) → List ℕ
  roots_from procs i [] = []
  roots_from procs i (p ∷ ps) =
      let rest = roots_from procs (suc i) ps in
      if is_root procs p.parent_pid then i ∷ rest else rest

  -- The `filter_map` over the children, which skips those that are placed already.
  unfoldable pub place_children :
      (ℕ → List Bool → Option (TreeNode F32 × List Bool))
      → List ℕ
      → List Bool
      → Option (Forest F32 × List Bool)
  place_children build [] visited = some (nil, visited)
  place_children build (ci ∷ cs) visited = get_elem? visited ci >>= λ seen. elim seen [
    | true ↦ place_children build cs visited
    | false ↦ build ci visited >>= λ (t, after).
        place_children build cs after >>= λ (f, last). some (cons t f, last)
  ]

  module _ (procs : List (ProcessInfo F32)) (children : ℕ → List ℕ) where
    -- `left` is `MAX_DEPTH - depth`.
    unfoldable pub build_subtree :
        (left idx depth : ℕ) → List Bool → Option (TreeNode F32 × List Bool)
    unfolding place_children
    build_subtree zero idx depth visited =
        get_elem? procs idx >>= λ p. some (node p nil depth, set visited idx true)
    build_subtree (suc left) idx depth visited = get_elem? procs idx >>= λ p.
        place_children (λ ci. build_subtree left ci (suc depth)) (children p.pid)
          (set visited idx true)
        >>= λ (f, after). some (node p f depth, after)

    unfoldable pub build_roots : List ℕ → List Bool → Option (Forest F32 × List Bool)
    unfolding build_subtree
    build_roots [] visited = some (nil, visited)
    build_roots (ri ∷ rs) visited = build_subtree max_depth ri 0 visited >>= λ (t, after).
        build_roots rs after >>= λ (f, last). some (cons t f, last)

    -- The loop `for idx in 0..procs.len()`, with `n` rounds left from `idx` on.
    unfoldable pub reroot : ℕ → ℕ → List Bool → Option (Forest F32 × List Bool)
    unfolding build_subtree
    reroot zero idx visited = some (nil, visited)
    reroot (suc n) idx visited = get_elem? visited idx >>= λ seen. elim seen [
      | true ↦ reroot n (suc idx) visited
      | false ↦ build_subtree max_depth idx 0 visited >>= λ (t, after).
          reroot n (suc idx) after >>= λ (f, last). some (cons t f, last)
    ]

  -- The body of `build_process_tree` after its early return.
  unfoldable pub build_forest : List (ProcessInfo F32) → Option (Forest F32)
  unfolding index_children roots_from build_roots reroot
  build_forest procs =
      let children = index_children procs 0 procs (λ _. []) in
      build_roots procs children (roots_from procs 0 procs) (replicate (length procs) false)
      >>= λ (rooted, visited).
          reroot procs children (length procs) 0 visited >>= λ (rest, _). some (append rooted rest)

  unfoldable pub build_process_tree : List (ProcessInfo F32) → Option (Forest F32)
  unfolding build_forest
  build_process_tree [] = some nil
  build_process_tree (p ∷ ps) = build_forest (p ∷ ps)

unfoldable mutual
  pub walk : {F32 : Type 0} → TreeNode F32 → List (ProcessInfo F32 × ℕ)
  walk (node p children depth) = (p, depth) ∷ flatten_tree children

  -- The nodes in the order of a depth-first walk, each with its depth.
  pub flatten_tree : {F32 : Type 0} → Forest F32 → List (ProcessInfo F32 × ℕ)
  flatten_tree nil = []
  flatten_tree (cons t f) = walk t ++ flatten_tree f
