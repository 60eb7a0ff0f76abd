-- ===== src/Core/Process/Tree/Index.antt =====
-- The children map and the roots of crates/muxtop-core/src/process.rs: which indices they hold.
use muxtop.Base.{
  ℕ, zero, suc, ◌+◌, ◌≤◌, ◌≡◌, refl, sym, ap, ◌∙◌, true, false, Option, none, some, List, [], ◌∷◌,
  ◌++◌, arith, ◌==◌, get_elem?, All, Bool-cases, inl, inr, ==_iff,
}
use muxtop.Core.Process.{ProcessInfo}
use muxtop.Core.Process.Tree.{
  listed_parent, record_child, push, index_children, is_root, roots_from,
}

module _ {ℓ} {A : Type ℓ} where
  pub All-append {κ} : (P : A → Type κ) (xs ys : List A) → All P xs → All P ys → All P (xs ++ ys)
  All-append P [] ys h k = k
  All-append P (x ∷ xs) ys (h, hs) k = (h, All-append P xs ys hs k)

-- Ascending, from `i` on.
abbrev pub Ascends : ℕ → List ℕ → Type 0
Ascends i [] = Unit
Ascends i (j ∷ js) = (i ≤ j) × Ascends (suc j) js

Ascends-mono : (i j : ℕ) (js : List ℕ) → i ≤ j → Ascends j js → Ascends i js
Ascends-mono i j [] h a = tt
Ascends-mono i j (k ∷ ks) h (a, b) = (omega arith, b)

module _ {F32 : Type 0} (procs : List (ProcessInfo F32)) where
  -- The process at index `j` has the listed parent `k`.
  pub record IsChild (k j : ℕ) : Type 0 where
    pub process : ProcessInfo F32
    pub at : get_elem? procs j ≡ some process
    pub parent : process.parent_pid ≡ some k
    pub listed : listed_parent procs process.parent_pid ≡ some k

  -- The process at index `j` qualifies as a root.
  pub record IsRootAt (j : ℕ) : Type 0 where
    pub process : ProcessInfo F32
    pub at : get_elem? procs j ≡ some process
    pub root : is_root procs process.parent_pid ≡ true

  pub parent_of_listed : (o : Option ℕ) (k : ℕ) → listed_parent procs o ≡ some k → o ≡ some k
  unfolding listed_parent
  parent_of_listed none k h = cc
  parent_of_listed (some n) k h = ground arith

  pub is_root_of_listed :
      (o : Option ℕ) (k : ℕ) → listed_parent procs o ≡ some k → is_root procs o ≡ false
  unfolding listed_parent is_root
  is_root_of_listed none k h = absurd (cc h)
  is_root_of_listed (some zero) k h = ground arith
  is_root_of_listed (some (suc n)) k h = ground arith

  pub child_not_root : (k j : ℕ) → IsChild k j → IsRootAt j → ⊥
  child_not_root k j c r = cc (
    is_root_of_listed c.process.parent_pid k c.listed,
    r.root,
    ap (λ p. p.parent_pid) (some_eq c.process r.process (sym c.at ∙ r.at)),
  )
    where
      some_eq : (p q : ProcessInfo F32) → some p ≡ some q → p ≡ q
      some_eq p q h = cc h

  record_child-IsChild :
      (children : ℕ → List ℕ) (p : ProcessInfo F32) (i : ℕ)
      → get_elem? procs i ≡ some p
      → ((k : ℕ) → All (IsChild k) (children k))
      → (o : Option ℕ) → listed_parent procs p.parent_pid ≡ o
      → (k : ℕ) → All (IsChild k) (record_child children o i k)
  unfolding record_child push
  record_child-IsChild children p i at h none e k = h k
  record_child-IsChild children p i at h (some q) e k = elim (Bool-cases (k == q)) [
    | inl same ↦
        let k≡q : k ≡ q = (==_iff k q).0 same in
        rw same (
          All-append (IsChild k) (children k) (i ∷ []) (h k) (
            record {
              process = p;
              at = at;
              parent = parent_of_listed p.parent_pid k (e ∙ ap some (sym k≡q));
              listed = e ∙ ap some (sym k≡q);
            },
            tt,
          ))
    | inr other ↦ rw other (h k)
  ]

  -- `ps` is the part of the list from index `i` on.
  abbrev pub IsTail : ℕ → List (ProcessInfo F32) → Type 0
  IsTail i ps = (j : ℕ) → get_elem? procs (j + i) ≡ get_elem? ps j

  IsTail-suc :
      (i : ℕ) (p : ProcessInfo F32) (ps : List (ProcessInfo F32))
      → IsTail i (p ∷ ps)
      → IsTail (suc i) ps
  IsTail-suc i p ps h j = let e : j + suc i ≡ suc j + i = omega arith in rw e (h (suc j))

  IsTail-head :
      (i : ℕ) (p : ProcessInfo F32) (ps : List (ProcessInfo F32))
      → IsTail i (p ∷ ps)
      → get_elem? procs i ≡ some p
  IsTail-head i p ps h = let e : i ≡ 0 + i = omega arith in rw e (h 0)

  pub IsTail-start : IsTail 0 procs
  IsTail-start j = let e : j + 0 ≡ j = omega arith in rw e

  -- Everything in the children map is an index of a process whose listed parent is the key.
  pub index_children-IsChild :
      (i : ℕ) (ps : List (ProcessInfo F32)) (children : ℕ → List ℕ)
      → IsTail i ps
      → ((k : ℕ) → All (IsChild k) (children k))
      → (k : ℕ) → All (IsChild k) (index_children procs i ps children k)
  unfolding index_children
  index_children-IsChild i [] children tail h = h
  index_children-IsChild i (p ∷ ps) children tail h =
      index_children-IsChild (suc i) ps _ (IsTail-suc i p ps tail) (
        record_child-IsChild children p i (IsTail-head i p ps tail) h
          (listed_parent procs p.parent_pid) refl)

  pub roots_from-IsRootAt :
      (i : ℕ) (ps : List (ProcessInfo F32)) → IsTail i ps → All IsRootAt (roots_from procs i ps)
  unfolding roots_from
  roots_from-IsRootAt i [] tail = tt
  roots_from-IsRootAt i (p ∷ ps) tail =
      let rest = roots_from-IsRootAt (suc i) ps (IsTail-suc i p ps tail) in
      elim (Bool-cases (is_root procs p.parent_pid)) [
        | inl e ↦ rw e (record { process = p; at = IsTail-head i p ps tail; root = e }, rest)
        | inr e ↦ rw e rest
      ]

  pub roots_from-Ascends : (i : ℕ) (ps : List (ProcessInfo F32)) → Ascends i (roots_from procs i ps)
  unfolding roots_from
  roots_from-Ascends i [] = tt
  roots_from-Ascends i (p ∷ ps) = elim (Bool-cases (is_root procs p.parent_pid)) [
    | inl e ↦ rw e (omega arith, roots_from-Ascends (suc i) ps)
    | inr e ↦ rw e (Ascends-mono i (suc i) _ (omega arith) (roots_from-Ascends (suc i) ps))
  ]
