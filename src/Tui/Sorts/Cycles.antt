-- ===== src/Tui/Sorts/Cycles.antt =====
-- Cycles of a successor function, for the tabs and the sort keys of
-- crates/muxtop-tui/src/app.rs.
use muxtop.Base.{
  ℕ, zero, suc, ◌+◌, ◌-◌, ◌<◌, ◌≡◌, sym, ◌∙◌, ap, arith, Bool-cases, inl, inr, leb, leb→le, leb→lt,
}

abbrev pub iterate {ℓ} : {A : Type ℓ} → ℕ → (A → A) → A → A
iterate zero f a = a
iterate (suc n) f a = iterate n f (f a)

pub iterate-plus {ℓ} :
    {A : Type ℓ} (m n : ℕ) (f : A → A) (a : A) → iterate (m + n) f a ≡ iterate n f (iterate m f a)
iterate-plus zero n f a =
    let none_more : 0 + n ≡ n = omega arith in ap (λ k. iterate k f a) none_more
iterate-plus (suc m) n f a =
    let one_more : suc m + n ≡ suc (m + n) = omega arith in
    ap (λ k. iterate k f a) one_more ∙ iterate-plus m n f (f a)

-- The number `rank` places an element on a cycle of `size` steps from `start`.
pub record IsOnCycle {A : Type 0} (next : A → A) (start : A) (size rank : ℕ) (a : A) : Type 0 where
  pub inside : rank < size
  pub from_start : iterate rank next start ≡ a
  pub to_start : iterate (size - rank) next a ≡ start

module _ {A : Type 0} (next : A → A) (start : A) (size : ℕ) where
  -- Any element leads to any other in less than a full round.
  pub reaches :
      (i j : ℕ) (a b : A)
      → IsOnCycle next start size i a
      → IsOnCycle next start size j b
      → (k : ℕ) × (k < size) × (iterate k next a ≡ b)
  reaches i j a b ha hb = elim (Bool-cases (leb i j)) [
    | inl e ↦
        let h = leb→le i j e in
        let lt = hb.inside in
        let split : i + (j - i) ≡ j = omega arith in
        (
          j - i,
          omega arith,
          ap (iterate (j - i) next) (sym ha.from_start)
              ∙ sym (iterate-plus i (j - i) next start)
              ∙ ap (λ n. iterate n next start) split
              ∙ hb.from_start,
        )
    | inr e ↦
        let h = leb→lt i j e in
        let lt = ha.inside in
        (
          size - i + j,
          omega arith,
          iterate-plus (size - i) j next a ∙ ap (iterate j next) ha.to_start ∙ hb.from_start,
        )
  ]

  -- A full round returns.
  pub returns : (i : ℕ) (a : A) → IsOnCycle next start size i a → iterate size next a ≡ a
  returns i a h =
      let lt = h.inside in
      let split : size - i + i ≡ size = omega arith in
      ap (λ n. iterate n next a) (sym split)
      ∙ iterate-plus (size - i) i next a
      ∙ ap (iterate i next) h.to_start
      ∙ h.from_start
