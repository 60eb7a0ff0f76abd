-- ===== src/Base/Keys.antt =====
-- Boolean tests of equality, as the keys of hash maps have them.
use Prim.Native.Nat.{ℕ}
use mathlib.Core.Path.{◌≡◌, refl, sym, ap, ◌∙◌}
use mathlib.Core.Logic.{inl, inr}
use mathlib.Core.Bool.{Bool, true, false}
use mathlib.Core.List.{List, [], ◌∷◌}
use native.Mathlib.Omega.{arith}
use muxtop.Base.Tests.{Bool-cases}
use muxtop.Base.Texts.{same_text}

-- A test that decides equality.
pub record Decides {ℓ} {K : Type ℓ} (alike : K → K → Bool) : Type ℓ where
  pub sound : (j k : K) → alike j k ≡ true → j ≡ k
  pub complete : (k : K) → alike k k ≡ true

module _ {ℓ} {K : Type ℓ} (alike : K → K → Bool) (decides : Decides alike) where
  -- Keys that are alike are alike to the same keys.
  pub alike-agree : (j k q : K) → alike j k ≡ true → alike j q ≡ alike k q
  alike-agree j k q h = ap (λ x. alike x q) (decides.sound j k h)

  -- Of two keys that differ at most one is the third.
  pub not_both : (j k q : K) → alike j k ≡ false → alike j q ≡ true → alike k q ≡ false
  not_both j k q h e = elim (Bool-cases (alike k q)) [
    | inl both ↦
        let same : k ≡ j = decides.sound k q both ∙ sym (decides.sound j q e) in
        let agree : alike j k ≡ true = ap (alike j) same ∙ decides.complete j in
        absurd (cc (agree, h))
    | inr differ ↦ differ
  ]

same_text_sound : (s t : List ℕ) → same_text s t ≡ true → s ≡ t
same_text_sound [] [] h = refl
same_text_sound [] (d ∷ ds) h = absurd (cc h)
same_text_sound (c ∷ cs) [] h = absurd (cc h)
same_text_sound (c ∷ cs) (d ∷ ds) h = ground (arith, same_text_sound cs ds)

same_text_complete : (s : List ℕ) → same_text s s ≡ true
same_text_complete [] = refl
same_text_complete (c ∷ cs) = ground (arith, same_text_complete cs)

pub same_text-Decides : Decides same_text
same_text-Decides = record { sound = same_text_sound; complete = same_text_complete }
