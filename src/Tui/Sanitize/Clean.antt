-- ===== src/Tui/Sanitize/Clean.antt =====
-- What the scrubbing of crates/muxtop-tui/src/ui/sanitize.rs guarantees.
use muxtop.Base.{
  ℕ, ◌≤◌, ◌≡◌, refl, sym, ◌∙◌, ap₂, Bool, true, false, ◌||◌, List, [], ◌∷◌, ◌++◌, map, ltb,
  if◌then◌else◌, arith, Bool-cases, inl, inr, if_ind, ltb→le, All,
}
use muxtop.Tui.Sanitize.{
  utf8, bytes, is_offending, any_offending, scrub_char, scrub_chars, scrub_ctrl,
}

-- A byte beyond ASCII is never offending.
high_is_safe : (b : ℕ) → 128 ≤ b → is_offending b ≡ false
unfolding is_offending
high_is_safe b h = ground arith

any_offending-append :
    (xs ys : List ℕ)
    → any_offending xs ≡ false
    → any_offending ys ≡ false
    → any_offending (xs ++ ys) ≡ false
unfolding any_offending
any_offending-append [] ys h k = k
any_offending-append (x ∷ xs) ys h k = elim (Bool-cases (is_offending x)) [
  | inl e ↦ absurd (cc (h, e))
  | inr e ↦ rw e (any_offending-append xs ys (sym (rw e refl) ∙ h) k)
]

high_are_safe : (bs : List ℕ) → All (λ b. 128 ≤ b) bs → any_offending bs ≡ false
unfolding any_offending
high_are_safe [] h = refl
high_are_safe (b ∷ bs) h = rw (high_is_safe b h.0) (high_are_safe bs h.1)

utf8-high : (c : ℕ) → 128 ≤ c → All (λ b. 128 ≤ b) (utf8 c)
utf8-high c h =
    if_ind (All (λ b. 128 ≤ b)) (ltb c 128) (h, tt)
      (if_ind (All (λ b. 128 ≤ b)) (ltb c 2048) (omega arith, (omega arith, tt))
        (if_ind (All (λ b. 128 ≤ b)) (ltb c 65536) (omega arith, (omega arith, (omega arith, tt)))
          (omega arith, (omega arith, (omega arith, (omega arith, tt))))))

or_false : (b : Bool) → (b || false) ≡ b
or_false true = refl
or_false false = refl

any_offending-one : (c : ℕ) → any_offending (c ∷ []) ≡ is_offending c
unfolding any_offending
any_offending-one c = or_false (is_offending c)

-- The bytes of a character offend exactly if the character does.
any_offending-utf8 : (c : ℕ) → any_offending (utf8 c) ≡ is_offending c
any_offending-utf8 c = elim (Bool-cases (ltb c 128)) [
  | inl e ↦ rw e (any_offending-one c)
  | inr e ↦
      high_are_safe (utf8 c) (utf8-high c (ltb→le c 128 e)) ∙ sym (high_is_safe c (ltb→le c 128 e))
]

-- The replacement of a character that offends.
abbrev pub cleaned : ℕ → ℕ
cleaned c = if is_offending c then 63 else c

scrub_char-eq_cleaned : (c : ℕ) → scrub_char c ≡ cleaned c
unfolding scrub_char is_offending
scrub_char-eq_cleaned c = ground arith

scrub_chars-eq_map : (s : List ℕ) → scrub_chars s ≡ map cleaned s
unfolding scrub_chars
scrub_chars-eq_map [] = refl
scrub_chars-eq_map (c ∷ cs) = ap₂ (λ x xs. x ∷ xs) (scrub_char-eq_cleaned c) (scrub_chars-eq_map cs)

append_safe :
    (xs ys : List ℕ)
    → any_offending (xs ++ ys) ≡ false
    → (any_offending xs ≡ false) × (any_offending ys ≡ false)
unfolding any_offending
append_safe [] ys h = (refl, h)
append_safe (x ∷ xs) ys h = elim (Bool-cases (is_offending x)) [
  | inl e ↦ absurd (cc (h, e))
  | inr e ↦ let (a, b) = append_safe xs ys (sym (rw e refl) ∙ h) in (rw e a, b)
]

-- A clean string has nothing to replace.
map-clean : (s : List ℕ) → any_offending (bytes s) ≡ false → map cleaned s ≡ s
map-clean [] h = refl
map-clean (c ∷ cs) h =
    let (a, b) = append_safe (utf8 c) (bytes cs) h in
    ap₂ (λ x xs. x ∷ xs) (rw (sym (any_offending-utf8 c) ∙ a) refl) (map-clean cs b)

-- Scrubbing replaces every character that offends by a question mark and keeps all others, also
-- where the borrowed string is returned because no byte offends.
pub scrub_ctrl-eq_map : (s : List ℕ) → scrub_ctrl s ≡ map cleaned s
unfolding scrub_ctrl
scrub_ctrl-eq_map s = elim (Bool-cases (any_offending (bytes s))) [
  | inl e ↦ rw e (scrub_chars-eq_map s)
  | inr e ↦ rw e (sym (map-clean s e))
]

question_mark_is_safe : is_offending 63 ≡ false
unfolding is_offending
question_mark_is_safe = refl

cleaned_is_safe : (c : ℕ) → is_offending (cleaned c) ≡ false
cleaned_is_safe c = elim (Bool-cases (is_offending c)) [
  | inl e ↦ rw e question_mark_is_safe
  | inr e ↦ rw e e
]

map-cleaned_is_safe : (s : List ℕ) → any_offending (bytes (map cleaned s)) ≡ false
map-cleaned_is_safe [] = high_are_safe [] tt
map-cleaned_is_safe (c ∷ cs) =
    any_offending-append (utf8 (cleaned c)) (bytes (map cleaned cs))
      (any_offending-utf8 (cleaned c) ∙ cleaned_is_safe c) (map-cleaned_is_safe cs)

-- No byte of a scrubbed string offends, so no control sequence reaches the terminal.
pub scrub_ctrl_is_safe : (s : List ℕ) → any_offending (bytes (scrub_ctrl s)) ≡ false
scrub_ctrl_is_safe s = rw (scrub_ctrl-eq_map s) (map-cleaned_is_safe s)
