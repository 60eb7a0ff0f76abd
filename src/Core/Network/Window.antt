-- ===== src/Core/Network/Window.antt =====
-- The history as a window on the snapshots pushed (crates/muxtop-core/src/network.rs).
use mathlib.Core.List.{append-nil, append_assoc}
use muxtop.Base.{
  ℕ, zero, suc, ◌+◌, ◌-◌, ◌≤◌, ◌≡◌, max, refl, sym, ◌∙◌, ap, List, [], ◌∷◌, ◌++◌, arith, length,
  drop, Bool-cases, inl, inr, leb, leb→le, leb→lt, length-append, length-drop,
}
use muxtop.Core.Network.{NetworkSnapshot, TimestampedSnapshot, NetworkHistory, new, push}

abbrev pub stamped : ℕ × NetworkSnapshot → TimestampedSnapshot
stamped (now, s) = record { snapshot = s; timestamp = now }

-- Snapshots pushed one after the other, each at its instant.
abbrev pub push_all : List (ℕ × NetworkSnapshot) → NetworkHistory → NetworkHistory
push_all [] h = h
push_all ((now, s) ∷ ss) h = push_all ss (push now s h)

abbrev pub stamped_all : List (ℕ × NetworkSnapshot) → List TimestampedSnapshot
stamped_all [] = []
stamped_all ((now, s) ∷ ss) = stamped (now, s) ∷ stamped_all ss

-- The last `n` elements.
abbrev pub last_of : {A : Type 0} → ℕ → List A → List A
last_of n xs = drop (length xs - n) xs

drop-snoc :
    {A : Type 0} (n : ℕ) (xs : List A) (x : A)
    → n ≤ length xs
    → drop n (xs ++ (x ∷ [])) ≡ drop n xs ++ (x ∷ [])
drop-snoc zero xs x h = refl
drop-snoc (suc n) [] x h = absurd (omega arith)
drop-snoc (suc n) (y ∷ ys) x h = drop-snoc n ys x (omega arith)

drop-nil : {A : Type 0} (n : ℕ) → drop {A = A} n [] ≡ []
drop-nil zero = refl
drop-nil (suc n) = refl

drop-one_more : {A : Type 0} (n : ℕ) (xs : List A) → drop 1 (drop n xs) ≡ drop (suc n) xs
drop-one_more zero [] = refl
drop-one_more zero (x ∷ xs) = refl
drop-one_more (suc n) [] = refl
drop-one_more (suc n) (x ∷ xs) = drop-one_more n xs

last_of-snoc :
    {A : Type 0} (c : ℕ) (xs : List A) (x : A)
    → 1 ≤ c
    → last_of c (xs ++ (x ∷ [])) ≡ drop (length xs + 1 - c) xs ++ (x ∷ [])
last_of-snoc c xs x h =
    ap (λ n. drop (n - c) (xs ++ (x ∷ []))) (length-append xs (x ∷ []))
    ∙ drop-snoc (length xs + 1 - c) xs x (omega arith)

push-window :
    (now : ℕ) (s : NetworkSnapshot) (h : NetworkHistory) (all : List TimestampedSnapshot)
    → 1 ≤ h.capacity
    → h.samples ≡ last_of h.capacity all
    → (push now s h).samples ≡ last_of h.capacity (all ++ (stamped (now, s) ∷ []))
unfolding push
push-window now s h all some_room e =
    let x = stamped (now, s) in
    let c = h.capacity in
    let len : length h.samples ≡ length all - (length all - c) =
      ap (λ l. length l) e ∙ length-drop (length all - c) all in
    elim (Bool-cases (leb c (length h.samples))) [
      | inl full ↦
          let fills = leb→le c (length h.samples) full in
          let one_more : suc (length all - c) ≡ length all + 1 - c = omega arith in
          rw full (
            ap (λ l. l ++ (x ∷ []))
              (ap (drop 1) e ∙ drop-one_more (length all - c) all ∙ ap (λ n. drop n all) one_more)
            ∙ sym (last_of-snoc c all x some_room))
      | inr not_full ↦
          let room = leb→lt c (length h.samples) not_full in
          let same : length all - c ≡ length all + 1 - c = omega arith in
          rw not_full (
            ap (λ l. l ++ (x ∷ [])) (e ∙ ap (λ n. drop n all) same)
            ∙ sym (last_of-snoc c all x some_room))
    ]

push_all-window :
    (ss : List (ℕ × NetworkSnapshot)) (h : NetworkHistory) (all : List TimestampedSnapshot)
    → 1 ≤ h.capacity
    → h.samples ≡ last_of h.capacity all
    → (push_all ss h).samples ≡ last_of h.capacity (all ++ stamped_all ss)
unfolding push
push_all-window [] h all some_room e = e ∙ ap (last_of h.capacity) (sym (append-nil all))
push_all-window ((now, s) ∷ ss) h all some_room e =
    let x = stamped (now, s) in
    push_all-window ss (push now s h) (all ++ (x ∷ [])) some_room
      (push-window now s h all some_room e)
    ∙ ap (last_of h.capacity) (append_assoc all (x ∷ []) (stamped_all ss))

-- A history holds the last snapshots pushed, as many as its capacity, which is at least two.
pub push_all-new :
    (capacity : ℕ) (ss : List (ℕ × NetworkSnapshot))
    → (push_all ss (new capacity)).samples ≡ last_of (max capacity 2) (stamped_all ss)
unfolding new
push_all-new capacity ss =
    push_all-window ss (new capacity) [] (omega arith) (sym (drop-nil (0 - max capacity 2)))
