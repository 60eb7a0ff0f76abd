-- ===== src/Tui/Notify/Deadline.antt =====
-- The poll timeout of the event loop against the expiry of crates/muxtop-tui/src/notify.rs.
use muxtop.Base.{
  ℕ, ◌+◌, ◌-◌, ◌≤◌, ◌<◌, ◌≡◌, min, refl, sym, ◌∙◌, ap, true, false, not, none, some, List, [], ◌∷◌,
  ◌==◌, arith, Bool-cases, Option-cases, inl, inr, lt→leb, leb→lt, le→leb, All, length, filter_by,
  ==_iff,
}
use muxtop.Tui.Notify.{Toast, Notifier, ttl, is_expired, expire, lesser, least_left, next_deadline}
use muxtop.Tui.Notify.Bounds.{length-filter_by-le}

-- The toasts that `expire` keeps.
abbrev visible : ℕ → List Toast → List Toast
visible now ts = filter_by (λ t. not (is_expired now t)) ts

fresh : (t : Toast) (now e : ℕ) → e < ttl t.level - (now - t.at) → is_expired (now + e) t ≡ false
unfolding is_expired
fresh t now e h = lt→leb (ttl t.level) (now + e - t.at) (omega arith)

stale :
    (t : Toast) (now d : ℕ)
    → t.at ≤ now
    → ttl t.level - (now - t.at) ≤ d
    → is_expired (now + d) t ≡ true
unfolding is_expired
stale t now d h k = le→leb (ttl t.level) _ (omega arith)

not_stale :
    (t : Toast) (now d : ℕ)
    → t.at ≤ now
    → is_expired (now + d) t ≡ false
    → d < ttl t.level - (now - t.at)
unfolding is_expired
not_stale t now d h k = let young = leb→lt (ttl t.level) (now + d - t.at) k in omega arith

abbrev left : ℕ → Toast → ℕ
left now t = ttl t.level - (now - t.at)

visible-quiet :
    (now e : ℕ) (ts : List Toast) → All (λ t. e < left now t) ts → visible (now + e) ts ≡ ts
visible-quiet now e [] h = refl
visible-quiet now e (t ∷ ts) (h, hs) =
    rw (fresh t now e h) (ap (λ us. t ∷ us) (visible-quiet now e ts hs))

module _ {κ} (P : Toast → Type κ) (now : ℕ) where
  -- Nothing is left only of nothing.
  All-none : (ts : List Toast) → least_left now ts ≡ none → All P ts
  unfolding least_left
  All-none [] h = tt
  All-none (t ∷ ts) h = elim (Option-cases (least_left now ts)) [
    | inl e ↦ absurd (cc (h, e))
    | inr (m, e) ↦ absurd (cc (h, e))
  ]

All-mono :
    {P : Toast → Type 0} {Q : Toast → Type 0}
    → ((t : Toast) → P t → Q t)
    → (ts : List Toast) → All P ts
    → All Q ts
All-mono f [] h = tt
All-mono f (t ∷ ts) (h, hs) = (f t h, All-mono f ts hs)

-- The deadline is at most what any toast has left.
least_left-All :
    (now d : ℕ) (ts : List Toast) → least_left now ts ≡ some d → All (λ t. d ≤ left now t) ts
unfolding least_left
least_left-All now d [] h = tt
least_left-All now d (t ∷ ts) h = elim (Option-cases (least_left now ts)) [
  | inl e ↦
      let h' : some (left now t) ≡ some d = ap (lesser (left now t)) (sym e) ∙ h in
      (ground arith, All-none _ now ts e)
  | inr (m, e) ↦
      let h' : some (min (left now t) m) ≡ some d = ap (lesser (left now t)) (sym e) ∙ h in
      (ground arith, All-mono (λ u k. ground arith) ts (least_left-All now m ts e))
]

length-visible-due :
    (now d : ℕ) (ts : List Toast)
    → All (λ t. t.at ≤ now) ts
    → least_left now ts ≡ some d
    → length (visible (now + d) ts) < length ts
unfolding least_left
length-visible-due now d [] posted h = absurd (cc h)
length-visible-due now d (t ∷ ts) (p, ps) h =
    let fewer = length-filter_by-le (λ u. not (is_expired (now + d) u)) ts in
    elim (Bool-cases (is_expired (now + d) t)) [
      | inl e ↦ rw e (omega arith)
      | inr e ↦ rw e (elim (Option-cases (least_left now ts)) [
        | inl o ↦
            let h' : some (left now t) ≡ some d = ap (lesser (left now t)) (sym o) ∙ h in
            let late = stale t now d p (ground arith) in absurd (cc (e, late))
        | inr (m, o) ↦
            let h' : some (min (left now t) m) ≡ some d = ap (lesser (left now t)) (sym o) ∙ h in
            let longer = not_stale t now d p e in
            let sooner : m ≡ d = ground arith in
            let ih = length-visible-due now d ts ps (o ∙ ap (λ x. some x) sooner) in omega arith
      ])
    ]

-- Before the deadline that `next_deadline` gives, no toast expires and nothing is repainted.
pub expire-quiet :
    (now d e : ℕ) (n : Notifier)
    → next_deadline now n ≡ some d
    → e < d
    → expire (now + e) n ≡ (false, n)
unfolding expire next_deadline
expire-quiet now d e n h k =
    let still =
      visible-quiet now e n.active
        (All-mono (λ t r. omega arith) n.active (least_left-All now d n.active h)) in
    rw still (rw (==_iff (length n.active) (length n.active)).1 refl)

-- At the deadline a toast expires, if none was posted in the future.
pub expire-due :
    (now d : ℕ) (n : Notifier)
    → All (λ t. t.at ≤ now) n.active
    → next_deadline now n ≡ some d
    → (expire (now + d) n).0 ≡ true
unfolding expire next_deadline
expire-due now d n p h =
    let fewer = length-visible-due now d n.active p h in
    elim (Bool-cases (length n.active == length (visible (now + d) n.active))) [
      | inl e ↦ let same = (==_iff _ _).0 e in absurd (omega arith)
      | inr e ↦ rw e refl
    ]
