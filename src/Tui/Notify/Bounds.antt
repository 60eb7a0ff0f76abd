-- ===== src/Tui/Notify/Bounds.antt =====
-- The stack and the log of crates/muxtop-tui/src/notify.rs over any sequence of calls.
use muxtop.Base.{
  ℕ, zero, suc, ◌-◌, ◌≤◌, ◌≡◌, refl, sym, ◌∙◌, ap, Bool, true, false, not, List, [], ◌∷◌, ◌++◌, ltb,
  arith, Bool-cases, inl, inr, if_ind, ltb→lt, lt→ltb, ltb→le, All, length, drop, length-append,
  filter_by,
}
use mathlib.Core.List.{append-nil, append_assoc}
use muxtop.Tui.Sanitize.{bytes, any_offending}
use muxtop.Tui.Sanitize.Clean.{scrub_ctrl_is_safe}
use muxtop.Tui.Notify.{
  Level, Toast, Notifier, trim, posted, push, expire, dismiss_all, max_active, log_capacity, new,
  is_expired,
}

module _ {ℓ} {A : Type ℓ} where
  pub length-trim-le : (n : ℕ) (xs : List A) → length (trim n xs) ≤ n
  unfolding trim
  length-trim-le n [] = omega arith
  length-trim-le n (x ∷ xs) = elim (Bool-cases (ltb n (suc (length xs)))) [
    | inl e ↦ rw e (length-trim-le n xs)
    | inr e ↦ rw e (ltb→le n (suc (length xs)) e)
  ]

  drop-nil : (n : ℕ) → drop {A = A} n [] ≡ []
  drop-nil zero = refl
  drop-nil (suc n) = refl

  -- What the loop leaves is the end of the list.
  pub trim-eq_drop : (n : ℕ) (xs : List A) → trim n xs ≡ drop (length xs - n) xs
  unfolding trim
  trim-eq_drop n [] = sym (drop-nil (0 - n))
  trim-eq_drop n (x ∷ xs) = elim (Bool-cases (ltb n (suc (length xs)))) [
    | inl e ↦
        let few = ltb→lt n (suc (length xs)) e in
        let one_more : suc (length xs) - n ≡ suc (length xs - n) = omega arith in
        rw e (rw one_more (trim-eq_drop n xs))
    | inr e ↦
        let many = ltb→le n (suc (length xs)) e in
        let all_fit : suc (length xs) - n ≡ 0 = omega arith in rw e (rw all_fit refl)
  ]

  longer :
      (n : ℕ) (x : A) (xs ys : List A)
      → ltb n (suc (length xs)) ≡ true
      → ltb n (suc (length (xs ++ ys))) ≡ true
  longer n x xs ys e =
      let short = ltb→lt n (suc (length xs)) e in
      lt→ltb n (suc (length (xs ++ ys))) (omega (arith, length-append xs ys))

  -- Trimming early loses nothing that trimming late would keep.
  pub trim-append-trim : (n : ℕ) (xs ys : List A) → trim n (trim n xs ++ ys) ≡ trim n (xs ++ ys)
  unfolding trim
  trim-append-trim n [] ys = refl
  trim-append-trim n (x ∷ xs) ys = elim (Bool-cases (ltb n (suc (length xs)))) [
    | inl e ↦ rw e (rw (longer n x xs ys e) (trim-append-trim n xs ys))
    | inr e ↦ rw e refl
  ]

  pub All-trim {κ} : (P : A → Type κ) (n : ℕ) (xs : List A) → All P xs → All P (trim n xs)
  unfolding trim
  All-trim P n [] h = tt
  All-trim P n (x ∷ xs) (h, hs) =
      if_ind (All P) (ltb n (suc (length xs))) (All-trim P n xs hs) (h, hs)

-- The calls that change the notifier, each at its instant.
pub data Call : Type 0 where
  post : Level → List ℕ → Call
  expiry dismissal : Call

abbrev pub call : ℕ → Call → Notifier → Notifier
call now (post level text) n = push now level text n
call now expiry n = (expire now n).1
call now dismissal n = dismiss_all n

abbrev pub run : List (ℕ × Call) → Notifier → Notifier
run [] n = n
run ((now, c) ∷ cs) n = run cs (call now c n)

-- Everything that the calls post, oldest first.
abbrev pub posts : List (ℕ × Call) → List Toast
posts [] = []
posts ((now, post level text) ∷ cs) = posted now level text ∷ posts cs
posts ((now, expiry) ∷ cs) = posts cs
posts ((now, dismissal) ∷ cs) = posts cs

abbrev pub IsClean : Toast → Type 0
IsClean t = any_offending (bytes t.text) ≡ false

pub record IsBounded (n : Notifier) : Type 0 where
  pub few : length n.active ≤ max_active
  pub log_fits : length n.log ≤ log_capacity
  pub clean : All IsClean n.active
  pub log_clean : All IsClean n.log

module _ {A : Type 0} (test : A → Bool) where
  filter_by-All : (P : A → Type 0) (xs : List A) → All P xs → All P (filter_by test xs)
  filter_by-All P [] h = tt
  filter_by-All P (x ∷ xs) (h, hs) =
      if_ind (All P) (test x) (h, filter_by-All P xs hs) (filter_by-All P xs hs)

  pub length-filter_by-le : (xs : List A) → length (filter_by test xs) ≤ length xs
  length-filter_by-le [] = omega arith
  length-filter_by-le (x ∷ xs) =
      let ih = length-filter_by-le xs in
      if_ind (λ l. length l ≤ suc (length xs)) (test x) (omega arith) (omega arith)

All-snoc :
    {A : Type 0} (P : A → Type 0) (xs : List A) (x : A) → All P xs → P x → All P (xs ++ (x ∷ []))
All-snoc P [] x h k = (k, tt)
All-snoc P (y ∷ ys) x (h, hs) k = (h, All-snoc P ys x hs k)

call-IsBounded : (now : ℕ) (c : Call) (n : Notifier) → IsBounded n → IsBounded (call now c n)
unfolding push expire dismiss_all
call-IsBounded now (post level text) n h =
    let safe = scrub_ctrl_is_safe text in
    record {
      few = length-trim-le max_active _;
      log_fits = length-trim-le log_capacity _;
      clean = All-trim IsClean max_active _ (All-snoc IsClean n.active _ h.clean safe);
      log_clean = All-trim IsClean log_capacity _ (All-snoc IsClean n.log _ h.log_clean safe);
    }
call-IsBounded now expiry n h =
    let fewer = length-filter_by-le (λ t. not (is_expired now t)) n.active in
    record {
      few = let many = h.few in omega arith;
      log_fits = h.log_fits;
      clean = filter_by-All _ IsClean n.active h.clean;
      log_clean = h.log_clean;
    }
call-IsBounded now dismissal n h = record {
  few = omega arith;
  log_fits = h.log_fits;
  clean = tt;
  log_clean = h.log_clean;
}

run_keeps : (cs : List (ℕ × Call)) (n : Notifier) → IsBounded n → IsBounded (run cs n)
run_keeps [] n h = h
run_keeps ((now, c) ∷ cs) n h = run_keeps cs (call now c n) (call-IsBounded now c n h)

-- Whatever is posted, expires and is dismissed, a new notifier never shows more than three
-- toasts or keeps more than fifty, and the text of every one is free of control characters.
pub run-IsBounded : (cs : List (ℕ × Call)) → IsBounded (run cs new)
run-IsBounded cs =
    run_keeps cs new
      (record { few = omega arith; log_fits = omega arith; clean = tt; log_clean = tt })

log-run :
    (cs : List (ℕ × Call)) (n : Notifier) (before : List Toast)
    → n.log ≡ trim log_capacity before
    → (run cs n).log ≡ trim log_capacity (before ++ posts cs)
unfolding push expire dismiss_all
log-run [] n before h = h ∙ ap (trim log_capacity) (sym (append-nil before))
log-run ((now, post level text) ∷ cs) n before h =
    let p = posted now level text in
    log-run cs (push now level text n) (before ++ (p ∷ [])) (
      ap (λ l. trim log_capacity (l ++ (p ∷ []))) h ∙ trim-append-trim log_capacity before (p ∷ []))
    ∙ ap (trim log_capacity) (append_assoc before (p ∷ []) (posts cs))
log-run ((now, expiry) ∷ cs) n before h = log-run cs (expire now n).1 before h
log-run ((now, dismissal) ∷ cs) n before h = log-run cs (dismiss_all n) before h

-- The log is the last fifty of all messages posted: none is lost before, neither by expiry nor
-- by dismissal.
pub log-run-new :
    (cs : List (ℕ × Call)) → (run cs new).log ≡ drop (length (posts cs) - log_capacity) (posts cs)
unfolding trim
log-run-new cs = log-run cs new [] refl ∙ trim-eq_drop log_capacity (posts cs)
