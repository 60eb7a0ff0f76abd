-- ===== src/Tui/Notify/Examples.antt =====
-- Runs of the notifier and of the scrubbing (crates/muxtop-tui/src/notify.rs, ui/sanitize.rs).
use muxtop.Base.{ℕ, ◌+◌, ◌*◌, ◌^◌, ◌≡◌, refl, false, true, some, List, [], ◌∷◌, arith}
use muxtop.Tui.Sanitize.{any_offending, bytes, scrub_ctrl}
use muxtop.Tui.Sanitize.Clean.{scrub_ctrl_is_safe}
use muxtop.Tui.Notify.{Level, Notifier, posted, new, expire, next_deadline, least_left, ttl}
use muxtop.Tui.Notify.Bounds.{Call, run, IsBounded, run-IsBounded, log-run-new}
use muxtop.Tui.Notify.Deadline.{expire-due}

-- An escape sequence, a tab and a character beyond ASCII.
abbrev title : List ℕ
title = 27 ∷ 93 ∷ 9 ∷ 233 ∷ 7 ∷ []

scrub_ctrl_is_safe_example : any_offending (bytes (scrub_ctrl title)) ≡ false
scrub_ctrl_is_safe_example = scrub_ctrl_is_safe title

abbrev calls : List (ℕ × Call)
calls =
    (0, Call.post Level.error title)
    ∷ (10 ^ 9, Call.post Level.info (104 ∷ []))
    ∷ (6 * 10 ^ 9, Call.expiry)
    ∷ (7 * 10 ^ 9, Call.dismissal)
    ∷ []

run-IsBounded_example : IsBounded (run calls new)
run-IsBounded_example = run-IsBounded calls

log-run-new_example :
    (run calls new).log ≡ posted 0 Level.error title ∷ posted (10 ^ 9) Level.info (104 ∷ []) ∷ []
log-run-new_example = log-run-new calls

-- An error and a piece of news, one second apart.
abbrev two_toasts : Notifier
two_toasts = record {
  active = posted 0 Level.error title ∷ posted (10 ^ 9) Level.info (104 ∷ []) ∷ [];
  log = [];
}

-- At two seconds the news has three seconds left.
next_deadline_of_two : next_deadline (2 * 10 ^ 9) two_toasts ≡ some (3 * 10 ^ 9)
unfolding next_deadline least_left ttl
next_deadline_of_two = refl

expire-due_example : (expire (2 * 10 ^ 9 + 3 * 10 ^ 9) two_toasts).0 ≡ true
expire-due_example =
    expire-due (2 * 10 ^ 9) (3 * 10 ^ 9) two_toasts (omega arith, (omega arith, tt))
      next_deadline_of_two
