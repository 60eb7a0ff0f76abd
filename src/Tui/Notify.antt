-- ===== src/Tui/Notify.antt =====
-- The notifications (crates/muxtop-tui/src/notify.rs). Instants and durations are nanoseconds;
-- the instant of a call is an argument.
pub mod Bounds
pub mod Deadline
pub mod Examples
use muxtop.Base.{
  ℕ, suc, ◌*◌, ◌^◌, ◌-◌, min, Bool, not, Option, none, some, List, [], ◌∷◌, ◌++◌, length, ltb, leb,
  ◌==◌, if◌then◌else◌, filter_by,
}
use muxtop.Tui.Sanitize.{scrub_ctrl}

pub data Level : Type 0 where
  info success warning error neutral : Level

abbrev pub ttl_info : ℕ
ttl_info = 4 * 10 ^ 9

abbrev pub ttl_warning : ℕ
ttl_warning = 8 * 10 ^ 9

abbrev pub ttl_error : ℕ
ttl_error = 12 * 10 ^ 9

abbrev pub max_active : ℕ
max_active = 3

abbrev pub log_capacity : ℕ
log_capacity = 50

pub record Toast : Type 0 where
  pub level : Level
  pub text : List ℕ
  pub at : ℕ

unfoldable pub ttl : Level → ℕ
ttl Level.error = ttl_error
ttl Level.warning = min ttl_error ttl_warning
ttl Level.info = ttl_info
ttl Level.success = ttl_info
ttl Level.neutral = ttl_info

-- `Instant::elapsed` stops at 0.
unfoldable pub is_expired : ℕ → Toast → Bool
is_expired now t = leb (ttl t.level) (now - t.at)

pub record Notifier : Type 0 where
  pub active : List Toast
  pub log : List Toast

abbrev pub new : Notifier
new = record { active = []; log = [] }

-- `while len > n { remove the first }`
unfoldable pub trim {ℓ} : {A : Type ℓ} → ℕ → List A → List A
trim n [] = []
trim n (x ∷ xs) = let rest = trim n xs in if ltb n (suc (length xs)) then rest else x ∷ xs

abbrev pub posted : ℕ → Level → List ℕ → Toast
posted now level text = record { level = level; text = scrub_ctrl text; at = now }

unfoldable pub push : ℕ → Level → List ℕ → Notifier → Notifier
push now level text n = record {
  log = trim log_capacity (n.log ++ (posted now level text ∷ []));
  active = trim max_active (n.active ++ (posted now level text ∷ []));
}

unfoldable pub push_info : ℕ → List ℕ → Notifier → Notifier
push_info now text n = push now Level.info text n

unfoldable pub push_success : ℕ → List ℕ → Notifier → Notifier
push_success now text n = push now Level.success text n

unfoldable pub push_warn : ℕ → List ℕ → Notifier → Notifier
push_warn now text n = push now Level.warning text n

unfoldable pub push_error : ℕ → List ℕ → Notifier → Notifier
push_error now text n = push now Level.error text n

unfoldable pub last {ℓ} : {A : Type ℓ} → List A → Option A
last [] = none
last (x ∷ []) = some x
last (x ∷ y ∷ ys) = last (y ∷ ys)

unfoldable pub latest : Notifier → Option Toast
latest n = last n.active

-- The flag says whether a toast was dropped.
unfoldable pub expire : ℕ → Notifier → Bool × Notifier
expire now n =
    let kept = filter_by (λ t. not (is_expired now t)) n.active in
    (not (length n.active == length kept), record n { active = kept })

abbrev pub lesser : ℕ → Option ℕ → Option ℕ
lesser x none = some x
lesser x (some m) = some (min x m)

-- The time that each toast has left, and the least of them.
unfoldable pub least_left : ℕ → List Toast → Option ℕ
least_left now [] = none
least_left now (t ∷ ts) = lesser (ttl t.level - (now - t.at)) (least_left now ts)

unfoldable pub next_deadline : ℕ → Notifier → Option ℕ
next_deadline now n = least_left now n.active

unfoldable pub dismiss_all : Notifier → Notifier
dismiss_all n = record n { active = [] }

unfoldable pub is_empty : Notifier → Bool
is_empty n = length n.active == 0
