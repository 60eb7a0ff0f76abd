-- ===== src/Tui/Tabs/Order.antt =====
-- The order of the tabs (`Tab::next`, `Tab::prev` of crates/muxtop-tui/src/app.rs).
use muxtop.Base.{ℕ, ◌<◌, ◌≡◌, refl, Option, none, some, arith}
use muxtop.Tui.Tabs.{Tab, Tab-discrete, next, prev}
use mathlib.Core.Bool.{decide}
use muxtop.Tui.Sorts.Cycles.{iterate, IsOnCycle, reaches}

abbrev pub and_then : {A : Type 0} → (A → Option A) → Option A → Option A
and_then f none = none
and_then f (some a) = f a

-- Neither direction ever leaves the list of the tabs, and each undoes the other.
pub next-prev :
    (tab : Tab) → (and_then next (prev tab) ≡ some tab) × (and_then prev (next tab) ≡ some tab)
unfolding next prev decide Tab-discrete
next-prev Tab.general = (refl, refl)
next-prev Tab.processes = (refl, refl)
next-prev Tab.network = (refl, refl)
next-prev Tab.containers = (refl, refl)
next-prev Tab.kube = (refl, refl)
next-prev Tab.gpu = (refl, refl)

abbrev tab_rank : Tab → ℕ
tab_rank Tab.general = 0
tab_rank Tab.processes = 1
tab_rank Tab.network = 2
tab_rank Tab.containers = 3
tab_rank Tab.kube = 4
tab_rank Tab.gpu = 5

next-IsOnCycle :
    (tab : Tab) → IsOnCycle (and_then next) (some Tab.general) 6 (tab_rank tab) (some tab)
unfolding next decide Tab-discrete
next-IsOnCycle Tab.general = record { inside = omega arith; from_start = refl; to_start = refl }
next-IsOnCycle Tab.processes = record { inside = omega arith; from_start = refl; to_start = refl }
next-IsOnCycle Tab.network = record { inside = omega arith; from_start = refl; to_start = refl }
next-IsOnCycle Tab.containers = record { inside = omega arith; from_start = refl; to_start = refl }
next-IsOnCycle Tab.kube = record { inside = omega arith; from_start = refl; to_start = refl }
next-IsOnCycle Tab.gpu = record { inside = omega arith; from_start = refl; to_start = refl }

-- The key for the next tab leads from any tab to any other in less than a full round.
pub next-reaches :
    (tab other : Tab) → (k : ℕ) × (k < 6) × (iterate k (and_then next) (some tab) ≡ some other)
next-reaches tab other =
    reaches (and_then next) (some Tab.general) 6 (tab_rank tab) (tab_rank other) (some tab)
      (some other) (next-IsOnCycle tab) (next-IsOnCycle other)
