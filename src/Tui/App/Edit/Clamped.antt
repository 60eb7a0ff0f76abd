-- ===== src/Tui/App/Edit/Clamped.antt =====
-- The cursor after a filter has changed (crates/muxtop-tui/src/app.rs).
use muxtop.Base.{ℕ, ◌-◌, ◌≤◌, Bool, true, false, [], arith}
use muxtop.Core.Std.{Std}
use muxtop.Core.Process.{Text}
use muxtop.Tui.App.View.{View, table_of, item_count, clamp_selection}
use muxtop.Tui.App.View.Selection.{item_count-placed, selected-placed}
use muxtop.Tui.App.Edit.{refreshed, after_filter_change, write_filter, set_filter, clear_filter}

clamp_bound : (sel count : ℕ) → clamp_selection sel count ≤ count - 1
unfolding clamp_selection
clamp_bound sel count = ground arith

module _ {std : Std} where
  -- The selection of the active table is a row of it, or the first if it has none.
  abbrev pub IsClamped : View std → Type 0
  IsClamped w = (table_of w.tab w).selected ≤ item_count w - 1

  pub after_filter_change-IsClamped :
      (immediate : Bool) (now : ℕ) (v : View std) → IsClamped (after_filter_change immediate now v)
  unfolding after_filter_change
  after_filter_change-IsClamped immediate now v =
      let w = refreshed v.tab immediate now v in
      let sel = clamp_selection (table_of w.tab w).selected (item_count w) in
      rw (selected-placed sel 0 w)
        (rw (item_count-placed sel 0 w) (clamp_bound (table_of w.tab w).selected (item_count w)))

  -- However short a filter makes the list of the active tab, the cursor does not stay below its last
  -- row: neither while the filter is typed or popped nor when it is set or cleared at once.
  pub filters-IsClamped :
      (text : Text) (now : ℕ) (v : View std)
      → IsClamped (after_filter_change false now (write_filter text v))
        × (IsClamped (set_filter text now v) × IsClamped (clear_filter now v))
  unfolding set_filter clear_filter
  filters-IsClamped text now v = (
    after_filter_change-IsClamped false now (write_filter text v),
    (
      after_filter_change-IsClamped true now (write_filter text v),
      after_filter_change-IsClamped true now (write_filter [] v),
    ),
  )
