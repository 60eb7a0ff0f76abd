-- ===== src/Tui/App/View/Selection.antt =====
-- The selected row stays on the table (crates/muxtop-tui/src/app.rs).
use muxtop.Base.{ℕ, ◌-◌, ◌<◌, ◌≡◌, refl, ap, ◌∙◌, false, min, max, ◌==◌, arith}
use muxtop.Base.Int.{ℤ, pos, negsuc}
use muxtop.Core.Std.{Std}
use muxtop.Tui.Tabs.{Tab}
use muxtop.Tui.App.View.{
  Table, View, table_of, set_table, count_on, item_count, moved, move_selection, select_index,
  scrolled, scroll_rows, process_count, net_interface_count, containers_count, kube_count,
  gpu_count,
}

moved_bound : (delta : ℤ) (sel count : ℕ) → 0 < count → moved delta sel count < count
moved_bound (pos n) sel count h = omega arith
moved_bound (negsuc n) sel count h = omega arith

module _ {std : Std} where
  tab-set_table : (tab : Tab) (t : Table) (v : View std) → (set_table tab t v).tab ≡ v.tab
  tab-set_table Tab.general t v = refl
  tab-set_table tab t v = refl

  table_of-set_table : (tab : Tab) (t : Table) (v : View std) → table_of tab (set_table tab t v) ≡ t
  table_of-set_table Tab.general t v = refl
  table_of-set_table tab t v = refl

  -- The count of rows reads the filter of a table and not where its cursor is.
  count_on-set_table :
      (tab on : Tab) (sel off : ℕ) (v : View std)
      → count_on on
          (set_table tab (record (table_of tab v) { selected = sel; scroll_offset = off }) v)
        ≡ count_on on v
  unfolding process_count net_interface_count containers_count kube_count gpu_count
  count_on-set_table Tab.general Tab.general sel off v = refl
  count_on-set_table tab Tab.general sel off v = refl
  count_on-set_table Tab.general on sel off v = refl
  count_on-set_table tab on sel off v = refl

  -- The selected row of the active table is one of its rows, of which there are as many as before.
  abbrev pub LandsOn : View std → View std → Type 0
  LandsOn v w = ((table_of w.tab w).selected < item_count w) × (item_count w ≡ item_count v)

  abbrev pub placed : ℕ → ℕ → View std → View std
  placed sel off v =
      set_table v.tab (record (table_of v.tab v) { selected = sel; scroll_offset = off }) v

  pub item_count-placed :
      (sel off : ℕ) (v : View std) → item_count (placed sel off v) ≡ item_count v
  unfolding item_count
  item_count-placed sel off v =
      ap (λ tab. count_on tab (placed sel off v)) (tab-set_table v.tab _ v)
      ∙ count_on-set_table v.tab v.tab sel off v

  pub selected-placed :
      (sel off : ℕ) (v : View std)
      → (table_of (placed sel off v).tab (placed sel off v)).selected ≡ sel
  selected-placed sel off v =
      ap (λ tab. (table_of tab (placed sel off v)).selected) (tab-set_table v.tab _ v)
      ∙ ap (λ (t : Table). t.selected) (table_of-set_table v.tab _ v)

  placed-LandsOn : (sel off : ℕ) (v : View std) → sel < item_count v → LandsOn v (placed sel off v)
  placed-LandsOn sel off v h = (
    rw (selected-placed sel off v) (rw (item_count-placed sel off v) h),
    item_count-placed sel off v,
  )

  -- From any selection, on a table that has a row: a move by any number of rows, the choice of any
  -- index and the wheel all land on a row, and leave the number of rows.
  pub rows-LandsOn :
      (delta : ℤ) (index : ℕ) (v : View std)
      → 0 < item_count v
      → LandsOn v (move_selection delta v)
        × (LandsOn v (select_index index v) × LandsOn v (scroll_rows delta v))
  unfolding move_selection select_index scroll_rows
  rows-LandsOn delta index v h =
      let t = table_of v.tab v in
      let count = item_count v in
      let some_row : count == 0 ≡ false = ground arith in
      rw some_row (
        placed-LandsOn (moved delta t.selected count) t.scroll_offset v
            (moved_bound delta t.selected count h),
        (
          placed-LandsOn (min index (count - 1)) t.scroll_offset v (omega arith),
          placed-LandsOn (min (max t.selected (scrolled delta t.scroll_offset count)) (count - 1))
              (scrolled delta t.scroll_offset count) v (omega arith),
        ),
      )
