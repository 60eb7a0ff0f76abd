-- ===== src/Tui/Keymap.antt =====
-- The keymap (crates/muxtop-tui/src/keymap.rs): one table of bindings, and what looks keys up in it.
-- A key code that the program never names is `unbound`; the flags of crossterm's key modifiers are
-- Booleans. The rows of the table are in `Bindings`.
pub mod Keys
pub mod Bindings
pub mod Table
pub mod Hints
pub mod Examples
use Prim.Native.String.{String}
use mathlib.Core.Bool.{decide}
use muxtop.Base.{
  ℕ, ◌≡◌, Bool, true, false, not, ◌&&◌, ◌||◌, Option, none, some, List, [], ◌∷◌, ◌++◌, map,
  if◌then◌else◌, filter_by,
}
use muxtop.Tui.Tabs.{Tab}
use Keys.{
  KeyCode, KeyModifiers, Action, Scope, Group, Binding, KeyCode-discrete, KeyModifiers-discrete,
  normalise, scope_matches, is_local_only, Action-discrete, Scope-discrete,
}
use Bindings.{bindings}

-- `bindings.iter().find(...).map(|b| b.action)`
unfoldable pub find_action : List Binding → KeyCode → KeyModifiers → Tab → Option Action
find_action [] code mods tab = none
find_action (b ∷ bs) code mods tab =
    let rest = find_action bs code mods tab in
    if decide (KeyCode-discrete b.code code)
      && decide (KeyModifiers-discrete b.mods mods)
      && scope_matches b.scope tab
    then some b.action
    else rest

unfoldable pub resolve : KeyCode → KeyModifiers → Tab → Option Action
unfolding find_action
resolve code mods tab = find_action bindings code (normalise code mods) tab

-- Bindings that apply on `tab`.
unfoldable pub for_tab : Tab → List Binding
for_tab tab = filter_by (λ b. scope_matches b.scope tab) bindings

abbrev pub is_tab_scope : Scope → Tab → Bool
is_tab_scope Scope.global tab = false
is_tab_scope (Scope.on_tab t) tab = scope_matches (Scope.on_tab t) tab

abbrev pub is_global : Scope → Bool
is_global Scope.global = true
is_global (Scope.on_tab t) = false

-- One pass of `hints` over the bindings that a test selects.
unfoldable pub hint_rows : Bool → List Binding → List (String × String)
hint_rows remote [] = []
hint_rows remote (b ∷ bs) =
    let rest = hint_rows remote bs in
    if remote && is_local_only b.action then rest else (b.display, b.label) ∷ rest

unfoldable pub hints : Tab → Bool → List (String × String)
unfolding hint_rows
hints tab remote =
    hint_rows remote (filter_by (λ b. b.hint && is_tab_scope b.scope tab) bindings)
    ++ hint_rows remote (filter_by (λ b. b.hint && (is_global b.scope && b.primary)) bindings)
