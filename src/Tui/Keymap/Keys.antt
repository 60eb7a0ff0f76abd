-- ===== src/Tui/Keymap/Keys.antt =====
-- Key codes, modifiers, actions and bindings (crates/muxtop-tui/src/keymap.rs). `KeyCode` and
-- `KeyModifiers` are crossterm's, by the variants and flags that the program can meet.
use Prim.Native.String.{String}
use native.Mathlib.Decide.{ℕ_discrete}
use mathlib.Core.Bool.{decide}
use muxtop.Base.{ℕ, Bool, true, false, not, ◌&&◌}
use muxtop.Base.Int.{ℤ}
use muxtop.Core.Actions.{Signal}
use muxtop.Tui.Tabs.{Tab, KubeSubview, GpuSubview, Tab-discrete}

pub data KeyCode : Type 0 where
  char f : ℕ → KeyCode
  tab back_tab enter esc backspace up down left right home end page_up page_down : KeyCode
  unbound : ℕ → KeyCode

pub record KeyModifiers : Type 0 where
  pub shift : Bool
  pub control : Bool
  pub alt : Bool
  pub super : Bool
  pub hyper : Bool
  pub meta : Bool

abbrev pub no_mods : KeyModifiers
no_mods = record {
  shift = false;
  control = false;
  alt = false;
  super = false;
  hyper = false;
  meta = false;
}

abbrev pub shift_only : KeyModifiers
shift_only = record no_mods { shift = true }

abbrev pub ctrl : KeyModifiers
ctrl = record no_mods { control = true }

abbrev pub alt : KeyModifiers
alt = record no_mods { alt = true }

-- Everything the user can ask muxtop to do.
pub data Action : Type 0 where
  quit help palette command_mode toggle_pause refresh toggle_log : Action
  next_tab prev_tab : Action
  go_tab : Tab → Action
  next_subview prev_subview : Action
  row_down row_up row_page_down row_page_up row_half_down row_half_up row_first row_last : Action
  col_left col_right open_inspector actions_menu copy_selection : Action
  open_filter back cycle_sort reverse_sort : Action
  toggle_tree : Action
  renice : ℤ → Action
  kill : Signal → Action
  container_stop container_kill container_restart : Action
  kube_subview : KubeSubview → Action
  toggle_kube_scope : Action
  gpu_subview : GpuSubview → Action

unfoldable pub is_local_only : Action → Bool
is_local_only (renice d) = true
is_local_only (kill s) = true
is_local_only container_stop = true
is_local_only container_kill = true
is_local_only container_restart = true
is_local_only toggle_kube_scope = true
is_local_only a = false

pub data Scope : Type 0 where
  global : Scope
  on_tab : Tab → Scope

unfoldable pub scope_matches : Scope → Tab → Bool
unfolding Tab-discrete
scope_matches global t = true
scope_matches (on_tab s) t = decide (Tab-discrete s t)

pub data Group : Type 0 where
  navigation table sort_filter actions app : Group

pub record Binding : Type 0 where
  pub code : KeyCode
  pub mods : KeyModifiers
  pub action : Action
  pub scope : Scope
  pub group : Group
  pub display : String
  pub label : String
  pub hint : Bool
  pub primary : Bool

-- The macro `b!`.
abbrev pub binding :
    KeyCode → KeyModifiers → Action → Scope → Group → String → String → Bool → Bool → Binding
binding code mods action scope group display label hint primary = record {
  code = code;
  mods = mods;
  action = action;
  scope = scope;
  group = group;
  display = display;
  label = label;
  hint = hint;
  primary = primary;
}

unfoldable pub KeyCode-discrete : Discrete KeyCode
unfolding ℕ_discrete
KeyCode-discrete = hlevel ℕ_discrete

unfoldable pub KeyModifiers-discrete : Discrete KeyModifiers
KeyModifiers-discrete = hlevel

unfoldable pub ℤ-discrete : Discrete ℤ
unfolding ℕ_discrete
ℤ-discrete = hlevel ℕ_discrete

unfoldable pub Signal-discrete : Discrete Signal
Signal-discrete = hlevel

unfoldable pub Scope-discrete : Discrete Scope
Scope-discrete = hlevel

unfoldable pub Action-discrete : Discrete Action
unfolding ℤ-discrete
Action-discrete = hlevel ℤ-discrete

-- `KeyModifiers::remove` and `KeyModifiers::intersection`.
abbrev remove : KeyModifiers → KeyModifiers → KeyModifiers
remove m n = record {
  shift = m.shift && not n.shift;
  control = m.control && not n.control;
  alt = m.alt && not n.alt;
  super = m.super && not n.super;
  hyper = m.hyper && not n.hyper;
  meta = m.meta && not n.meta;
}

abbrev intersection : KeyModifiers → KeyModifiers → KeyModifiers
intersection m n = record {
  shift = m.shift && n.shift;
  control = m.control && n.control;
  alt = m.alt && n.alt;
  super = m.super && n.super;
  hyper = m.hyper && n.hyper;
  meta = m.meta && n.meta;
}

-- `SHIFT` is dropped for character keys.
abbrev without_shift : KeyCode → KeyModifiers → KeyModifiers
without_shift (char c) mods = remove mods shift_only
without_shift code mods = mods

unfoldable pub normalise : KeyCode → KeyModifiers → KeyModifiers
normalise code mods =
    intersection (without_shift code mods) (record no_mods { control = true; alt = true })
