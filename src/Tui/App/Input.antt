-- ===== src/Tui/App/Input.antt =====
-- Keys and the wheel, routed to what owns them (crates/muxtop-tui/src/app.rs).
use Prim.Native.String.{String}
use mathlib.Core.Bool.{decide}
use muxtop.Base.{
  ℕ, ◌+◌, ◌-◌, Bool, true, false, not, ◌&&◌, ◌||◌, Option, none, some, List, [], ◌∷◌, ◌++◌, ltb,
  length, get_elem?, if◌then◌else◌, first_arm,
}
use muxtop.Base.Int.{pos, negsuc}
use muxtop.Core.Process.{Text}
use muxtop.Tui.Sanitize.{bytes}
use muxtop.Tui.Keymap.{resolve}
use muxtop.Tui.Keymap.Keys.{Action, KeyCode, KeyModifiers, KeyCode-discrete}
use muxtop.Tui.Notify as Notify
use muxtop.Tui.App.Commands.{Command}
use muxtop.Tui.App.Host.{Host, Overlay, ConfirmAction}
use muxtop.Tui.App.View.{clamp_selection, scroll_rows}
use muxtop.Tui.App.Edit.{
  filter_editing, filter_text, set_filter_editing, write_filter, after_filter_change,
}
use muxtop.Tui.App.Palette.{PaletteState, remember}
use muxtop.Tui.App.State.{AppState, quit, mark_dirty, on_view}
use muxtop.Tui.App.Requests.{execute_confirm}
use muxtop.Tui.App.Overlays.{close_overlay, copy_selection}
use muxtop.Tui.App.Dispatch.{dispatch, tab_actions, refilter_palette, is_no_overlay, page}
use muxtop.Tui.App.Invoke.{execute_invocation}

pub record KeyEvent : Type 0 where
  pub code : KeyCode
  pub modifiers : KeyModifiers

-- The kinds of mouse event that the program tells apart.
pub data MouseEventKind : Type 0 where
  scroll_down scroll_up other : MouseEventKind

abbrev pub max_filter_len : ℕ
max_filter_len = 256

abbrev pub wheel_rows : ℕ
wheel_rows = 3

abbrev pub is : KeyCode → KeyCode → Bool
is a b = decide (KeyCode-discrete a b)

abbrev pub is_ctrl_c : KeyEvent → Bool
is_ctrl_c key = is key.code (KeyCode.char b'c') && key.modifiers.control

-- The keys that a confirmation takes for a yes, and for a no.
abbrev pub accepts : KeyCode → Bool
accepts code = is code (KeyCode.char b'y') || (is code (KeyCode.char b'Y') || is code KeyCode.enter)

abbrev pub refuses : KeyCode → Bool
refuses code = is code (KeyCode.char b'n') || (is code (KeyCode.char b'N') || is code KeyCode.esc)

abbrev pub is_help : Overlay → Bool
is_help Overlay.help = true
is_help _ = false

abbrev pub is_inspector : Overlay → Bool
is_inspector Overlay.inspector = true
is_inspector _ = false

-- `String::pop`.
abbrev pub pop : Text → Text
pop [] = []
pop (c ∷ []) = []
pop (c ∷ d ∷ cs) = c ∷ pop (d ∷ cs)

abbrev pub is_char : KeyCode → Bool
is_char (KeyCode.char c) = true
is_char _ = false

abbrev pub is_pending : Option ConfirmAction → Bool
is_pending none = false
is_pending (some action) = true

-- The arms of each handler's `match` are a list, in their order.
module _ {host : Host} where
  open host use {std}

  abbrev pub answered : Option ConfirmAction → AppState host → AppState host
  answered none s = s
  answered (some action) s = execute_confirm action (record s { confirm = none })

  unfoldable pub confirm_arms : KeyEvent → AppState host → List (Bool × AppState host)
  unfolding execute_confirm
  confirm_arms key s =
      (accepts key.code, answered s.confirm s)
      ∷ (refuses key.code, record s { confirm = none })
      ∷ []

  unfoldable pub handle_confirm_key : KeyEvent → AppState host → AppState host
  unfolding mark_dirty confirm_arms
  handle_confirm_key key s = mark_dirty (first_arm (confirm_arms key s) s)

  abbrev scroll_to : ℕ → AppState host → AppState host
  scroll_to n s = record s { overlay_scroll = n }

  unfoldable pub scroll_arms : KeyEvent → AppState host → List (Bool × AppState host)
  unfolding close_overlay copy_selection
  scroll_arms key s =
      (is key.code KeyCode.esc || is key.code (KeyCode.char b'q'), close_overlay s)
      ∷ (is key.code (KeyCode.char b'?') && is_help s.overlay, close_overlay s)
      ∷ (is key.code KeyCode.enter && is_inspector s.overlay, close_overlay s)
      ∷ (is key.code (KeyCode.char b'l') && key.modifiers.control, close_overlay s)
      ∷ (
        is key.code KeyCode.down || is key.code (KeyCode.char b'j'),
        scroll_to (s.overlay_scroll + 1) s,
      )
      ∷ (
        is key.code KeyCode.up || is key.code (KeyCode.char b'k'),
        scroll_to (s.overlay_scroll - 1) s,
      )
      ∷ (is key.code KeyCode.page_down, scroll_to (s.overlay_scroll + page) s)
      ∷ (is key.code KeyCode.page_up, scroll_to (s.overlay_scroll - page) s)
      ∷ (is key.code KeyCode.home || is key.code (KeyCode.char b'g'), scroll_to 0 s)
      ∷ (is key.code (KeyCode.char b'y') && is_inspector s.overlay, copy_selection s)
      ∷ []

  unfoldable pub handle_scrollable_overlay_key : KeyEvent → AppState host → AppState host
  unfolding mark_dirty scroll_arms
  handle_scrollable_overlay_key key s = mark_dirty (first_arm (scroll_arms key s) s)

  abbrev pub chosen : Option (String × (String × Action)) → AppState host → AppState host
  chosen none s = s
  chosen (some (display, (label, action))) s = dispatch action (close_overlay s)

  unfoldable pub actions_arms : KeyEvent → AppState host → List (Bool × AppState host)
  unfolding tab_actions clamp_selection close_overlay dispatch
  actions_arms key s =
      (is key.code KeyCode.esc || is key.code (KeyCode.char b'x'), close_overlay s)
      ∷ (
        is key.code KeyCode.down || is key.code (KeyCode.char b'j'),
        record s {
          actions_selected = clamp_selection (s.actions_selected + 1) (length (tab_actions s));
        },
      )
      ∷ (
        is key.code KeyCode.up || is key.code (KeyCode.char b'k'),
        record s { actions_selected = s.actions_selected - 1 },
      )
      ∷ (is key.code KeyCode.enter, chosen (get_elem? (tab_actions s) s.actions_selected) s)
      ∷ []

  unfoldable pub handle_actions_key : KeyEvent → AppState host → AppState host
  unfolding mark_dirty actions_arms
  handle_actions_key key s = mark_dirty (first_arm (actions_arms key s) s)

  abbrev pub typed_filter : KeyCode → KeyModifiers → AppState host → AppState host
  typed_filter (KeyCode.char c) mods s =
      if mods.control
      then s
      else if ltb (length (bytes (filter_text s.view))) max_filter_len
      then on_view
          (λ v. after_filter_change false s.clock (write_filter (filter_text v ++ (c ∷ [])) v)) s
      else s
  typed_filter _ mods s = s

  unfoldable pub filter_arms : KeyEvent → AppState host → List (Bool × AppState host)
  unfolding filter_text set_filter_editing after_filter_change
  filter_arms key s =
      (is key.code KeyCode.esc, on_view (set_filter_editing false) s)
      ∷ (
        is key.code KeyCode.enter,
        on_view (λ v. after_filter_change true s.clock (set_filter_editing false v)) s,
      )
      ∷ (
        is key.code KeyCode.backspace,
        on_view (λ v. after_filter_change false s.clock (write_filter (pop (filter_text v)) v)) s,
      )
      ∷ []

  unfoldable pub handle_filter_key : KeyEvent → AppState host → AppState host
  unfolding mark_dirty filter_arms
  handle_filter_key key s =
      mark_dirty (first_arm (filter_arms key s) (typed_filter key.code key.modifiers s))

  abbrev pub on_palette : (PaletteState → PaletteState) → AppState host → AppState host
  on_palette f s = record s { palette = f s.palette }

  abbrev pub run_row : Option (Command × Option ℕ) → AppState host → AppState host
  run_row none s = s
  run_row (some (cmd, score)) s =
      execute_invocation cmd s.palette.arg (close_overlay (on_palette (remember cmd) s))

  abbrev pub typed_palette : KeyCode → AppState host → AppState host
  typed_palette (KeyCode.char c) s =
      if ltb (length (bytes s.palette.input)) max_filter_len
      then refilter_palette (on_palette (λ p. record p { input = p.input ++ (c ∷ []) }) s)
      else s
  typed_palette _ s = s

  unfoldable pub palette_arms : KeyEvent → AppState host → List (Bool × AppState host)
  unfolding close_overlay remember execute_invocation clamp_selection refilter_palette
  palette_arms key s =
      (is key.code KeyCode.esc, close_overlay s)
      ∷ (
        (is key.code (KeyCode.char b'p') || is key.code (KeyCode.char b'k'))
            && key.modifiers.control,
        close_overlay s,
      )
      ∷ (is_char key.code && key.modifiers.control, s)
      ∷ (is key.code KeyCode.enter, run_row (get_elem? s.palette.filtered s.palette.selected) s)
      ∷ (
        is key.code KeyCode.down,
        on_palette
            (λ p. record p { selected = clamp_selection (p.selected + 1) (length p.filtered) }) s,
      )
      ∷ (is key.code KeyCode.up, on_palette (λ p. record p { selected = p.selected - 1 }) s)
      ∷ (
        is key.code KeyCode.backspace,
        refilter_palette (on_palette (λ p. record p { input = pop p.input }) s),
      )
      ∷ []

  unfoldable pub handle_palette_key : KeyEvent → AppState host → AppState host
  unfolding mark_dirty palette_arms
  handle_palette_key key s = mark_dirty (first_arm (palette_arms key s) (typed_palette key.code s))

  abbrev pub resolved : Option Action → AppState host → AppState host
  resolved none s = s
  resolved (some action) s = dispatch action s

  abbrev pub without_overlay : KeyEvent → AppState host → AppState host
  without_overlay key s =
      if filter_editing s.view
      then handle_filter_key key s
      else mark_dirty (resolved (resolve key.code key.modifiers s.view.tab) s)

  abbrev pub on_overlay : Overlay → KeyEvent → AppState host → AppState host
  on_overlay Overlay.palette key s = handle_palette_key key s
  on_overlay Overlay.command key s = handle_palette_key key s
  on_overlay Overlay.help key s = handle_scrollable_overlay_key key s
  on_overlay Overlay.log key s = handle_scrollable_overlay_key key s
  on_overlay Overlay.inspector key s = handle_scrollable_overlay_key key s
  on_overlay Overlay.actions key s = handle_actions_key key s
  on_overlay Overlay.no_overlay key s = without_overlay key s

  abbrev pub expired : AppState host → AppState host
  expired s =
      let (any, notifier) = Notify.expire s.clock s.notifier in record s { notifier = notifier }

  unfoldable pub handle_key_event : KeyEvent → AppState host → AppState host
  unfolding Notify.expire quit handle_confirm_key handle_palette_key handle_scrollable_overlay_key
      handle_actions_key filter_editing handle_filter_key resolve dispatch mark_dirty
  handle_key_event key s0 =
      let s = expired s0 in
      if is_ctrl_c key
      then quit s
      else if is_pending s.confirm
      then handle_confirm_key key s
      else on_overlay s.overlay key s

  abbrev pub wheel_on_overlay : MouseEventKind → AppState host → AppState host
  wheel_on_overlay MouseEventKind.scroll_down s =
      mark_dirty (scroll_to (s.overlay_scroll + wheel_rows) s)
  wheel_on_overlay MouseEventKind.scroll_up s =
      mark_dirty (scroll_to (s.overlay_scroll - wheel_rows) s)
  wheel_on_overlay MouseEventKind.other s = s

  abbrev pub wheel_on_table : MouseEventKind → AppState host → AppState host
  wheel_on_table MouseEventKind.scroll_down s =
      mark_dirty (on_view (scroll_rows (pos wheel_rows)) s)
  wheel_on_table MouseEventKind.scroll_up s = mark_dirty (on_view (scroll_rows (negsuc 2)) s)
  wheel_on_table MouseEventKind.other s = s

  unfoldable pub handle_mouse_event : MouseEventKind → AppState host → AppState host
  unfolding mark_dirty scroll_rows
  handle_mouse_event kind s =
      if not (is_no_overlay s.overlay) then wheel_on_overlay kind s else wheel_on_table kind s
