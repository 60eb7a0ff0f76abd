-- ===== src/Tui/App/Safety/Keys.antt =====
-- What a key can do to processes and containers (crates/muxtop-tui/src/app.rs).
use muxtop.Base.{
  ℕ, ◌≡◌, refl, ap, ◌∙◌, false, ◌&&◌, Option, none, some, get_elem?, if_ind, first_arm_ind, arith,
  length, ltb, inl, inr, Bool-cases, sym,
}
use muxtop.Tui.Sanitize.{bytes}
use muxtop.Tui.Keymap.{resolve}
use muxtop.Tui.Keymap.Keys.{Action, KeyCode, KeyModifiers}
use muxtop.Tui.App.Commands.{Command}
use muxtop.Tui.App.Host.{Host, Overlay}
use muxtop.Tui.App.Edit.{filter_editing, filter_text}
use muxtop.Tui.App.State.{AppState, mark_dirty, quit}
use muxtop.Tui.App.Overlays.{close_overlay}
use muxtop.Tui.App.Dispatch.{tab_actions, refilter_palette}
use muxtop.Tui.App.Palette.{remember}
use muxtop.Tui.App.Input.{
  KeyEvent, is_ctrl_c, accepts, is_pending, handle_confirm_key, confirm_arms, scroll_arms,
  handle_scrollable_overlay_key, actions_arms, handle_actions_key, chosen, filter_arms,
  handle_filter_key, typed_filter, palette_arms, handle_palette_key, run_row, typed_palette,
  on_palette, without_overlay, resolved, on_overlay, handle_key_event, expired, max_filter_len,
}
use muxtop.Tui.App.Safety.{Keeps, Spares, kept, effects, effects_of}
use muxtop.Tui.App.Safety.Actions.{copy_selection-kept, dispatch-effects}
use muxtop.Tui.App.Safety.Commands.{execute_invocation-effects}

module _ {host : Host} where
  pub handle_scrollable_overlay_key-kept :
      (key : KeyEvent) (s : AppState host) → kept (handle_scrollable_overlay_key key s) ≡ kept s
  unfolding handle_scrollable_overlay_key scroll_arms close_overlay
  handle_scrollable_overlay_key-kept key s =
      first_arm_ind (Keeps s) (scroll_arms key s) s
        (
          λ e. refl,
          (
            λ e. refl,
            (
              λ e. refl,
              (
                λ e. refl,
                (
                  λ e. refl,
                  (
                    λ e. refl,
                    (λ e. refl, (λ e. refl, (λ e. refl, (λ e. copy_selection-kept s, tt)))),
                  ),
                ),
              ),
            ),
          ),
        )
        refl

  typed_filter-kept :
      (code : KeyCode) (mods : KeyModifiers) (s : AppState host)
      → kept (typed_filter code mods s) ≡ kept s
  typed_filter-kept (KeyCode.char c) mods s =
      if_ind (Keeps s) mods.control refl
        (if_ind (Keeps s) (ltb (length (bytes (filter_text s.view))) max_filter_len) refl refl)
  typed_filter-kept code mods s = refl

  pub handle_filter_key-kept :
      (key : KeyEvent) (s : AppState host) → kept (handle_filter_key key s) ≡ kept s
  unfolding handle_filter_key filter_arms
  handle_filter_key-kept key s =
      first_arm_ind (Keeps s) (filter_arms key s) (typed_filter key.code key.modifiers s)
        (λ e. refl, (λ e. refl, (λ e. refl, tt))) (typed_filter-kept key.code key.modifiers s)

  chosen-effects :
      (row : Option (_ × (_ × Action))) (s : AppState host) → effects (chosen row s) ≡ effects s
  unfolding close_overlay
  chosen-effects none s = refl
  chosen-effects (some (display, (label, action))) s = dispatch-effects action (close_overlay s)

  handle_actions_key-effects :
      (key : KeyEvent) (s : AppState host) → effects (handle_actions_key key s) ≡ effects s
  unfolding handle_actions_key actions_arms close_overlay
  handle_actions_key-effects key s =
      first_arm_ind (Spares s) (actions_arms key s) s
        (
          λ e. refl,
          (
            λ e. refl,
            (λ e. refl, (λ e. chosen-effects (get_elem? (tab_actions s) s.actions_selected) s, tt)),
          ),
        )
        refl

  run_row-effects :
      (row : Option (Command × Option ℕ)) (s : AppState host) → effects (run_row row s) ≡ effects s
  unfolding close_overlay
  run_row-effects none s = refl
  run_row-effects (some (cmd, score)) s =
      execute_invocation-effects cmd s.palette.arg (close_overlay (on_palette (remember cmd) s))

  typed_palette-effects :
      (code : KeyCode) (s : AppState host) → effects (typed_palette code s) ≡ effects s
  unfolding refilter_palette
  typed_palette-effects (KeyCode.char c) s =
      if_ind (Spares s) (ltb (length (bytes s.palette.input)) max_filter_len) refl refl
  typed_palette-effects code s = refl

  handle_palette_key-effects :
      (key : KeyEvent) (s : AppState host) → effects (handle_palette_key key s) ≡ effects s
  unfolding handle_palette_key palette_arms close_overlay refilter_palette
  handle_palette_key-effects key s =
      first_arm_ind (Spares s) (palette_arms key s) (typed_palette key.code s)
        (
          λ e. refl,
          (
            λ e. refl,
            (
              λ e. refl,
              (
                λ e. run_row-effects (get_elem? s.palette.filtered s.palette.selected) s,
                (λ e. refl, (λ e. refl, (λ e. refl, tt))),
              ),
            ),
          ),
        )
        (typed_palette-effects key.code s)

  resolved-effects :
      (action : Option Action) (s : AppState host) → effects (resolved action s) ≡ effects s
  resolved-effects none s = refl
  resolved-effects (some action) s = dispatch-effects action s

  without_overlay-effects :
      (key : KeyEvent) (s : AppState host) → effects (without_overlay key s) ≡ effects s
  unfolding mark_dirty
  without_overlay-effects key s =
      if_ind (Spares s) (filter_editing s.view)
        (ap (effects_of host) (handle_filter_key-kept key s))
        (resolved-effects (resolve key.code key.modifiers s.view.tab) s)

  on_overlay-effects :
      (overlay : Overlay) (key : KeyEvent) (s : AppState host)
      → effects (on_overlay overlay key s) ≡ effects s
  on_overlay-effects Overlay.palette key s = handle_palette_key-effects key s
  on_overlay-effects Overlay.command key s = handle_palette_key-effects key s
  on_overlay-effects Overlay.help key s =
      ap (effects_of host) (handle_scrollable_overlay_key-kept key s)
  on_overlay-effects Overlay.log key s =
      ap (effects_of host) (handle_scrollable_overlay_key-kept key s)
  on_overlay-effects Overlay.inspector key s =
      ap (effects_of host) (handle_scrollable_overlay_key-kept key s)
  on_overlay-effects Overlay.actions key s = handle_actions_key-effects key s
  on_overlay-effects Overlay.no_overlay key s = without_overlay-effects key s

  refused-effects :
      (key : KeyEvent) (s : AppState host)
      → accepts key.code ≡ false
      → effects (handle_confirm_key key s) ≡ effects s
  unfolding handle_confirm_key confirm_arms
  refused-effects key s h =
      first_arm_ind (Spares s) (confirm_arms key s) s (λ e. absurd (ground arith), (λ e. refl, tt))
        refl

  -- A key that is pressed while no confirmation is open, or that is none of y, Y and Enter, signals
  -- no process, changes no priority and starts no task on a container, whatever the state.
  pub handle_key_event-effects :
      (key : KeyEvent) (s : AppState host)
      → is_pending s.confirm && accepts key.code ≡ false
      → effects (handle_key_event key s) ≡ effects s
  unfolding handle_key_event quit
  handle_key_event-effects key s h =
      if_ind (Spares s) (is_ctrl_c key) refl (elim (Bool-cases (is_pending s.confirm)) [
        | inl e ↦
            rw e (refused-effects key (expired s) (sym (ap (λ b. b && accepts key.code) e) ∙ h))
        | inr e ↦ rw e (on_overlay-effects s.overlay key (expired s))
      ])
