-- ===== src/Tui/App/Safety/Remote.antt =====
-- A viewer of a remote host (crates/muxtop-tui/src/app.rs).
use Prim.Native.String.{String}
use muxtop.Base.{
  ℕ, ◌≡◌, refl, ap, sym, subst, Bool, true, false, not, ◌&&◌, ◌||◌, Option, none, some, [], ◌∷◌,
  ◌++◌, get_elem?, if_ind, first_arm_ind, arith, length, ltb, inl, inr, Bool-cases, Option-cases,
}
use muxtop.Base.Perms.{all_by, all_by_mono, all_by-get_elem?}
use muxtop.Tui.Tabs.{Tab}
use muxtop.Tui.Sanitize.{bytes}
use muxtop.Tui.Keymap.{resolve}
use muxtop.Tui.Keymap.Keys.{Action, KeyCode, is_local_only}
use muxtop.Tui.App.Commands.{Command, is_some}
use muxtop.Tui.App.Host.{Host, Overlay}
use muxtop.Tui.App.Edit.{filter_editing}
use muxtop.Tui.App.State.{AppState, is_remote, is_remote_mode, mark_dirty, quit}
use muxtop.Tui.App.Overlays.{close_overlay}
use muxtop.Tui.App.Dispatch.{
  dispatch, perform, tab_actions, refilter_palette, excluded_commands, remote_blocked_commands,
  open_palette, open_command_line,
}
use muxtop.Tui.App.Palette.{PaletteState, remember, same, refilter_ctx}
use muxtop.Tui.App.Palette.Offers.{row_allowed, refilter_ctx-allowed}
use muxtop.Tui.App.Input.{
  KeyEvent, is_ctrl_c, is_pending, actions_arms, handle_actions_key, chosen, palette_arms,
  handle_palette_key, handle_filter_key, handle_scrollable_overlay_key, run_row, typed_palette,
  on_palette, pop, without_overlay, resolved, on_overlay, handle_key_event, expired, max_filter_len,
}
use muxtop.Tui.App.Safety.{Kept, kept}
use muxtop.Tui.App.Safety.Actions.{perform-kept}
use muxtop.Tui.App.Safety.Commands.{execute_invocation-kept}
use muxtop.Tui.App.Safety.Keys.{handle_scrollable_overlay_key-kept, handle_filter_key-kept}

-- The verb `kill` is the one command that opens a confirmation without asking for the mode.
abbrev is_safe_row : Command × Option ℕ → Bool
is_safe_row (c, score) = not (same Command.kill_named c)

-- The program is connected to a remote host, no confirmation is open, and the palette does not offer
-- the verb `kill`.
abbrev IsViewerOf : (host : Host) → Kept host → Type 0
IsViewerOf host (os, (tasks, (confirm, (mode, filtered)))) =
    (is_remote_mode mode ≡ true) × ((confirm ≡ none) × (all_by is_safe_row filtered ≡ true))

safe_and : (a b k rest x : Bool) → not (a || (b || (k || rest))) && x ≡ true → not k ≡ true
safe_and a b k rest x h = ground arith

row_safe :
    (has_arg : Bool) (row : Command × Option ℕ)
    → row_allowed remote_blocked_commands has_arg row ≡ true
    → is_safe_row row ≡ true
row_safe has_arg (c, score) h =
    safe_and (same Command.kill_process c) (same Command.force_kill_process c)
      (same Command.kill_named c) _ _ h

refilter-safe :
    (host : Host) (tab : Option Tab) (p : PaletteState)
    → all_by is_safe_row (refilter_ctx host remote_blocked_commands tab p).filtered ≡ true
refilter-safe host tab p =
    let q = refilter_ctx host remote_blocked_commands tab p in
    all_by_mono (row_allowed remote_blocked_commands (is_some q.arg)) is_safe_row q.filtered
      (row_safe (is_some q.arg)) (refilter_ctx-allowed host remote_blocked_commands tab p)

module _ {host : Host} where
  abbrev pub IsViewer : AppState host → Type 0
  IsViewer s = IsViewerOf host (kept s)

  -- The operating system and the tasks are as they were, and the program is still a viewer.
  abbrev pub Frozen : AppState host → AppState host → Type 0
  Frozen s t = ((t.os ≡ s.os) × (t.tasks ≡ s.tasks)) × IsViewer t

  pub kept-Frozen : (s t : AppState host) → IsViewer s → kept t ≡ kept s → Frozen s t
  kept-Frozen s t v e = (
    (ap (λ (k : Kept host). k.0) e, ap (λ (k : Kept host). k.1.0) e),
    subst (IsViewerOf host) (sym e) v,
  )

  refilter_palette-Frozen : (s : AppState host) → IsViewer s → Frozen s (refilter_palette s)
  unfolding refilter_palette excluded_commands is_remote
  refilter_palette-Frozen s (remote, (quiet, rows)) =
      ((refl, refl), (remote, (quiet, rw remote (refilter-safe host (some s.view.tab) s.palette))))

  same-Frozen : (s : AppState host) → IsViewer s → Frozen s s
  same-Frozen s v = kept-Frozen s s v refl

  perform-Frozen :
      (a : Action) (s : AppState host)
      → IsViewer s
      → is_local_only a ≡ false
      → Frozen s (perform a s)
  unfolding perform is_local_only open_palette open_command_line mark_dirty
  perform-Frozen Action.palette s v h =
      refilter_palette-Frozen
        (record s {
          overlay = Overlay.palette;
          palette = record s.palette { input = []; selected = 0 };
        })
        v
  perform-Frozen Action.command_mode s v h =
      refilter_palette-Frozen
        (record s {
          overlay = Overlay.command;
          palette = record s.palette { input = []; selected = 0 };
        })
        v
  perform-Frozen a s v h =
      kept-Frozen s (perform a s) v (perform-kept a s (ap (λ b. not b && true) h))

  pub dispatch-Frozen : (a : Action) (s : AppState host) → IsViewer s → Frozen s (dispatch a s)
  unfolding dispatch is_remote
  dispatch-Frozen a s v =
      let (remote, rest) = v in
      rw remote (elim (Bool-cases (is_local_only a)) [
        | inl e ↦ rw e (same-Frozen s v)
        | inr e ↦ rw e (perform-Frozen a s v e)
      ])

  chosen-Frozen :
      (row : Option (String × (String × Action))) (s : AppState host)
      → IsViewer s
      → Frozen s (chosen row s)
  unfolding close_overlay
  chosen-Frozen none s v = same-Frozen s v
  chosen-Frozen (some (display, (label, action))) s v = dispatch-Frozen action (close_overlay s) v

  handle_actions_key-Frozen :
      (key : KeyEvent) (s : AppState host) → IsViewer s → Frozen s (handle_actions_key key s)
  unfolding handle_actions_key actions_arms close_overlay
  handle_actions_key-Frozen key s v =
      let stay = same-Frozen s v in
      first_arm_ind (Frozen s) (actions_arms key s) s
        (
          λ e. stay,
          (
            λ e. stay,
            (
              λ e. stay,
              (λ e. chosen-Frozen (get_elem? (tab_actions s) s.actions_selected) s v, tt),
            ),
          ),
        )
        stay

  run_found-Frozen :
      (row : Command × Option ℕ) (s : AppState host)
      → IsViewer s
      → is_safe_row row ≡ true
      → Frozen s (run_row (some row) s)
  unfolding close_overlay is_remote remember
  run_found-Frozen (cmd, score) s v safe =
      let (remote, rest) = v in
      kept-Frozen s (run_row (some (cmd, score)) s) v (
        execute_invocation-kept cmd s.palette.arg (close_overlay (on_palette (remember cmd) s))
          remote safe)

  run_row-Frozen :
      (s : AppState host) (i : ℕ)
      → IsViewer s
      → Frozen s (run_row (get_elem? s.palette.filtered i) s)
  run_row-Frozen s i v = elim (Option-cases (get_elem? s.palette.filtered i)) [
    | inl e ↦ rw e (same-Frozen s v)
    | inr (row, e) ↦
        let (remote, (quiet, rows)) = v in
        rw e
          (run_found-Frozen row s v (all_by-get_elem? is_safe_row s.palette.filtered i row rows e))
  ]

  typed_palette-Frozen :
      (code : KeyCode) (s : AppState host) → IsViewer s → Frozen s (typed_palette code s)
  typed_palette-Frozen (KeyCode.char c) s v =
      if_ind (Frozen s) (ltb (length (bytes s.palette.input)) max_filter_len)
        (refilter_palette-Frozen (on_palette (λ p. record p { input = p.input ++ (c ∷ []) }) s) v)
        (same-Frozen s v)
  typed_palette-Frozen code s v = same-Frozen s v

  handle_palette_key-Frozen :
      (key : KeyEvent) (s : AppState host) → IsViewer s → Frozen s (handle_palette_key key s)
  unfolding handle_palette_key palette_arms close_overlay
  handle_palette_key-Frozen key s v =
      let stay = same-Frozen s v in
      first_arm_ind (Frozen s) (palette_arms key s) (typed_palette key.code s)
        (
          λ e. stay,
          (
            λ e. stay,
            (
              λ e. stay,
              (
                λ e. run_row-Frozen s s.palette.selected v,
                (
                  λ e. stay,
                  (
                    λ e. stay,
                    (
                      λ e.
                          refilter_palette-Frozen
                            (on_palette (λ p. record p { input = pop p.input }) s) v,
                      tt,
                    ),
                  ),
                ),
              ),
            ),
          ),
        )
        (typed_palette-Frozen key.code s v)

  resolved-Frozen :
      (action : Option Action) (s : AppState host) → IsViewer s → Frozen s (resolved action s)
  resolved-Frozen none s v = same-Frozen s v
  resolved-Frozen (some action) s v = dispatch-Frozen action s v

  without_overlay-Frozen :
      (key : KeyEvent) (s : AppState host) → IsViewer s → Frozen s (without_overlay key s)
  unfolding mark_dirty
  without_overlay-Frozen key s v =
      if_ind (Frozen s) (filter_editing s.view)
        (kept-Frozen s (handle_filter_key key s) v (handle_filter_key-kept key s))
        (resolved-Frozen (resolve key.code key.modifiers s.view.tab) s v)

  on_overlay-Frozen :
      (overlay : Overlay) (key : KeyEvent) (s : AppState host)
      → IsViewer s
      → Frozen s (on_overlay overlay key s)
  on_overlay-Frozen Overlay.palette key s v = handle_palette_key-Frozen key s v
  on_overlay-Frozen Overlay.command key s v = handle_palette_key-Frozen key s v
  on_overlay-Frozen Overlay.actions key s v = handle_actions_key-Frozen key s v
  on_overlay-Frozen Overlay.no_overlay key s v = without_overlay-Frozen key s v
  on_overlay-Frozen Overlay.help key s v =
      kept-Frozen s (handle_scrollable_overlay_key key s) v
        (handle_scrollable_overlay_key-kept key s)
  on_overlay-Frozen Overlay.log key s v =
      kept-Frozen s (handle_scrollable_overlay_key key s) v
        (handle_scrollable_overlay_key-kept key s)
  on_overlay-Frozen Overlay.inspector key s v =
      kept-Frozen s (handle_scrollable_overlay_key key s) v
        (handle_scrollable_overlay_key-kept key s)

  pub handle_key_event-Frozen :
      (key : KeyEvent) (s : AppState host) → IsViewer s → Frozen s (handle_key_event key s)
  unfolding handle_key_event quit
  handle_key_event-Frozen key s v =
      let (remote, (quiet, rows)) = v in
      if_ind (Frozen s) (is_ctrl_c key) (same-Frozen s v)
        (rw (ap is_pending quiet) (on_overlay-Frozen s.overlay key (expired s) v))
