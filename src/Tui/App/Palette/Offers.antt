-- ===== src/Tui/App/Palette/Offers.antt =====
-- What the palette offers (crates/muxtop-tui/src/app.rs).
use muxtop.Base.{
  ℕ, ◌≡◌, refl, ◌∙◌, Bool, true, false, not, ◌&&◌, ◌||◌, Option, none, some, List, [], ◌∷◌, inl,
  inr, Bool-cases, Option-cases, &&-split, if_ind,
}
use muxtop.Base.Perms.{all_by, Perm-all_by, all_by-filter_by, filter_by-both, all_by-map}
use muxtop.Core.Process.{Text}
use muxtop.Core.Process.Search.{is_empty}
use muxtop.Tui.Tabs.{Tab}
use muxtop.Tui.App.Commands.{Command, all_commands, is_verb_only, is_some, search_text}
use muxtop.Tui.App.Host.{Host}
use muxtop.Tui.App.Palette.{
  PaletteState, has, unscored, candidates, scores, scored_row, offered, parse_verb, refiltered,
  refilter_ctx,
}

-- A row may stand in the list: its command is not excluded, and a command that only a verb reaches
-- stands there with an argument.
abbrev pub allowed : List Command → Bool → Command → Bool
allowed excluded has_arg c = not (has excluded c) && (has_arg || not (is_verb_only c))

abbrev pub row_allowed : List Command → Bool → Command × Option ℕ → Bool
row_allowed excluded has_arg (c, s) = allowed excluded has_arg c

abbrev pub all_allowed : List Command → PaletteState → Bool
all_allowed excluded p = all_by (row_allowed excluded (is_some p.arg)) p.filtered

candidates-allowed :
    (excluded : List Command) → all_by (allowed excluded false) (candidates excluded) ≡ true
candidates-allowed excluded =
    filter_by-both (λ c. not (is_verb_only c)) (λ c. not (has excluded c)) _
      (all_by-filter_by (λ c. not (is_verb_only c)) (λ c. not (is_verb_only c)) all_commands
        (λ c h. h))

module _ (host : Host) where
  scores-allowed :
      (f : Command → Bool) (input : Text) (tab : Option Tab) (cs : List Command)
      → all_by f cs ≡ true
      → all_by (λ (c, s). f c) (scores host input tab cs) ≡ true
  scores-allowed f input tab [] h = refl
  scores-allowed f input tab (c ∷ cs) h =
      let (hc, hcs) = &&-split (f c) (all_by f cs) h in
      let rest = scores-allowed f input tab cs hcs in
      elim (Option-cases (host.fuzzy_score input (search_text c))) [
        | inl e ↦ rw e rest
        | inr (s, e) ↦ rw e (cc (hc, rest))
      ]

  offered-allowed :
      (excluded : List Command) (tab : Option Tab) (p : PaletteState)
      → all_by (row_allowed excluded false) (offered host excluded tab p) ≡ true
  offered-allowed excluded tab p =
      if_ind (λ rows. all_by (row_allowed excluded false) rows ≡ true) (is_empty p.input)
        (all_by-map (row_allowed excluded false) unscored _
          ∙ Perm-all_by (allowed excluded false) (host.std.sort_by_perm Command _ _)
              (candidates-allowed excluded))
        (all_by-map (row_allowed excluded false) scored_row _
          ∙ Perm-all_by _ (host.std.sort_by_perm (Command × ℕ) _ _) (
              scores-allowed (allowed excluded false) p.input tab (candidates excluded)
                (candidates-allowed excluded)))

  refiltered-allowed :
      (excluded : List Command) (tab : Option Tab) (p : PaletteState) (o : Option (Command × Text))
      → all_allowed excluded (refiltered host excluded tab p o) ≡ true
  refiltered-allowed excluded tab p none = offered-allowed excluded tab p
  refiltered-allowed excluded tab p (some (cmd, arg)) = elim (Bool-cases (has excluded cmd)) [
    | inl e ↦ rw e (offered-allowed excluded tab p)
    | inr e ↦ rw e (rw e refl)
  ]

  -- Whatever was typed, on whatever tab: once the list is computed again, it holds no excluded
  -- command, and a command that only a verb reaches stands in it only with the argument parsed.
  pub refilter_ctx-allowed :
      (excluded : List Command) (tab : Option Tab) (p : PaletteState)
      → all_allowed excluded (refilter_ctx host excluded tab p) ≡ true
  unfolding refilter_ctx
  refilter_ctx-allowed excluded tab p = refiltered-allowed excluded tab p (parse_verb host p.input)
