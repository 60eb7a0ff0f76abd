-- ===== src/Tui/Theme.antt =====
-- The colour schemes and their names (crates/muxtop-tui/src/ui/theme.rs).
use Prim.Native.String.{String}
use muxtop.Base.{
  ℕ, Bool, false, ◌||◌, List, [], ◌∷◌, ◌++◌, map, Result, ok, err, ◌==◌, if◌then◌else◌,
}
use muxtop.Base.Texts.{codes, same_text, trim}
use muxtop.Core.Process.{Text}

pub data ThemeKind : Type 0 where
  tokyo_night tokyo_night_light mono : ThemeKind

unfoldable pub name : ThemeKind → String
name ThemeKind.tokyo_night = "tokyo-night"
name ThemeKind.tokyo_night_light = "tokyo-night-light"
name ThemeKind.mono = "mono"

abbrev pub all_themes : List ThemeKind
all_themes = ThemeKind.tokyo_night ∷ ThemeKind.tokyo_night_light ∷ ThemeKind.mono ∷ []

abbrev join : Text → List Text → Text
join sep [] = []
join sep (t ∷ []) = t
join sep (t ∷ u ∷ us) = t ++ (sep ++ join sep (u ∷ us))

unfoldable pub names : Text
unfolding name
names = join (codes ", ") (map (λ k. codes (name k)) all_themes)

abbrev dashed : ℕ → ℕ
dashed c = if c == b'_' then b'-' else c

abbrev pub any_of : List Text → Text → Bool
any_of [] t = false
any_of (u ∷ us) t = same_text u t || any_of us t

abbrev pub dark_names : List Text
dark_names = codes "tokyo-night" ∷ codes "tokyonight" ∷ codes "dark" ∷ codes "default" ∷ []

abbrev pub light_names : List Text
light_names =
    codes "tokyo-night-light" ∷ codes "tokyonight-light" ∷ codes "light" ∷ codes "day" ∷ []

abbrev pub mono_names : List Text
mono_names = codes "mono" ∷ codes "monochrome" ∷ codes "none" ∷ []

abbrev theme_named : Text → Result Text ThemeKind
theme_named t =
    if any_of dark_names t
    then ok ThemeKind.tokyo_night
    else if any_of light_names t
    then ok ThemeKind.tokyo_night_light
    else if any_of mono_names t
    then ok ThemeKind.mono
    else err (codes "unknown theme `" ++ (t ++ (codes "` (available: " ++ (names ++ codes ")"))))

-- `ThemeKind::from_str`, with the whitespace and the lowering of text as parameters.
unfoldable pub parse_theme : (ℕ → Bool) → (Text → Text) → Text → Result Text ThemeKind
unfolding names
parse_theme is_whitespace lower s = theme_named (map dashed (lower (trim is_whitespace s)))
