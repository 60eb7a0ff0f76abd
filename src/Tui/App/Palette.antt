-- ===== src/Tui/App/Palette.antt =====
-- The command palette (`PaletteState` of crates/muxtop-tui/src/app.rs). The matcher's score is the
-- host's function.
pub mod Offers
use Prim.Native.Nat.{compare, Ordering}
use Prim.Native.String.{String}
use mathlib.Core.Bool.{decide}
use muxtop.Base.{
  ℕ, zero, suc, ◌+◌, ◌-◌, ◌^◌, min, Bool, true, false, not, ◌&&◌, ◌||◌, Option, none, some, List,
  [], ◌∷◌, map, length, take, filter_by, if◌then◌else◌,
}
use muxtop.Base.Texts.{codes, same_text, trim}
use muxtop.Core.Process.{Text}
use muxtop.Core.Process.Search.{is_empty}
use muxtop.Core.Std.{then_with}
use muxtop.Tui.Tabs.{Tab, Tab-discrete}
use muxtop.Tui.App.Commands.{
  Command, all_commands, verb, is_verb_only, home_tab, search_text, Command-discrete,
}
use muxtop.Tui.App.Host.{Host}

pub record PaletteState : Type 0 where
  pub input : Text
  pub selected : ℕ
  pub filtered : List (Command × Option ℕ)
  pub arg : Option Text
  pub history : List Command

abbrev pub same : Command → Command → Bool
same a b = decide (Command-discrete a b)

-- `slice::contains`.
abbrev pub has : List Command → Command → Bool
has [] c = false
has (d ∷ ds) c = same d c || has ds c

abbrev pub unscored : Command → Command × Option ℕ
unscored c = (c, none)

unfoldable pub new : PaletteState
unfolding is_verb_only
new = record {
  input = [];
  selected = 0;
  filtered = map unscored (filter_by (λ c. not (is_verb_only c)) all_commands);
  arg = none;
  history = [];
}

abbrev pub history_len : ℕ
history_len = 5

unfoldable pub remember : Command → PaletteState → PaletteState
remember cmd p = record p {
  history = take history_len (cmd ∷ filter_by (λ c. not (same c cmd)) p.history);
}

-- `split_once`: the text before the first character that passes the test, and the text after it.
abbrev pub split_once : (ℕ → Bool) → Text → Option (Text × Text)
split_once test [] = none
split_once test (c ∷ cs) =
    let rest = split_once test cs in
    if test c
    then some ([], cs)
    else elim rest [ none ↦ none | some (head, tail) ↦ some (c ∷ head, tail) ]

abbrev is_text : Option String → Text → Bool
is_text none head = false
is_text (some s) head = same_text (codes s) head

abbrev verb_is : Text → Command → Bool
verb_is head c = is_text (verb c) head

abbrev pub find : (Command → Bool) → List Command → Option Command
find test [] = none
find test (c ∷ cs) = let rest = find test cs in if test c then some c else rest

-- `iter().position(..)`, and `d` when there is none.
abbrev position : Command → List Command → ℕ
position c [] = zero
position c (h ∷ hs) = let rest = position c hs in if same h c then zero else suc rest

abbrev position_or : Command → List Command → ℕ → ℕ
position_or c hs d = if has hs c then position c hs else d

-- The tab of a command against the active one: its own, any, another.
abbrev by_home {ℓ} : {A : Type ℓ} → A → A → A → Option Tab → Option Tab → A
by_home own anywhere other (some home) (some active) =
    if decide (Tab-discrete home active) then own else other
by_home own anywhere other none tab = anywhere
by_home own anywhere other (some home) none = other

unfoldable pub context : Command → Option Tab → ℕ
unfolding home_tab
context c tab = by_home 0 1 2 (home_tab c) tab

unfoldable pub bonus : Command → Option Tab → ℕ
unfolding home_tab
bonus c tab = by_home 24 8 0 (home_tab c) tab

abbrev saturating_add : ℕ → ℕ → ℕ
saturating_add a b = min (a + b) (2 ^ 16 - 1)

abbrev compare_recent : List Command → Option Tab → Command → Command → Ordering
compare_recent history tab a b =
    then_with (compare (position_or a history history_len) (position_or b history history_len))
      (compare (context a tab) (context b tab))

abbrev compare_scored : Command × ℕ → Command × ℕ → Ordering
compare_scored (c, s) (d, t) = compare t s

abbrev pub scored_row : Command × ℕ → Command × Option ℕ
scored_row (c, s) = (c, some s)

-- The commands that the list may offer.
abbrev pub candidates : List Command → List Command
candidates excluded =
    filter_by (λ c. not (has excluded c)) (filter_by (λ c. not (is_verb_only c)) all_commands)

abbrev pub scored_if : Command → Option Tab → Option ℕ → List (Command × ℕ) → List (Command × ℕ)
scored_if c tab none rest = rest
scored_if c tab (some s) rest = (c, saturating_add s (bonus c tab)) ∷ rest

abbrev clamp_list : PaletteState → PaletteState
clamp_list p = record p { selected = min p.selected (length p.filtered - 1) }

module _ (host : Host) where
  open host use {std, fuzzy_score}
  open host.std use {sort_by, lowercase, is_whitespace}

  abbrev named : Option (Text × Text) → Option (Command × Text)
  named none = none
  named (some (head, rest)) = elim (find (verb_is (lowercase.lower head)) all_commands) [
    | none ↦ none
    | some cmd ↦ some (cmd, trim is_whitespace rest)
  ]

  unfoldable pub parse_verb : Text → Option (Command × Text)
  unfolding verb
  parse_verb input = named (split_once is_whitespace input)

  abbrev pub scores : Text → Option Tab → List Command → List (Command × ℕ)
  scores input tab [] = []
  scores input tab (c ∷ cs) =
      let rest = scores input tab cs in scored_if c tab (fuzzy_score input (search_text c)) rest

  abbrev pub offered : List Command → Option Tab → PaletteState → List (Command × Option ℕ)
  offered excluded tab p =
      if is_empty p.input
      then map unscored (sort_by Command (compare_recent p.history tab) (candidates excluded))
      else map scored_row
          (sort_by (Command × ℕ) compare_scored (scores p.input tab (candidates excluded)))

  abbrev pub listed : List Command → Option Tab → PaletteState → PaletteState
  listed excluded tab p = clamp_list (record p { arg = none; filtered = offered excluded tab p })

  abbrev pub refiltered :
      List Command → Option Tab → PaletteState → Option (Command × Text) → PaletteState
  refiltered excluded tab p none = listed excluded tab p
  refiltered excluded tab p (some (cmd, arg)) =
      if has excluded cmd
      then listed excluded tab p
      else record p { arg = some arg; filtered = (cmd, some (2 ^ 16 - 1)) ∷ []; selected = 0 }

  unfoldable pub refilter_ctx : List Command → Option Tab → PaletteState → PaletteState
  unfolding parse_verb is_verb_only bonus context
  refilter_ctx excluded tab p = refiltered excluded tab p (parse_verb p.input)
