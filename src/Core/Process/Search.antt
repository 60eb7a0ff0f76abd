-- ===== src/Core/Process/Search.antt =====
-- `contains_ignore_case` and `filter_processes` (crates/muxtop-core/src/process.rs). A text is the
-- list of its code points, so an ASCII text is also the list of its bytes. `str::to_lowercase`
-- rests on the Unicode tables and is a parameter with two of its documented laws.
pub mod Paths
use muxtop.Base.{
  ℕ, ◌+◌, ◌≡◌, Bool, true, false, ◌&&◌, ◌||◌, List, [], ◌∷◌, map, ltb, leb, ◌==◌, if◌then◌else◌,
  length, take,
}
use muxtop.Core.Process.{ProcessInfo, Text}

-- `u8::is_ascii`, `u8::to_ascii_lowercase`, `u8::eq_ignore_ascii_case`.
unfoldable pub is_ascii : Text → Bool
is_ascii [] = true
is_ascii (c ∷ cs) = ltb c 128 && is_ascii cs

unfoldable pub to_ascii_lowercase : ℕ → ℕ
to_ascii_lowercase c = if leb b'A' c && leb c b'Z' then c + 32 else c

unfoldable pub eq_ignore_ascii_case : ℕ → ℕ → Bool
unfolding to_ascii_lowercase
eq_ignore_ascii_case a b = to_ascii_lowercase a == to_ascii_lowercase b

-- `slice::windows`: every run of `n` neighbours.
unfoldable pub windows : ℕ → Text → List Text
windows n [] = []
windows n (x ∷ xs) =
    let rest = windows n xs in if ltb (length (x ∷ xs)) n then [] else take n (x ∷ xs) ∷ rest

-- `w.iter().zip(needle).all(...)`: the shorter list ends the comparison.
unfoldable pub zip_all : Text → Text → Bool
unfolding eq_ignore_ascii_case
zip_all [] ns = true
zip_all (a ∷ ws) [] = true
zip_all (a ∷ ws) (b ∷ ns) = eq_ignore_ascii_case a b && zip_all ws ns

unfoldable pub any_window : List Text → Text → Bool
unfolding zip_all
any_window [] needle = false
any_window (w ∷ ws) needle = zip_all w needle || any_window ws needle

-- `str::contains`.
unfoldable pub starts_with : Text → Text → Bool
starts_with t [] = true
starts_with [] (b ∷ ns) = false
starts_with (a ∷ t) (b ∷ ns) = a == b && starts_with t ns

unfoldable pub contains : Text → Text → Bool
unfolding starts_with
contains [] ns = starts_with [] ns
contains (a ∷ t) ns = starts_with (a ∷ t) ns || contains t ns

abbrev pub is_empty : Text → Bool
is_empty [] = true
is_empty (c ∷ cs) = false

-- `str::to_lowercase`: on ASCII text it is the ASCII mapping, and its result holds no ASCII capital.
pub record Lowercase : Type 0 where
  pub lower : Text → Text
  pub lower_ascii : (t : Text) → is_ascii t ≡ true → lower t ≡ map to_ascii_lowercase t
  pub lower_no_capital : (t : Text) → map to_ascii_lowercase (lower t) ≡ lower t

module _ (lowercase : Lowercase) where
  open lowercase use {lower}

  unfoldable pub contains_ignore_case : Text → Text → Bool
  unfolding is_ascii windows any_window contains
  contains_ignore_case haystack needle_lower =
      if is_empty needle_lower
      then true
      else if is_ascii needle_lower && is_ascii haystack
      then (if ltb (length haystack) (length needle_lower)
          then false
          else any_window (windows (length needle_lower) haystack) needle_lower)
      else contains (lower haystack) needle_lower

  module _ {F32 : Type 0} where
    -- The closure of the filter.
    unfoldable pub matches : Text → ProcessInfo F32 → Bool
    unfolding contains_ignore_case
    matches pattern_lower p =
        contains_ignore_case p.name pattern_lower || contains_ignore_case p.command pattern_lower

    unfoldable pub keep_matches : Text → List (ProcessInfo F32) → List (ProcessInfo F32)
    unfolding matches
    keep_matches pattern_lower [] = []
    keep_matches pattern_lower (p ∷ ps) =
        let rest = keep_matches pattern_lower ps in
        if matches pattern_lower p then p ∷ rest else rest

    unfoldable pub filter_processes : List (ProcessInfo F32) → Text → List (ProcessInfo F32)
    unfolding keep_matches
    filter_processes procs pattern =
        if is_empty pattern then procs else keep_matches (lower pattern) procs
