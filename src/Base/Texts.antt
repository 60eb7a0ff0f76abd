-- ===== src/Base/Texts.antt =====
-- Native strings as the lists of their code points, and what the program does with text.
use Prim.Native.Nat.{ℕ}
use Prim.Native.String.{String}
use Prim.Native.Char.{code}
use mathlib.Core.Bool.{Bool, true, false, ◌&&◌}
use mathlib.Core.List.{List, [], ◌∷◌, reverse}
use muxtop.Base.Tests.{◌==◌, if◌then◌else◌}

abbrev pub codes : String → List ℕ
codes String.[] = []
codes (String.◌∷◌ c s) = code c ∷ codes s

abbrev pub same_text : List ℕ → List ℕ → Bool
same_text [] [] = true
same_text [] (d ∷ ds) = false
same_text (c ∷ cs) [] = false
same_text (c ∷ cs) (d ∷ ds) = c == d && same_text cs ds

-- `str::trim_start` and `str::trim`.
abbrev pub trim_start : (ℕ → Bool) → List ℕ → List ℕ
trim_start space [] = []
trim_start space (c ∷ cs) = let rest = trim_start space cs in if space c then rest else c ∷ cs

abbrev pub trim : (ℕ → Bool) → List ℕ → List ℕ
trim space t = reverse (trim_start space (reverse (trim_start space t)))
