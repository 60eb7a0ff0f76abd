-- ===== src/Core/Process/Examples.antt =====
-- The process list of crates/muxtop-core/src/process.rs at concrete inputs.
use Prim.Native.String.{String}
use Prim.Native.Char.{code}
use muxtop.Base.{ℕ, ◌≡◌, refl, ap₂, true, Option, none, some, List, [], ◌∷◌, map, arith, filter_by}
use muxtop.Core.Process.{ProcessInfo, Text}
use muxtop.Core.Process.Tree.{
  Forest, node, nil, cons, build_process_tree, contains as has_pid, is_root, listed_parent, push,
}
use muxtop.Core.Process.Tree.Total.{IsTreeOf, build_process_tree_total}
use muxtop.Core.Process.Search.{
  Lowercase, to_ascii_lowercase, contains_ignore_case, filter_processes,
}
use muxtop.Core.Process.Search.Paths.{filter_processes-eq_filter, shows}

abbrev codes : String → Text
codes String.[] = []
codes (String.◌∷◌ c s) = code c ∷ codes s

abbrev proc : ℕ → Option ℕ → String → ProcessInfo (Unit {0})
proc pid parent name = record {
  pid = pid;
  parent_pid = parent;
  name = codes name;
  command = [];
  user = codes "u";
  cpu_percent = tt;
  memory_bytes = 0;
  memory_percent = tt;
  status = codes "Running";
}

-- A root with one child, and two processes that name each other as parent.
abbrev cyclic : List (ProcessInfo (Unit {0}))
cyclic =
    proc 1 none "init"
    ∷ proc 7 (some 8) "left"
    ∷ proc 8 (some 7) "right"
    ∷ proc 2 (some 1) "sh"
    ∷ []

cyclic_tree :
    build_process_tree cyclic
    ≡ some (
        cons (node (proc 1 none "init") (cons (node (proc 2 (some 1) "sh") nil 1) nil) 0) (
          cons
            (node (proc 7 (some 8) "left") (cons (node (proc 8 (some 7) "right") nil 1) nil) 0)
            nil))
unfolding build_process_tree is_root listed_parent has_pid push
cyclic_tree = refl

build_process_tree_total_example :
    (f : Forest (Unit {0})) × (build_process_tree cyclic ≡ some f) × IsTreeOf cyclic f
build_process_tree_total_example = build_process_tree_total cyclic

to_ascii_lowercase_twice :
    (c : ℕ) → to_ascii_lowercase (to_ascii_lowercase c) ≡ to_ascii_lowercase c
unfolding to_ascii_lowercase
to_ascii_lowercase_twice c = ground arith

pub map_twice :
    (t : Text) → map to_ascii_lowercase (map to_ascii_lowercase t) ≡ map to_ascii_lowercase t
map_twice [] = refl
map_twice (c ∷ cs) = ap₂ ◌∷◌ (to_ascii_lowercase_twice c) (map_twice cs)

abbrev pub ascii_only : Lowercase
ascii_only = record {
  lower = map to_ascii_lowercase;
  lower_ascii = λ t h. refl;
  lower_no_capital = map_twice;
}

contains_ignore_case_runs : contains_ignore_case ascii_only (codes "FireFox") (codes "fox") ≡ true
unfolding contains_ignore_case to_ascii_lowercase
contains_ignore_case_runs = refl

fox_lowered : map to_ascii_lowercase (codes "fox") ≡ codes "fox"
unfolding to_ascii_lowercase
fox_lowered = refl

filter_runs : filter_processes ascii_only cyclic (codes "LE") ≡ proc 7 (some 8) "left" ∷ []
unfolding filter_processes to_ascii_lowercase
filter_runs = refl

filter_processes-eq_filter_example :
    filter_processes ascii_only cyclic (codes "LE")
    ≡ filter_by (shows ascii_only (codes "LE")) cyclic
filter_processes-eq_filter_example = filter_processes-eq_filter ascii_only cyclic (codes "LE")
