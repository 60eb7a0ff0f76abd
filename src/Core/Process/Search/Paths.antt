-- ===== src/Core/Process/Search/Paths.antt =====
-- The ASCII path and the Unicode path of `contains_ignore_case` (crates/muxtop-core/src/process.rs)
-- agree.
use muxtop.Base.{
  ℕ, suc, ◌≤◌, ◌<◌, ◌≡◌, refl, sym, ap, ap₂, Bool, true, false, ◌&&◌, ◌||◌, List, [], ◌∷◌, map, ltb,
  ◌==◌, if◌then◌else◌, length, take, filter_by, arith, Bool-cases, inl, inr, &&-split, ltb→lt,
  ltb→le,
}
use muxtop.Core.Process.{ProcessInfo, Text}
use muxtop.Core.Process.Search.{
  is_ascii, to_ascii_lowercase, eq_ignore_ascii_case, windows, zip_all, any_window, starts_with,
  contains, Lowercase, contains_ignore_case, matches, keep_matches, filter_processes,
}

-- A needle that holds no capital.
abbrev IsLowered : Text → Type 0
IsLowered t = map to_ascii_lowercase t ≡ t

tail-IsLowered :
    (b : ℕ) (ns : Text) → IsLowered (b ∷ ns) → (to_ascii_lowercase b ≡ b) × IsLowered ns
tail-IsLowered b ns h = (cc h, cc h)

zip_all-starts_with :
    (xs ns : Text)
    → IsLowered ns
    → length ns ≤ length xs
    → zip_all (take (length ns) xs) ns ≡ starts_with (map to_ascii_lowercase xs) ns
unfolding zip_all starts_with eq_ignore_ascii_case
zip_all-starts_with xs [] h le = refl
zip_all-starts_with [] (b ∷ ns) h le = absurd (omega arith)
zip_all-starts_with (a ∷ xs) (b ∷ ns) h le =
    let (hb, hs) = tail-IsLowered b ns h in
    rw hb (ap (λ r. to_ascii_lowercase a == b && r) (zip_all-starts_with xs ns hs (omega arith)))

starts_with_long : (t ns : Text) → length t < length ns → starts_with t ns ≡ false
unfolding starts_with
starts_with_long t [] h = absurd (omega arith)
starts_with_long [] (b ∷ ns) h = refl
starts_with_long (a ∷ t) (b ∷ ns) h = ground (arith, starts_with_long t ns)

contains_long : (t ns : Text) → length t < length ns → contains t ns ≡ false
unfolding contains
contains_long [] ns h = starts_with_long [] ns h
contains_long (a ∷ t) ns h = ground (arith, starts_with_long (a ∷ t) ns, contains_long t ns)

length-map : (f : ℕ → ℕ) (t : Text) → length (map f t) ≡ length t
length-map f [] = refl
length-map f (x ∷ xs) = ap suc (length-map f xs)

any_window-contains :
    (xs : Text) (b : ℕ) (ns : Text)
    → IsLowered (b ∷ ns)
    → any_window (windows (length (b ∷ ns)) xs) (b ∷ ns)
      ≡ contains (map to_ascii_lowercase xs) (b ∷ ns)
unfolding any_window windows contains
any_window-contains [] b ns h = refl
any_window-contains (x ∷ xs) b ns h = elim (Bool-cases (ltb (length (x ∷ xs)) (length (b ∷ ns)))) [
  | inl short ↦ rw short (
      sym (
        contains_long (map to_ascii_lowercase (x ∷ xs)) (b ∷ ns)
          (omega (arith, length-map to_ascii_lowercase xs, ltb→lt _ _ short))))
  | inr long ↦ rw long (
      ap₂ ◌||◌ (zip_all-starts_with (x ∷ xs) (b ∷ ns) h (ltb→le _ _ long))
        (any_window-contains xs b ns h))
]

-- The length test before the windows is decided by the windows already.
fast_path :
    (haystack : Text) (b : ℕ) (ns : Text)
    → IsLowered (b ∷ ns)
    → (if ltb (length haystack) (length (b ∷ ns))
        then false
        else any_window (windows (length (b ∷ ns)) haystack) (b ∷ ns))
      ≡ contains (map to_ascii_lowercase haystack) (b ∷ ns)
fast_path haystack b ns h = elim (Bool-cases (ltb (length haystack) (length (b ∷ ns)))) [
  | inl short ↦ rw short (
      sym (
        contains_long (map to_ascii_lowercase haystack) (b ∷ ns)
          (omega (arith, length-map to_ascii_lowercase haystack, ltb→lt _ _ short))))
  | inr long ↦ rw long (any_window-contains haystack b ns h)
]

module _ (lowercase : Lowercase) where
  open lowercase use {lower, lower_ascii, lower_no_capital}

  contains_empty : (t : Text) → contains t [] ≡ true
  unfolding contains
  contains_empty [] = refl
  contains_empty (a ∷ t) = refl

  -- For a needle that is in lower case, the allocation-free ASCII path and the Unicode path decide
  -- the same: whether the lowered haystack contains the needle.
  pub contains_ignore_case-eq_contains :
      (haystack needle : Text)
      → map to_ascii_lowercase needle ≡ needle
      → contains_ignore_case lowercase haystack needle ≡ contains (lower haystack) needle
  unfolding contains_ignore_case
  contains_ignore_case-eq_contains haystack [] h = sym (contains_empty (lower haystack))
  contains_ignore_case-eq_contains haystack (b ∷ ns) h =
      elim (Bool-cases (is_ascii (b ∷ ns) && is_ascii haystack)) [
        | inr wide ↦ rw wide
        | inl ascii ↦ rw ascii (
            rw (lower_ascii haystack (&&-split (is_ascii (b ∷ ns)) (is_ascii haystack) ascii).1)
              (fast_path haystack b ns h))
      ]

  module _ {F32 : Type 0} where
    -- The lowered name or the lowered command contains the lowered pattern.
    abbrev pub shows : Text → ProcessInfo F32 → Bool
    shows pattern p =
        contains (lower p.name) (lower pattern) || contains (lower p.command) (lower pattern)

    matches-eq_shows :
        (pattern : Text) (p : ProcessInfo F32)
        → matches lowercase (lower pattern) p ≡ shows pattern p
    unfolding matches
    matches-eq_shows pattern p =
        ap₂ ◌||◌
          (contains_ignore_case-eq_contains p.name (lower pattern) (lower_no_capital pattern))
          (contains_ignore_case-eq_contains p.command (lower pattern) (lower_no_capital pattern))

    keep_matches-eq_filter :
        (pattern : Text) (ps : List (ProcessInfo F32))
        → keep_matches lowercase (lower pattern) ps ≡ filter_by (shows pattern) ps
    unfolding keep_matches
    keep_matches-eq_filter pattern [] = refl
    keep_matches-eq_filter pattern (p ∷ ps) = rw (matches-eq_shows pattern p) (
        ap (λ rest. if shows pattern p then p ∷ rest else rest) (keep_matches-eq_filter pattern ps))

    filter_by-empty : (ps : List (ProcessInfo F32)) → filter_by (shows []) ps ≡ ps
    filter_by-empty [] = refl
    filter_by-empty (p ∷ ps) =
        let nothing : lower [] ≡ [] = unfold is_ascii in lower_ascii [] refl in
        rw nothing (rw contains_empty (ap (λ rest. p ∷ rest) (filter_by-empty ps)))

    -- Filtering keeps, in order, exactly the processes whose lowered name or command contains the
    -- lowered pattern; the shortcut for an empty pattern included.
    pub filter_processes-eq_filter :
        (procs : List (ProcessInfo F32)) (pattern : Text)
        → filter_processes lowercase procs pattern ≡ filter_by (shows pattern) procs
    unfolding filter_processes
    filter_processes-eq_filter procs [] = sym (filter_by-empty procs)
    filter_processes-eq_filter procs (c ∷ cs) = keep_matches-eq_filter (c ∷ cs) procs
