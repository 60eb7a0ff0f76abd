-- ===== src/Tui/Keymap/Hints.antt =====
-- The footer hints of crates/muxtop-tui/src/keymap.rs.
use Prim.Native.String.{String}
use mathlib.Core.Bool.{false≢true}
use muxtop.Base.{
  ℕ, zero, suc, ◌≡◌, ◌⊎◌, refl, subst, ap, Bool, true, false, ◌&&◌, some, List, [], ◌∷◌, ◌++◌,
  get_elem?, Bool-cases, inl, inr, &&-split, filter_by,
}
use muxtop.Tui.Tabs.{Tab}
use muxtop.Tui.Keymap.Keys.{Scope, Binding, scope_matches, is_local_only, global, on_tab}
use muxtop.Tui.Keymap.Bindings.{bindings}
use muxtop.Tui.Keymap.{hint_rows, hints, is_tab_scope, is_global}

filter_by_sound {ℓ} :
    {A : Type ℓ} (test : A → Bool) (xs : List A) (k : ℕ) (x : A)
    → get_elem? (filter_by test xs) k ≡ some x
    → (i : ℕ) × (get_elem? xs i ≡ some x) × (test x ≡ true)
filter_by_sound test [] k x h = absurd (cc h)
filter_by_sound test (y ∷ ys) k x h = elim (Bool-cases (test y)) [
  | inl e ↦ kept k (rw e at h) e (λ j. filter_by_sound test ys j x)
  | inr e ↦ let (i, at, t) = filter_by_sound test ys k x (rw e at h) in (suc i, at, t)
]
  where
    kept :
        (k : ℕ)
        → get_elem? (y ∷ filter_by test ys) k ≡ some x
        → test y ≡ true
        → ((j : ℕ)
            → get_elem? (filter_by test ys) j ≡ some x
            → (i : ℕ) × (get_elem? ys i ≡ some x) × (test x ≡ true))
        → (i : ℕ) × (get_elem? (y ∷ ys) i ≡ some x) × (test x ≡ true)
    kept zero h e ih = let same : y ≡ x = cc h in (0, h, subst (λ z. test z ≡ true) same e)
    kept (suc k) h e ih = let (i, at, t) = ih k h in (suc i, at, t)

get_elem?-append {ℓ} :
    {A : Type ℓ} (xs ys : List A) (k : ℕ) {x : A}
    → get_elem? (xs ++ ys) k ≡ some x
    → ((i : ℕ) × (get_elem? xs i ≡ some x)) ⊎ ((i : ℕ) × (get_elem? ys i ≡ some x))
get_elem?-append [] ys k h = inr (k, h)
get_elem?-append (z ∷ xs) ys zero h = inl (0, h)
get_elem?-append (z ∷ xs) ys (suc k) h = elim (get_elem?-append xs ys k h) [
  | inl (i, e) ↦ inl (suc i, e)
  | inr (i, e) ↦ inr (i, e)
]

-- The binding that a hint row shows.
pub record IsHintOf (tab : Tab) (remote : Bool) (row : String × String) (b : Binding) : Type 0 where
  pub display : b.display ≡ row.0
  pub label : b.label ≡ row.1
  pub hint : b.hint ≡ true
  pub in_scope : scope_matches b.scope tab ≡ true
  pub allowed : remote && is_local_only b.action ≡ false

hint_rows_sound :
    (remote : Bool) (bs : List Binding) (k : ℕ) (row : String × String)
    → get_elem? (hint_rows remote bs) k ≡ some row
    → (i : ℕ) × (b : Binding) × (get_elem? bs i ≡ some b)
      × (◌≡◌ {A = String × String} (b.display, b.label) row)
      × (remote && is_local_only b.action ≡ false)
unfolding hint_rows
hint_rows_sound remote [] k row h = absurd (cc h)
hint_rows_sound remote (c ∷ bs) k row h = elim (Bool-cases (remote && is_local_only c.action)) [
  | inl e ↦
      let (i, b, at, s, t) = hint_rows_sound remote bs k row (rw e at h) in (suc i, b, at, s, t)
  | inr e ↦ shown k (rw e at h) e (λ j. hint_rows_sound remote bs j row)
]
  where
    shown :
        (k : ℕ)
        → get_elem? ((c.display, c.label) ∷ hint_rows remote bs) k ≡ some row
        → remote && is_local_only c.action ≡ false
        → ((j : ℕ)
            → get_elem? (hint_rows remote bs) j ≡ some row
            → (i : ℕ) × (b : Binding) × (get_elem? bs i ≡ some b)
              × (◌≡◌ {A = String × String} (b.display, b.label) row)
              × (remote && is_local_only b.action ≡ false))
        → (i : ℕ) × (b : Binding) × (get_elem? (c ∷ bs) i ≡ some b)
          × (◌≡◌ {A = String × String} (b.display, b.label) row)
          × (remote && is_local_only b.action ≡ false)
    shown zero h e ih = (0, c, refl, cc h, e)
    shown (suc k) h e ih = let (i, b, at, s, t) = ih k h in (suc i, b, at, s, t)

-- The rows of one pass, if its test lets through hints that apply on the tab only.
pass_sound :
    (tab : Tab) (remote : Bool) (test : Binding → Bool)
    → ((b : Binding) → test b ≡ true → (b.hint ≡ true) × (scope_matches b.scope tab ≡ true))
    → (k : ℕ) (row : String × String)
    → get_elem? (hint_rows remote (filter_by test bindings)) k ≡ some row
    → (i : ℕ) × (b : Binding) × (get_elem? bindings i ≡ some b) × IsHintOf tab remote row b
pass_sound tab remote test good k row h =
    let (j, b, at, same, allowed) = hint_rows_sound remote (filter_by test bindings) k row h in
    let (i, at', passed) = filter_by_sound test bindings j b at in
    (
      i,
      b,
      at',
      record {
        display = ap (λ r. r.0) same;
        label = ap (λ r. r.1) same;
        hint = (good b passed).0;
        in_scope = (good b passed).1;
        allowed = allowed;
      },
    )

tab_scope_matches : (s : Scope) (tab : Tab) → is_tab_scope s tab ≡ true → scope_matches s tab ≡ true
tab_scope_matches global tab h = absurd (false≢true h)
tab_scope_matches (on_tab t) tab h = h

global_matches : (s : Scope) (tab : Tab) → is_global s ≡ true → scope_matches s tab ≡ true
unfolding scope_matches
global_matches global tab h = refl
global_matches (on_tab t) tab h = absurd (false≢true h)

-- Every footer hint is a binding of the table that applies on the tab, and on a remote host never
-- one of an action that only works locally.
pub hints_sound :
    (tab : Tab) (remote : Bool) (k : ℕ) (row : String × String)
    → get_elem? (hints tab remote) k ≡ some row
    → (i : ℕ) × (b : Binding) × (get_elem? bindings i ≡ some b) × IsHintOf tab remote row b
unfolding hints
hints_sound tab remote k row h =
    elim (get_elem?-append (hint_rows remote (filter_by tab_test bindings))
      (hint_rows remote (filter_by global_test bindings)) k h) [
        | inl (j, e) ↦ pass_sound tab remote tab_test tab_good j row e
        | inr (j, e) ↦ pass_sound tab remote global_test global_good j row e
      ]
  where
    tab_test : Binding → Bool
    tab_test b = b.hint && is_tab_scope b.scope tab

    global_test : Binding → Bool
    global_test b = b.hint && (is_global b.scope && b.primary)

    tab_good :
        (b : Binding) → tab_test b ≡ true → (b.hint ≡ true) × (scope_matches b.scope tab ≡ true)
    tab_good b t =
        let (hint, scope) = &&-split b.hint (is_tab_scope b.scope tab) t in
        (hint, tab_scope_matches b.scope tab scope)

    global_good :
        (b : Binding) → global_test b ≡ true → (b.hint ≡ true) × (scope_matches b.scope tab ≡ true)
    global_good b t =
        let (hint, rest) = &&-split b.hint (is_global b.scope && b.primary) t in
        (hint, global_matches b.scope tab (&&-split (is_global b.scope) b.primary rest).0)
