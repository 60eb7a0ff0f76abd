-- ===== src/Tui/Keymap/Table.antt =====
-- The table of crates/muxtop-tui/src/keymap.rs has no shadowed and no ambiguous key.
use mathlib.Core.Bool.{decide, false≢true}
use muxtop.Base.{
  ℕ, zero, suc, ◌≡◌, ◌↔◌, refl, sym, subst, ap, ◌∙◌, Bool, true, not, ◌&&◌, ◌||◌, some, List, [],
  ◌∷◌, arith, get_elem?, Bool-cases, inl, inr, &&-split,
}
use muxtop.Tui.Tabs.{Tab, Tab-discrete}
use muxtop.Tui.Keymap.Keys.{
  KeyCode, KeyModifiers, Action, Scope, Binding, KeyCode-discrete, KeyModifiers-discrete,
  Action-discrete, Signal-discrete, scope_matches, normalise, no_mods, char, global, on_tab,
}
use muxtop.Tui.Keymap.Bindings.{bindings}
use muxtop.Tui.Keymap.{find_action, resolve}

of_decide {ℓ} : {A : Type ℓ} (d : Dec A) → decide d ≡ true → A
unfolding decide
of_decide (yes a) h = a
of_decide (no n) h = absurd (false≢true h)

to_decide {ℓ} : {A : Type ℓ} (d : Dec A) → A → decide d ≡ true
unfolding decide
to_decide (yes a) h = refl
to_decide (no n) h = absurd (n h)

-- The test of `find`.
abbrev hits : Binding → KeyCode → KeyModifiers → Tab → Bool
hits b code mods tab =
    decide (KeyCode-discrete b.code code)
    && decide (KeyModifiers-discrete b.mods mods)
    && scope_matches b.scope tab

-- The key belongs to the binding, which applies on the tab.
pub record IsHit (b : Binding) (code : KeyCode) (mods : KeyModifiers) (tab : Tab) : Type 0 where
  pub same_code : b.code ≡ code
  pub same_mods : b.mods ≡ mods
  pub in_scope : scope_matches b.scope tab ≡ true

split₃ : (a b c : Bool) → a && b && c ≡ true → (a ≡ true) × (b ≡ true) × (c ≡ true)
split₃ a b c h = ground arith

join₃ : (a b c : Bool) → a ≡ true → b ≡ true → c ≡ true → a && b && c ≡ true
join₃ a b c h k l = ground arith

module _ (b : Binding) (code : KeyCode) (mods : KeyModifiers) (tab : Tab) where
  IsHit-of_hits : hits b code mods tab ≡ true → IsHit b code mods tab
  IsHit-of_hits h =
      let (e, f, g) =
        split₃ (decide (KeyCode-discrete b.code code)) (decide (KeyModifiers-discrete b.mods mods))
          (scope_matches b.scope tab) h in
      record {
        same_code = of_decide (KeyCode-discrete b.code code) e;
        same_mods = of_decide (KeyModifiers-discrete b.mods mods) f;
        in_scope = g;
      }

  hits_of_IsHit : IsHit b code mods tab → hits b code mods tab ≡ true
  hits_of_IsHit h =
      join₃ (decide (KeyCode-discrete b.code code)) (decide (KeyModifiers-discrete b.mods mods))
        (scope_matches b.scope tab) (to_decide (KeyCode-discrete b.code code) h.same_code)
        (to_decide (KeyModifiers-discrete b.mods mods) h.same_mods) h.in_scope

-- A binding of a list that the key hits, with an action.
abbrev pub Hits : List Binding → KeyCode → KeyModifiers → Tab → Action → Type 0
Hits bs code mods tab a =
    (i : ℕ) × (b : Binding) × (get_elem? bs i ≡ some b) × IsHit b code mods tab × (b.action ≡ a)

find_action_sound :
    (bs : List Binding) (code : KeyCode) (mods : KeyModifiers) (tab : Tab) (a : Action)
    → find_action bs code mods tab ≡ some a
    → Hits bs code mods tab a
unfolding find_action
find_action_sound [] code mods tab a h = absurd (cc h)
find_action_sound (b ∷ bs) code mods tab a h = elim (Bool-cases (hits b code mods tab)) [
  | inl e ↦ (0, b, refl, IsHit-of_hits b code mods tab e, cc (rw e at h))
  | inr e ↦
      let (i, c, at, hit, act) = find_action_sound bs code mods tab a (rw e at h) in
      (suc i, c, at, hit, act)
]

find_action-finds :
    (bs : List Binding) (i : ℕ) (b : Binding) (code : KeyCode) (mods : KeyModifiers) (tab : Tab)
    → get_elem? bs i ≡ some b
    → IsHit b code mods tab
    → (a : Action) × (find_action bs code mods tab ≡ some a)
unfolding find_action
find_action-finds [] i b code mods tab at h = absurd (cc at)
find_action-finds (c ∷ bs) zero b code mods tab at h =
    let same : c ≡ b = cc at in
    (c.action, rw (hits_of_IsHit c code mods tab (subst (λ x. IsHit x code mods tab) (sym same) h)))
find_action-finds (c ∷ bs) (suc i) b code mods tab at h = elim (Bool-cases (hits c code mods tab)) [
  | inl e ↦ (c.action, rw e)
  | inr e ↦ let (a, found) = find_action-finds bs i b code mods tab at h in (a, rw e found)
]

-- Two scopes that some tab shares.
abbrev scopes_meet : Scope → Scope → Bool
scopes_meet global s = true
scopes_meet (on_tab t) global = true
scopes_meet (on_tab t) (on_tab u) = decide (Tab-discrete t u)

-- The two bindings have different keys, or no tab in common, or one action.
agree : Binding → Binding → Bool
agree b c =
    not (
      decide (KeyCode-discrete b.code c.code)
      && decide (KeyModifiers-discrete b.mods c.mods)
      && scopes_meet b.scope c.scope)
    || decide (Action-discrete b.action c.action)

agrees_with_all : Binding → List Binding → Bool
agrees_with_all b [] = true
agrees_with_all b (c ∷ cs) = agree b c && agrees_with_all b cs

all_agree : List Binding → List Binding → Bool
all_agree [] cs = true
all_agree (b ∷ bs) cs = agrees_with_all b cs && all_agree bs cs

bindings_agree : all_agree bindings bindings ≡ true
unfolding bindings all_agree agrees_with_all agree decide KeyCode-discrete KeyModifiers-discrete
    Action-discrete Signal-discrete scope_matches
bindings_agree = refl

agrees_with_all_sound :
    (b : Binding) (cs : List Binding) (j : ℕ) (c : Binding)
    → agrees_with_all b cs ≡ true
    → get_elem? cs j ≡ some c
    → agree b c ≡ true
unfolding agrees_with_all
agrees_with_all_sound b [] j c h at = absurd (cc at)
agrees_with_all_sound b (d ∷ cs) zero c h at =
    let same : d ≡ c = cc at in
    subst (λ x. agree b x ≡ true) same (&&-split (agree b d) (agrees_with_all b cs) h).0
agrees_with_all_sound b (d ∷ cs) (suc j) c h at =
    agrees_with_all_sound b cs j c (&&-split (agree b d) (agrees_with_all b cs) h).1 at

all_agree_sound :
    (bs cs : List Binding) (i j : ℕ) (b c : Binding)
    → all_agree bs cs ≡ true
    → get_elem? bs i ≡ some b
    → get_elem? cs j ≡ some c
    → agree b c ≡ true
unfolding all_agree
all_agree_sound [] cs i j b c h at at' = absurd (cc at)
all_agree_sound (d ∷ bs) cs zero j b c h at at' =
    let same : d ≡ b = cc at in
    agrees_with_all_sound b cs j c
      (subst (λ x. agrees_with_all x cs ≡ true) same
        (&&-split (agrees_with_all d cs) (all_agree bs cs) h).0)
      at'
all_agree_sound (d ∷ bs) cs (suc i) j b c h at at' =
    all_agree_sound bs cs i j b c (&&-split (agrees_with_all d cs) (all_agree bs cs) h).1 at at'

scopes_meet_at :
    (s t : Scope) (tab : Tab)
    → scope_matches s tab ≡ true
    → scope_matches t tab ≡ true
    → scopes_meet s t ≡ true
unfolding scope_matches
scopes_meet_at global t tab h k = refl
scopes_meet_at (on_tab s) global tab h k = refl
scopes_meet_at (on_tab s) (on_tab t) tab h k =
    to_decide (Tab-discrete s t)
      (of_decide (Tab-discrete s tab) h ∙ sym (of_decide (Tab-discrete t tab) k))

-- Two bindings that one key hits on one tab have one action.
same_action :
    (b c : Binding) (code : KeyCode) (mods : KeyModifiers) (tab : Tab)
    → agree b c ≡ true
    → IsHit b code mods tab
    → IsHit c code mods tab
    → b.action ≡ c.action
unfolding agree
same_action b c code mods tab h hb hc =
    let meets =
      join₃ (decide (KeyCode-discrete b.code c.code)) (decide (KeyModifiers-discrete b.mods c.mods))
        (scopes_meet b.scope c.scope)
        (to_decide (KeyCode-discrete b.code c.code) (hb.same_code ∙ sym hc.same_code))
        (to_decide (KeyModifiers-discrete b.mods c.mods) (hb.same_mods ∙ sym hc.same_mods))
        (scopes_meet_at b.scope c.scope tab hb.in_scope hc.in_scope) in
    of_decide (Action-discrete b.action c.action) (rw meets at h)

-- A key resolves to an action exactly if some binding of the table that applies on the tab has
-- this key and this action: the first match hides no other.
pub resolve_iff :
    (code : KeyCode) (mods : KeyModifiers) (tab : Tab) (a : Action)
    → (resolve code mods tab ≡ some a) ↔ Hits bindings code (normalise code mods) tab a
unfolding resolve
resolve_iff code mods tab a =
    (find_action_sound bindings code (normalise code mods) tab a, complete)
  where
    complete :
        Hits bindings code (normalise code mods) tab a
        → find_action bindings code (normalise code mods) tab ≡ some a
    complete (i, b, at, hit, act) =
        let (a', found) = find_action-finds bindings i b code (normalise code mods) tab at hit in
        let (j, c, at', hit', act') =
          find_action_sound bindings code (normalise code mods) tab a' found in
        found
        ∙ ap some (
            sym act'
            ∙ same_action c b code (normalise code mods) tab
                (all_agree_sound bindings bindings j i c b bindings_agree at' at) hit' hit
            ∙ act)

normalise_lem :
    (code : KeyCode) (m : KeyModifiers)
    → normalise code m ≡ record no_mods { control = m.control; alt = m.alt }
unfolding normalise
normalise_lem (char c) m = ground arith
normalise_lem code m = ground arith

normalise_same :
    (code : KeyCode) (m n : KeyModifiers)
    → m.control ≡ n.control
    → m.alt ≡ n.alt
    → normalise code m ≡ normalise code n
normalise_same code m n c a = cc (normalise_lem code m, normalise_lem code n, c, a)

-- Only Ctrl and Alt matter: Shift and the flags of exotic keyboards never change what a key does.
pub resolve_mods :
    (code : KeyCode) (m n : KeyModifiers) (tab : Tab)
    → m.control ≡ n.control
    → m.alt ≡ n.alt
    → resolve code m tab ≡ resolve code n tab
unfolding resolve
resolve_mods code m n tab c a =
    ap (λ k. find_action bindings code k tab) (normalise_same code m n c a)
