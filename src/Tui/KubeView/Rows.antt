-- ===== src/Tui/KubeView/Rows.antt =====
-- Which rows the Kubernetes view holds (crates/muxtop-tui/src/ui/kube.rs).
use mathlib.Core.Logic.Or
use mathlib.Core.List.{
  Perm, Mem, Nodup, Nodup-cons, reverse_perm, not-mem-nil, mem-cons_self, mem-cons_of_mem, Pairwise,
  eq-or-mem_of_mem-cons,
}
use mathlib.Core.List.Perm
use native.Mathlib.Bridge.{le_prop}
use muxtop.Base.{
  ℕ, zero, suc, ◌+◌, ◌-◌, ◌≤◌, ◌≡◌, refl, sym, subst, ap, ap₂, ◌∙◌, ◌↔◌, Bool, true, false, ◌||◌,
  Bool-cases, inl, inr, Option, none, some, List, [], ◌∷◌, get_elem?, arith,
}
use muxtop.Core.Process.{Text}
use muxtop.Core.Process.Search.{contains, contains_ignore_case}
use muxtop.Core.Process.Search.Paths.{contains_ignore_case-eq_contains}
use muxtop.Core.Process.Sort.{SortOrder}
use muxtop.Core.Std.{Std}
use muxtop.Core.Kube.{PodSnapshot, NodeSnapshot, DeploymentSnapshot, KubeSnapshot}
use muxtop.Tui.Tabs.{KubeSubview}
use muxtop.Tui.Sorts.{KubeSortField}
use muxtop.Tui.KubeView.{
  indices_from, turned, sort_pods, sort_nodes, sort_deployments, pod_matches, node_matches,
  deployment_matches, compute_view_indices,
}

-- There is a row, and it passes the test.
abbrev pub passes {ℓ} : {A : Type ℓ} → (A → Bool) → Option A → Bool
passes test none = false
passes test (some a) = test a

module _ {A : Type 0} (test : A → Bool) where
  get_elem?-suc :
      (i j : ℕ) (row : A) (rows : List A)
      → suc i ≤ j
      → get_elem? rows (j - suc i) ≡ get_elem? (row ∷ rows) (j - i)
  get_elem?-suc i j row rows le =
      let step : suc (j - suc i) ≡ j - i = omega (arith, le) in ap (get_elem? (row ∷ rows)) step

  indices_from-passes :
      (i j : ℕ) (rows : List A)
      → Mem j (indices_from test i rows)
      → (i ≤ j) × (passes test (get_elem? rows (j - i)) ≡ true)
  unfolding indices_from
  indices_from-passes i j [] m = absurd (not-mem-nil m)
  indices_from-passes i j (row ∷ rows) m =
      let later : Mem j (indices_from test (suc i) rows)
          → (i ≤ j) × (passes test (get_elem? (row ∷ rows) (j - i)) ≡ true) =
        λ n.
          let (le, found) = indices_from-passes (suc i) j rows n in
          (omega (arith, le), ap (passes test) (sym (get_elem?-suc i j row rows le)) ∙ found) in
      elim (Bool-cases (test row)) [
        | inl e ↦
            let here : j ≡ i → (i ≤ j) × (passes test (get_elem? (row ∷ rows) (j - i)) ≡ true) =
              λ same.
                let start : j - i ≡ 0 = omega (arith, same) in
                (omega (arith, same), ap (λ k. passes test (get_elem? (row ∷ rows) k)) start ∙ e) in
            let found : Mem j (i ∷ indices_from test (suc i) rows) = rw e at m in
            Or.elim (hlevel (le_prop)) (eq-or-mem_of_mem-cons found) here later
        | inr e ↦ later (rw e at m)
      ]

  passes-indices_from :
      (i k : ℕ) (rows : List A)
      → passes test (get_elem? rows k) ≡ true
      → Mem (i + k) (indices_from test i rows)
  unfolding indices_from
  passes-indices_from i k [] h = absurd (cc h)
  passes-indices_from i zero (row ∷ rows) h =
      rw h (subst (λ j. Mem j (i ∷ indices_from test (suc i) rows)) (omega arith) mem-cons_self)
  passes-indices_from i (suc k) (row ∷ rows) h =
      let later : Mem (i + suc k) (indices_from test (suc i) rows) =
        subst (λ j. Mem j (indices_from test (suc i) rows)) (omega arith)
          (passes-indices_from (suc i) k rows h) in
      elim (Bool-cases (test row)) [ inl e ↦ rw e (mem-cons_of_mem i later) | inr e ↦ rw e later ]

  indices_from-Nodup : (i : ℕ) (rows : List A) → Nodup (indices_from test i rows)
  unfolding indices_from
  indices_from-Nodup i [] = Pairwise.nil
  indices_from-Nodup i (row ∷ rows) =
      let rest = indices_from-Nodup (suc i) rows in
      elim (Bool-cases (test row)) [
        | inl e ↦ rw e (
            Nodup-cons.1
              (λ m. absurd (omega (arith, (indices_from-passes (suc i) i rows m).0)), rest))
        | inr e ↦ rw e rest
      ]

turned-perm : (order : SortOrder) (idx : List ℕ) → Perm (turned order idx) idx
turned-perm SortOrder.asc idx = reverse_perm idx
turned-perm SortOrder.desc idx = Perm.refl idx

module _ (std : Std) where
  open std.lowercase use {lower, lower_no_capital}

  -- The lowered text contains the lowered filter.
  abbrev pub text_shown : Text → Text → Bool
  text_shown filter t = contains (lower t) (lower filter)

  abbrev pub pod_shown : Text → PodSnapshot → Bool
  pod_shown filter p = text_shown filter p.name || text_shown filter p.namespace

  abbrev pub node_shown : Text → NodeSnapshot → Bool
  node_shown filter n = text_shown filter n.name

  abbrev pub deployment_shown : Text → DeploymentSnapshot → Bool
  deployment_shown filter d = text_shown filter d.name || text_shown filter d.namespace

  -- The sub-view has a row of that index, and its name, or the namespace of a pod or deployment,
  -- contains the filter, both lowered.
  abbrev pub row_shown : KubeSnapshot → KubeSubview → Text → ℕ → Bool
  row_shown snap KubeSubview.pods filter i = passes (pod_shown filter) (get_elem? snap.pods i)
  row_shown snap KubeSubview.nodes filter i = passes (node_shown filter) (get_elem? snap.nodes i)
  row_shown snap KubeSubview.deployments filter i =
      passes (deployment_shown filter) (get_elem? snap.deployments i)

  contains-lower :
      (filter t : Text) → contains_ignore_case std.lowercase t (lower filter) ≡ text_shown filter t
  contains-lower filter t =
      contains_ignore_case-eq_contains std.lowercase t (lower filter) (lower_no_capital filter)

  passes-cong :
      {A : Type 0} (f g : A → Bool) (o : Option A) → ((a : A) → f a ≡ g a) → passes f o ≡ passes g o
  passes-cong f g none h = refl
  passes-cong f g (some a) h = h a

  -- Each index once, and an index exactly if its row passes.
  abbrev IsView : List ℕ → (ℕ → Bool) → Type 0
  IsView view shown = Nodup view × ((i : ℕ) → Mem i view ↔ (shown i ≡ true))

  sorted-IsView :
      {A : Type 0} (test shown : A → Bool) (rows : List A) (view : List ℕ)
      → ((a : A) → test a ≡ shown a)
      → Perm view (indices_from test 0 rows)
      → IsView view (λ i. passes shown (get_elem? rows i))
  sorted-IsView test shown rows view same p = (
    (Perm.Nodup-iff p).1 (indices_from-Nodup test 0 rows),
    λ i. (
      λ m.
          let found = indices_from-passes test 0 i rows ((Perm.mem_iff p).0 m) in
          sym (passes-cong test shown (get_elem? rows i) same)
          ∙ ap (λ k. passes test (get_elem? rows k)) (omega arith)
          ∙ found.1,
      λ h. (Perm.mem_iff p).1 (
          subst (λ j. Mem j (indices_from test 0 rows)) (omega arith)
            (passes-indices_from test 0 i rows
              (passes-cong test shown (get_elem? rows i) same ∙ h))),
    ),
  )

  sort_by-turned :
      (order : SortOrder) (cmp : _) (idx : List ℕ) → Perm (turned order (std.sort_by ℕ cmp idx)) idx
  sort_by-turned order cmp idx = Perm.trans (turned-perm order _) (std.sort_by_perm ℕ cmp idx)

  -- Whatever the field and the direction of the sort, the view of a sub-view holds no index twice,
  -- and holds an index exactly if there is such a row and its name, or for pods and deployments its
  -- namespace, contains the filter, both lowered.
  pub compute_view_indices-rows :
      (snap : KubeSnapshot) (sv : KubeSubview) (filter : Text) (field : KubeSortField)
      (order : SortOrder)
      → Nodup (compute_view_indices std snap sv filter field order)
        × ((i : ℕ)
            → Mem i (compute_view_indices std snap sv filter field order)
              ↔ (row_shown snap sv filter i ≡ true))
  unfolding compute_view_indices sort_pods sort_nodes sort_deployments
  compute_view_indices-rows snap KubeSubview.pods filter field order =
      sorted-IsView (pod_matches std (lower filter)) (pod_shown filter) snap.pods _
        (λ p. ap₂ ◌||◌ (contains-lower filter p.name) (contains-lower filter p.namespace))
        (sort_by-turned order _ _)
  compute_view_indices-rows snap KubeSubview.nodes filter field order =
      sorted-IsView (node_matches std (lower filter)) (node_shown filter) snap.nodes _
        (λ n. contains-lower filter n.name) (sort_by-turned order _ _)
  compute_view_indices-rows snap KubeSubview.deployments filter field order =
      sorted-IsView (deployment_matches std (lower filter)) (deployment_shown filter)
        snap.deployments _
        (λ d. ap₂ ◌||◌ (contains-lower filter d.name) (contains-lower filter d.namespace))
        (sort_by-turned order _ _)
