-- ===== src/Core/Kube/Metrics/Latest.antt =====
-- The metrics of a pod after a poll (`tick_metrics` of crates/muxtop-core/src/kube_engine.rs).
use muxtop.Base.{
  ℕ, ◌+◌, ◌-◌, ◌^◌, min, ◌≡◌, refl, sym, ap, ap₂, ◌∙◌, Bool, true, false, ◌||◌, Bool-cases,
  &&-split, inl, inr, Option, none, some, List, [], ◌∷◌, map, if◌then◌else◌, arith,
}
use muxtop.Base.Texts.{same_text}
use muxtop.Base.Keys.{Decides, alike-agree, not_both, same_text-Decides}
use muxtop.Core.Process.{Text}
use muxtop.Core.Kube.Convert.{unwrap_or, map_or, find_pod}
use muxtop.Core.Kube.Engine.{is_blank}
use muxtop.Core.Kube.Quantities.{parse_quantity_to_bytes, parse_metrics_cpu_to_millis}
use muxtop.Core.Kube.Metrics.{
  PodItem, Bodies, saturating_add, total_from, insert, same_pod, pod_usage, with_pod, pods_from,
  tick_metrics,
}

-- The sum of what the texts stand for.
abbrev pub sum_of : (Text → ℕ) → List (Option Text) → ℕ
sum_of amount [] = 0
sum_of amount (t ∷ ts) = map_or 0 amount t + sum_of amount ts

total_from-min :
    (width : ℕ) (amount : Text → ℕ) (total : ℕ) (ts : List (Option Text))
    → total_from width amount (min total (2 ^ width - 1)) ts
      ≡ min (total + sum_of amount ts) (2 ^ width - 1)
total_from-min width amount total [] = omega arith
total_from-min width amount total (none ∷ ts) = total_from-min width amount total ts ∙ omega arith
total_from-min width amount total (some t ∷ ts) =
    let capped : saturating_add width (min total (2 ^ width - 1)) (amount t)
        ≡ min (total + amount t) (2 ^ width - 1) =
      omega arith in
    ap (λ n. total_from width amount n ts) capped
    ∙ total_from-min width amount (total + amount t) ts
    ∙ omega arith

-- The saturating sum is the cut sum.
total_from-zero :
    (width : ℕ) (amount : Text → ℕ) (ts : List (Option Text))
    → total_from width amount 0 ts ≡ min (sum_of amount ts) (2 ^ width - 1)
total_from-zero width amount ts =
    let start : 0 ≡ min 0 (2 ^ width - 1) = omega arith in
    ap (λ n. total_from width amount n ts) start ∙ total_from-min width amount 0 ts ∙ omega arith

same_pod-Decides : Decides same_pod
same_pod-Decides = record {
  sound = λ (a, b) (c, d) h.
      let (first, second) = &&-split (same_text a c) (same_text b d) h in
      ap₂ (λ x y. (x, y)) (same_text-Decides.sound a c first) (same_text-Decides.sound b d second);
  complete = λ (a, b). cc (same_text-Decides.complete a, same_text-Decides.complete b);
}

-- What is inserted is found, and nothing else changes.
find_pod-insert :
    (ns name : Text) (k : Text × Text) (u : ℕ × ℕ) (m : List ((Text × Text) × (ℕ × ℕ)))
    → find_pod ns name (insert same_pod k u m)
      ≡ (if same_pod k (ns, name) then some u else find_pod ns name m)
find_pod-insert ns name k u [] = refl
find_pod-insert ns name k u ((j, w) ∷ m) = elim (Bool-cases (same_pod j k)) [
  | inl e ↦
      rw (e, alike-agree same_pod same_pod-Decides j k (ns, name) e)
        (elim (Bool-cases (same_pod k (ns, name))) [ inl t ↦ rw t refl | inr f ↦ rw f refl ])
  | inr d ↦ rw d (elim (Bool-cases (same_pod j (ns, name))) [
    | inl t ↦ rw (t, not_both same_pod same_pod-Decides j k (ns, name) d t) refl
    | inr f ↦ rw f (find_pod-insert ns name k u m)
  ])
]

abbrev pub or_else {ℓ} : {A : Type ℓ} → Option A → Option A → Option A
or_else none d = d
or_else (some a) d = some a

or_else-if {ℓ} :
    {A : Type ℓ} (o : Option A) (b : Bool) (a : A) (d : Option A)
    → or_else o (if b then some a else d) ≡ or_else (or_else o (if b then some a else none)) d
or_else-if none true a d = refl
or_else-if none false a d = refl
or_else-if (some c) b a d = refl

or_else-none {ℓ} : {A : Type ℓ} (o : Option A) → or_else o none ≡ o
or_else-none none = refl
or_else-none (some a) = refl

blank_differs : (s t : Text) → is_blank t ≡ false → is_blank s ≡ true → same_text s t ≡ false
blank_differs [] [] h k = h
blank_differs [] (c ∷ cs) h k = refl
blank_differs (c ∷ cs) t h k = absurd (cc k)

abbrev pub key_of : PodItem → Text × Text
key_of item = (unwrap_or [] item.namespace, unwrap_or [] item.name)

unnamed_differs :
    (k q : Text × Text)
    → is_blank q.0 ≡ false
    → is_blank q.1 ≡ false
    → (is_blank k.0 || is_blank k.1) ≡ true
    → same_pod k q ≡ false
unnamed_differs (a, b) (ns, name) h k e = elim (Bool-cases (is_blank a)) [
  | inl blank ↦ rw (blank_differs a ns h blank) refl
  | inr full ↦
      let rest : is_blank b ≡ true = rw full at e in rw (blank_differs b name k rest) (ground arith)
]

module _ (bodies : Bodies) where
  -- The sums over the containers, as far as a `u32` and a `u64` hold them.
  abbrev pub capped : PodItem → ℕ × ℕ
  capped item =
      let containers = unwrap_or [] item.containers in
      (
        min (sum_of (parse_metrics_cpu_to_millis bodies.float_millis) (map (λ c. c.cpu) containers))
            (2 ^ 32 - 1),
        min (sum_of parse_quantity_to_bytes (map (λ c. c.memory) containers)) (2 ^ 64 - 1),
      )

  -- What the last item with the name says.
  abbrev pub last_given : Text → Text → List PodItem → Option (ℕ × ℕ)
  last_given ns name [] = none
  last_given ns name (item ∷ items) =
      or_else (last_given ns name items)
        (if same_pod (key_of item) (ns, name) then some (capped item) else none)

  pod_usage-capped : (item : PodItem) → pod_usage bodies item ≡ capped item
  pod_usage-capped item =
      let containers = unwrap_or [] item.containers in
      ap₂ (λ x y. (x, y))
        (total_from-zero 32 (parse_metrics_cpu_to_millis bodies.float_millis)
          (map (λ c. c.cpu) containers))
        (total_from-zero 64 parse_quantity_to_bytes (map (λ c. c.memory) containers))

  module _ (ns name : Text) (in_namespace : is_blank ns ≡ false)
      (is_named : is_blank name ≡ false) where
    find_pod-with_pod :
        (item : PodItem) (m : List ((Text × Text) × (ℕ × ℕ)))
        → find_pod ns name (with_pod bodies item m)
          ≡ (if same_pod (key_of item) (ns, name) then some (capped item) else find_pod ns name m)
    find_pod-with_pod item m =
        elim (Bool-cases (is_blank (key_of item).0 || is_blank (key_of item).1)) [
          | inl unnamed ↦
              rw (unnamed, unnamed_differs (key_of item) (ns, name) in_namespace is_named unnamed)
                refl
          | inr full ↦
              rw (full, sym (pod_usage-capped item))
                (find_pod-insert ns name (key_of item) (pod_usage bodies item) m)
        ]

    find_pod-pods_from :
        (m : List ((Text × Text) × (ℕ × ℕ))) (items : List PodItem)
        → find_pod ns name (pods_from bodies m items)
          ≡ or_else (last_given ns name items) (find_pod ns name m)
    unfolding pods_from
    find_pod-pods_from m [] = refl
    find_pod-pods_from m (item ∷ items) =
        find_pod-pods_from (with_pod bodies item m) items
        ∙ ap (or_else (last_given ns name items)) (find_pod-with_pod item m)
        ∙ or_else-if (last_given ns name items) (same_pod (key_of item) (ns, name)) (capped item)
            (find_pod ns name m)

    -- After a poll whose request for pods was answered, a namespace and name that are not empty
    -- have what the last item of the body with that name gives, summed over its containers and cut
    -- to the types' widths, and nothing where there is no such item.
    pub find_pod-tick_metrics :
        (body : Text) (node_body : Option Text)
        → find_pod ns name (tick_metrics bodies (some body) node_body).pods
          ≡ last_given ns name (unwrap_or [] (bodies.pod_items body))
    unfolding tick_metrics
    find_pod-tick_metrics body node_body =
        let items = unwrap_or [] (bodies.pod_items body) in
        find_pod-pods_from [] items ∙ or_else-none (last_given ns name items)
