-- ===== src/Core/Network/Spark.antt =====
-- The sparkline against the differences of neighbours (crates/muxtop-core/src/network.rs).
use muxtop.Base.{
  ℕ, zero, suc, ◌+◌, ◌-◌, ◌≤◌, ◌≡◌, min, refl, sym, ◌∙◌, ap, some, List, [], ◌∷◌, arith, length,
  drop, Bool-cases, inl, inr, get_elem?, ltb, ltb→le, ltb→lt, ◌==◌, ==_iff,
}
use muxtop.Core.Process.{Text}
use muxtop.Core.Process.Tree.Unvisited.{get_elem?-of_lt}
use muxtop.Core.Network.{
  NetworkInterfaceSnapshot, TimestampedSnapshot, NetworkHistory, iface_value, deltas_from,
  sparkline,
}
use muxtop.Core.Network.Window.{last_of}

module _ (extract : NetworkInterfaceSnapshot → ℕ) (iface : Text) where
  -- The growth of the counter from one sample to the next; a counter that was reset grows by 0.
  abbrev pub delta : TimestampedSnapshot → TimestampedSnapshot → ℕ
  delta prev curr = iface_value extract iface curr - iface_value extract iface prev

  abbrev pub deltas_after : TimestampedSnapshot → List TimestampedSnapshot → List ℕ
  deltas_after prev [] = []
  deltas_after prev (curr ∷ rest) = delta prev curr ∷ deltas_after curr rest

  -- The differences of neighbouring samples.
  abbrev pub deltas : List TimestampedSnapshot → List ℕ
  deltas [] = []
  deltas (s ∷ ss) = deltas_after s ss

  length-deltas_after :
      (s : TimestampedSnapshot) (ss : List TimestampedSnapshot)
      → length (deltas_after s ss) ≡ length ss
  length-deltas_after s [] = refl
  length-deltas_after s (t ∷ ts) = ap suc (length-deltas_after t ts)

  length-deltas : (ss : List TimestampedSnapshot) → length (deltas ss) ≡ length ss - 1
  length-deltas [] = omega arith
  length-deltas (s ∷ ss) = omega (arith, length-deltas_after s ss)

  drop_all : (n : ℕ) (xs : List ℕ) → length xs ≤ n → drop n xs ≡ []
  drop_all zero [] h = refl
  drop_all zero (x ∷ xs) h = absurd (omega arith)
  drop_all (suc n) [] h = refl
  drop_all (suc n) (x ∷ xs) h = drop_all n xs (omega arith)

  drop-none : (xs : List ℕ) (points : ℕ) → length xs ≡ 0 → last_of points xs ≡ []
  drop-none [] points h = drop_all (0 - points) [] (omega arith)
  drop-none (x ∷ xs) points h = absurd (omega arith)

  -- One step of the loop.
  drop-deltas_after :
      (s : TimestampedSnapshot) (ss : List TimestampedSnapshot) (i : ℕ) (a b : TimestampedSnapshot)
      → get_elem? (s ∷ ss) i ≡ some a
      → get_elem? ss i ≡ some b
      → drop i (deltas_after s ss) ≡ delta a b ∷ drop (suc i) (deltas_after s ss)
  drop-deltas_after s [] i a b h k = absurd (cc k)
  drop-deltas_after s (t ∷ ts) zero a b h k = cc (h, k)
  drop-deltas_after s (t ∷ ts) (suc i) a b h k = drop-deltas_after t ts i a b h k

  deltas_from-deltas :
      (ss : List TimestampedSnapshot) (n i : ℕ)
      → i + n + 1 ≡ length ss
      → deltas_from extract iface ss n i ≡ some (drop i (deltas ss))
  unfolding deltas_from
  deltas_from-deltas ss zero i h =
      ap (λ ds. some ds) (sym (drop_all i (deltas ss) (omega (arith, length-deltas ss))))
  deltas_from-deltas [] (suc n) i h = absurd (omega arith)
  deltas_from-deltas (s ∷ ss) (suc n) i h =
      let (a, ha) = get_elem?-of_lt (s ∷ ss) i (omega arith) in
      let (b, hb) = get_elem?-of_lt ss i (omega arith) in
      let next : i + 1 ≡ suc i = omega arith in
      rw ha (
        rw next (
          rw hb (
            rw (deltas_from-deltas (s ∷ ss) n (suc i) (omega arith))
              (ap (λ ds. some ds) (sym (drop-deltas_after s ss i a b ha hb))))))

  -- The sparkline never indexes outside of the history, and it is the last differences of
  -- neighbouring samples, as many as asked for.
  pub sparkline-eq_last_of :
      (points : ℕ) (h : NetworkHistory)
      → sparkline extract iface points h ≡ some (last_of points (deltas h.samples))
  unfolding sparkline
  sparkline-eq_last_of points h =
      let len = length-deltas h.samples in
      elim (Bool-cases (ltb (length h.samples) 2)) [
        | inl e ↦
            let few = ltb→lt (length h.samples) 2 e in
            rw e (ap (λ ds. some ds) (sym (drop-none (deltas h.samples) points (omega arith))))
        | inr e ↦
            let enough = ltb→le (length h.samples) 2 e in
            rw e (elim (Bool-cases (points == 0)) [
              | inl z ↦
                  let no_points = (==_iff points 0).0 z in
                  rw z (
                    ap (λ ds. some ds)
                      (sym (
                        drop_all (length (deltas h.samples) - points) (deltas h.samples)
                          (omega arith))))
              | inr z ↦
                  let start : length h.samples - min points (length h.samples - 1) - 1
                      ≡ length (deltas h.samples) - points =
                    omega arith in
                  rw z (
                    deltas_from-deltas h.samples (min points (length h.samples - 1)) _ (omega arith)
                    ∙ ap (λ k. some (drop k (deltas h.samples))) start)
            ])
      ]
