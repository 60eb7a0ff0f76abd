-- ===== src/Core/Collector/Shutdown.antt =====
-- The end of the collector (crates/muxtop-core/src/collector.rs).
use muxtop.Base.{
  ◌≡◌, refl, ap, ◌∙◌, Bool, true, false, not, ◌&&◌, ◌||◌, Bool-cases, if_ind, inl, inr, List, [],
  ◌∷◌, arith, if◌then◌else◌,
}
use muxtop.Core.System.{SystemSnapshot}
use muxtop.Core.System.Collect.{Numbers, collect}
use muxtop.Core.Collector.{
  Send, delivered, full, closed, Loop, Event, tick, containers_polled, kube_polled, gpu_polled,
  cancelled, Collecting, emit, step, run, is_none, is_over,
}

abbrev same : Loop → Loop → Bool
same Loop.system Loop.system = true
same Loop.containers Loop.containers = true
same Loop.kube Loop.kube = true
same Loop.gpu Loop.gpu = true
same a b = false

-- The cancellation reaches the loop.
abbrev pub cancels : {F32 F64 : Type 0} → Loop → List (Event F32 F64) → Bool
cancels loop [] = false
cancels loop (cancelled l ∷ es) = same loop l || cancels loop es
cancels loop (e ∷ es) = cancels loop es

if_false : {A : Type 0} (b : Bool) (x y : A) → b ≡ false → (if b then x else y) ≡ y
if_false b x y h = rw h refl

not-true : (b : Bool) → not b ≡ true → b ≡ false
not-true b h = ground arith

all_down :
    (a b c d : Bool) → a ≡ true → b ≡ true → c ≡ true → d ≡ true → (a && (b && (c && d))) ≡ true
all_down a b c d ha hb hc hd = ground arith

same_eq : (l m : Loop) → same m l ≡ true → m ≡ l
same_eq l m h = ground arith

module _ (numbers : Numbers) where
  open numbers use {F32, F64}

  abbrev is_down : Loop → Collecting F32 F64 → Bool
  is_down Loop.system s = not s.system_loop
  is_down Loop.containers s = is_none numbers s.container_loop
  is_down Loop.kube s = not s.cluster_loop
  is_down Loop.gpu s = not s.gpu_loop

  emit-is_down :
      (loop : Loop) (send : Send) (snapshot : SystemSnapshot F32 F64) (s : Collecting F32 F64)
      → is_down loop s ≡ true
      → is_down loop (emit numbers send snapshot s) ≡ true
  emit-is_down loop delivered snapshot s h = ground arith
  emit-is_down loop full snapshot s h = h
  emit-is_down loop closed snapshot s h = ground arith

  stop-is_down :
      (loop l : Loop) (s : Collecting F32 F64)
      → is_down loop s ≡ true
      → is_down loop (step numbers (cancelled l) s) ≡ true
  unfolding step
  stop-is_down loop l s h = ground arith

  step-is_down :
      (loop : Loop) (e : Event F32 F64) (s : Collecting F32 F64)
      → is_down loop s ≡ true
      → is_down loop (step numbers e s) ≡ true
  unfolding step
  step-is_down loop (tick sys send) s h =
      if_ind (λ x. is_down loop x ≡ true) s.system_loop
        (emit-is_down loop send (collect numbers sys s.last_containers s.last_kube s.last_gpu) s h)
        h
  step-is_down loop (containers_polled r) s h = ground arith
  step-is_down loop (kube_polled r) s h = ground arith
  step-is_down loop (gpu_polled r) s h = ground arith
  step-is_down loop (cancelled l) s h = stop-is_down loop l s h

  cancelled-is_down :
      (loop : Loop) (s : Collecting F32 F64) → is_down loop (step numbers (cancelled loop) s) ≡ true
  unfolding step
  cancelled-is_down loop s = ground arith

  run-is_down :
      (loop : Loop) (es : List (Event F32 F64)) (s : Collecting F32 F64)
      → is_down loop s ≡ true
      → is_down loop (run numbers es s) ≡ true
  unfolding run
  run-is_down loop [] s h = h
  run-is_down loop (e ∷ es) s h = run-is_down loop es (step numbers e s) (step-is_down loop e s h)

  cancels-is_down :
      (loop : Loop) (es : List (Event F32 F64)) (s : Collecting F32 F64)
      → cancels loop es ≡ true
      → is_down loop (run numbers es s) ≡ true
  unfolding run
  cancels-is_down loop [] s h = absurd (ground arith)
  cancels-is_down loop (cancelled l ∷ es) s h = elim (Bool-cases (same loop l)) [
    | inl e ↦
        run-is_down loop es (step numbers (cancelled l) s)
          (rw (same_eq l loop e) (cancelled-is_down l s))
    | inr n ↦ cancels-is_down loop es (step numbers (cancelled l) s) (rw n at h)
  ]
  cancels-is_down loop (tick sys send ∷ es) s h =
      cancels-is_down loop es (step numbers (tick sys send) s) h
  cancels-is_down loop (containers_polled r ∷ es) s h =
      cancels-is_down loop es (step numbers (containers_polled r) s) h
  cancels-is_down loop (kube_polled r ∷ es) s h =
      cancels-is_down loop es (step numbers (kube_polled r) s) h
  cancels-is_down loop (gpu_polled r ∷ es) s h =
      cancels-is_down loop es (step numbers (gpu_polled r) s) h

  stop-sent :
      (l : Loop) (s : Collecting F32 F64)
      → s.system_loop ≡ false
      → let t = step numbers (cancelled l) s in (t.sent ≡ s.sent) × (t.system_loop ≡ false)
  unfolding step
  stop-sent Loop.system s h = (refl, refl)
  stop-sent Loop.containers s h = (refl, h)
  stop-sent Loop.kube s h = (refl, h)
  stop-sent Loop.gpu s h = (refl, h)

  step-sent :
      (e : Event F32 F64) (s : Collecting F32 F64)
      → s.system_loop ≡ false
      → ((step numbers e s).sent ≡ s.sent) × ((step numbers e s).system_loop ≡ false)
  unfolding step
  step-sent (tick sys send) s h = (
    ap (λ t. t.sent) (if_false s.system_loop _ s h),
    ap (λ t. t.system_loop) (if_false s.system_loop _ s h) ∙ h,
  )
  step-sent (containers_polled r) s h = (refl, h)
  step-sent (kube_polled r) s h = (refl, h)
  step-sent (gpu_polled r) s h = (refl, h)
  step-sent (cancelled l) s h = stop-sent l s h

  run-sent :
      (es : List (Event F32 F64)) (s : Collecting F32 F64)
      → s.system_loop ≡ false
      → (run numbers es s).sent ≡ s.sent
  unfolding run
  run-sent [] s h = refl
  run-sent (e ∷ es) s h =
      let (same_sent, still) = step-sent e s h in run-sent es (step numbers e s) still ∙ same_sent

  -- Once the cancellation has reached every loop, in whatever order and between whatever else, the
  -- collector is over, stays over and sends nothing more.
  pub run_over :
      (es more : List (Event F32 F64)) (s : Collecting F32 F64)
      → ((loop : Loop) → cancels loop es ≡ true)
      → (is_over numbers (run numbers more (run numbers es s)) ≡ true)
        × ((run numbers more (run numbers es s)).sent ≡ (run numbers es s).sent)
  run_over es more s h =
      let down = λ (loop : Loop). cancels-is_down loop es s (h loop) in
      let later = λ (loop : Loop). run-is_down loop more (run numbers es s) (down loop) in
      (
        all_down _ _ _ _ (later Loop.system) (later Loop.containers) (later Loop.kube)
            (later Loop.gpu),
        run-sent more (run numbers es s) (not-true _ (down Loop.system)),
      )
