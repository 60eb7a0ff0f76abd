-- ===== src/Core/Collector/Fresh.antt =====
-- Snapshots carry the latest polls (crates/muxtop-core/src/collector.rs).
use muxtop.Base.{
  ◌≡◌, refl, subst, if_ind, ap, ◌∙◌, Bool, true, false, Option, some, List, [], ◌∷◌, ◌++◌, Result,
  if◌then◌else◌, All,
}
use muxtop.Core.Containers.{EngineKind, ContainerSnapshot, ContainersSnapshot}
use muxtop.Core.Kube.{KubeSnapshot}
use muxtop.Core.Gpu.{GpusSnapshot}
use muxtop.Core.Gpu.Engine.{GpuError}
use muxtop.Core.Engines.{EngineError, ClusterError}
use muxtop.Core.System.{SystemSnapshot}
use muxtop.Core.System.Collect.{Numbers, Readings, collect}
use muxtop.Core.Collector.{
  Send, delivered, full, closed, Loop, Event, tick, containers_polled, kube_polled, gpu_polled,
  cancelled, Collecting, containers_of, gpu_of, kube_of, published, emit, ticked, step, run,
}

-- The event is no poll of the loop.
abbrev pub is_quiet : {F32 F64 : Type 0} → Loop → Event F32 F64 → Bool
is_quiet Loop.containers (containers_polled r) = false
is_quiet Loop.kube (kube_polled r) = false
is_quiet Loop.gpu (gpu_polled r) = false
is_quiet loop e = true

if_true : {A : Type 0} (b : Bool) (x y : A) → b ≡ true → (if b then x else y) ≡ x
if_true b x y h = rw h refl

module _ (numbers : Numbers) where
  open numbers use {F32, F64}

  -- The slots, and what the system loop reads of them.
  abbrev pub Slots : Type 0
  Slots = Option (ContainersSnapshot F32) × Option KubeSnapshot × Option (GpusSnapshot F32)

  abbrev pub slots : Collecting F32 F64 → Slots
  slots s = (s.last_containers, s.last_kube, s.last_gpu)

  emit-slots :
      (send : Send) (snapshot : SystemSnapshot F32 F64) (s : Collecting F32 F64)
      → slots (emit numbers send snapshot s) ≡ slots s
  emit-slots delivered snapshot s = refl
  emit-slots full snapshot s = refl
  emit-slots closed snapshot s = refl

  ticked-slots :
      (sys : Readings F32 F64) (send : Send) (s : Collecting F32 F64)
      → slots (ticked numbers sys send s) ≡ slots s
  ticked-slots sys send s =
      if_ind (λ x. slots x ≡ slots s) s.system_loop
        (emit-slots send (collect numbers sys s.last_containers s.last_kube s.last_gpu) s) refl

  stop-slots :
      (loop : Loop) (s : Collecting F32 F64) → slots (step numbers (cancelled loop) s) ≡ slots s
  unfolding step
  stop-slots Loop.system s = refl
  stop-slots Loop.containers s = refl
  stop-slots Loop.kube s = refl
  stop-slots Loop.gpu s = refl

  step_containers :
      (e : Event F32 F64) (s : Collecting F32 F64)
      → is_quiet Loop.containers e ≡ true
      → (step numbers e s).last_containers ≡ s.last_containers
  unfolding step
  step_containers (tick sys send) s q = ap (λ x. x.0) (ticked-slots sys send s)
  step_containers (containers_polled r) s q = absurd (cc q)
  step_containers (kube_polled r) s q = refl
  step_containers (gpu_polled r) s q = refl
  step_containers (cancelled loop) s q = ap (λ x. x.0) (stop-slots loop s)

  step_kube :
      (e : Event F32 F64) (s : Collecting F32 F64)
      → is_quiet Loop.kube e ≡ true
      → (step numbers e s).last_kube ≡ s.last_kube
  unfolding step
  step_kube (tick sys send) s q = ap (λ x. x.1) (ticked-slots sys send s)
  step_kube (containers_polled r) s q = refl
  step_kube (kube_polled r) s q = absurd (cc q)
  step_kube (gpu_polled r) s q = refl
  step_kube (cancelled loop) s q = ap (λ x. x.1) (stop-slots loop s)

  step_gpu :
      (e : Event F32 F64) (s : Collecting F32 F64)
      → is_quiet Loop.gpu e ≡ true
      → (step numbers e s).last_gpu ≡ s.last_gpu
  unfolding step
  step_gpu (tick sys send) s q = ap (λ x. x.2) (ticked-slots sys send s)
  step_gpu (containers_polled r) s q = refl
  step_gpu (kube_polled r) s q = refl
  step_gpu (gpu_polled r) s q = absurd (cc q)
  step_gpu (cancelled loop) s q = ap (λ x. x.2) (stop-slots loop s)

  -- What a quiet event keeps, a quiet run keeps.
  run_keeps :
      {A : Type 0} (loop : Loop) (slot : Collecting F32 F64 → A)
      → ((e : Event F32 F64) (s : Collecting F32 F64)
          → is_quiet loop e ≡ true
          → slot (step numbers e s) ≡ slot s)
      → (es : List (Event F32 F64)) (s : Collecting F32 F64) → All (λ e. is_quiet loop e ≡ true) es
      → slot (run numbers es s) ≡ slot s
  unfolding run
  run_keeps loop slot keep [] s q = refl
  run_keeps loop slot keep (e ∷ es) s (q, qs) =
      run_keeps loop slot keep es (step numbers e s) qs ∙ keep e s q

  -- A tick sends a snapshot of the readings with these.
  abbrev pub Emits : Collecting F32 F64 → Slots → Type 0
  Emits s (containers, kube, gpu) =
      (sys : Readings F32 F64)
      → (step numbers (tick sys delivered) s).sent
        ≡ s.sent ++ collect numbers sys containers kube gpu ∷ []

  running-Emits : (s : Collecting F32 F64) → s.system_loop ≡ true → Emits s (slots s)
  unfolding step
  running-Emits s on sys = ap (λ t. t.sent) (if_true s.system_loop _ s on)

  -- A poll of a loop that runs.
  pub data IsPoll (s : Collecting F32 F64) : Loop → Event F32 F64 → Type 0 where
    of_containers :
        (kind : EngineKind) (r : Result EngineError (List (ContainerSnapshot F32)))
        → s.container_loop ≡ some kind
        → IsPoll s Loop.containers (containers_polled r)
    of_kube :
        (r : Result ClusterError KubeSnapshot)
        → s.cluster_loop ≡ true
        → IsPoll s Loop.kube (kube_polled r)
    of_gpu :
        (r : Result GpuError (GpusSnapshot F32))
        → s.gpu_loop ≡ true
        → IsPoll s Loop.gpu (gpu_polled r)

  -- The result of the poll, a failure as the unavailable snapshot, beside the other slots.
  abbrev pub with_poll :
      {s : Collecting F32 F64} {loop : Loop} {e : Event F32 F64}
      → IsPoll s loop e
      → Collecting F32 F64
      → Slots
  with_poll (of_containers kind r h) t = (some (containers_of kind r), t.last_kube, t.last_gpu)
  with_poll (of_kube r h) t = (t.last_containers, some (kube_of r), t.last_gpu)
  with_poll (of_gpu r h) t = (t.last_containers, t.last_kube, some (gpu_of r))

  -- The result of a poll, a failure as the unavailable snapshot, is what the ticks send until the
  -- next poll of its loop, whatever else happens and in whatever order, while the system loop runs.
  pub run-Emits :
      (s : Collecting F32 F64) {loop : Loop} {e : Event F32 F64} (poll : IsPoll s loop e)
      (es : List (Event F32 F64))
      → All (λ x. is_quiet loop x ≡ true) es
      → (run numbers (e ∷ es) s).system_loop ≡ true
      → Emits (run numbers (e ∷ es) s) (with_poll poll (run numbers (e ∷ es) s))
  unfolding run step
  run-Emits s (of_containers kind r h) es q on =
      let t = run numbers es (step numbers (containers_polled r) s) in
      let now =
        run_keeps Loop.containers (λ x. x.last_containers) step_containers es _ q
        ∙ ap (λ c. published numbers c r s.last_containers) h in
      subst (λ c. Emits t (c, t.last_kube, t.last_gpu)) now (running-Emits t on)
  run-Emits s (of_kube r h) es q on =
      let t = run numbers es (step numbers (kube_polled r) s) in
      let now = run_keeps Loop.kube (λ x. x.last_kube) step_kube es _ q ∙ if_true _ _ _ h in
      subst (λ c. Emits t (t.last_containers, c, t.last_gpu)) now (running-Emits t on)
  run-Emits s (of_gpu r h) es q on =
      let t = run numbers es (step numbers (gpu_polled r) s) in
      let now = run_keeps Loop.gpu (λ x. x.last_gpu) step_gpu es _ q ∙ if_true _ _ _ h in
      subst (λ c. Emits t (t.last_containers, t.last_kube, c)) now (running-Emits t on)
