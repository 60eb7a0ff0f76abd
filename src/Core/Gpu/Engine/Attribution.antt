-- ===== src/Core/Gpu/Engine/Attribution.antt =====
-- The cards that processes run on, through the merge of all backends
-- (crates/muxtop-core/src/gpu_engine.rs).
use mathlib.Core.List.{append_assoc, map-append, append-nil}
use muxtop.Base.{
  ℕ, ◌+◌, ◌%◌, ◌^◌, ◌<◌, ◌≡◌, sym, subst, ap, ap₂, ◌∙◌, Bool, true, false, List, [], ◌∷◌, ◌++◌, map,
  Result, ok, err, if◌then◌else◌, length, All, arith, length-append,
}
use muxtop.Core.Process.{Text}
use muxtop.Core.Gpu.{GpusSnapshot, gpus_unavailable}
use muxtop.Core.Gpu.Engine.{
  GpuError, renumbered, moved, absorbed, failed_with, merge_readings, snapshot, to_string,
}
use muxtop.Core.Gpu.Engine.Owners.{
  IsNumbered, IsSound, IsSoundReading, owner, owners, all_owners, count, length-map,
  IsNumbered-append, renumbered-IsNumbered, owners-before, owners-moved, both-AreOn,
}

small : (n : ℕ) → n < 2 ^ 32 → n % 2 ^ 32 ≡ n
small n h = omega arith

module _ {F32 : Type 0} where
  absorbed-IsSound :
      (m s : GpusSnapshot F32)
      → IsSound m
      → IsSound s
      → length m.devices + length s.devices < 2 ^ 32
      → IsSound (absorbed m s)
  absorbed-IsSound m s (hm, pm) (hs, ps) b =
      let o = length m.devices % 2 ^ 32 in
      let e = small (length m.devices) (omega arith) in
      (
        IsNumbered-append 0 m.devices (map (renumbered o) s.devices) hm (
            subst (λ k. IsNumbered k (map (renumbered o) s.devices)) (omega (arith, e))
              (renumbered-IsNumbered o 0 s.devices hs (omega (arith, e)))),
        both-AreOn m.devices s.devices o m.processes s.processes pm ps e,
      )

  absorbed-owners :
      (m s : GpusSnapshot F32)
      → IsSound m
      → IsSound s
      → length m.devices + length s.devices < 2 ^ 32
      → owners (absorbed m s) ≡ owners m ++ owners s
  absorbed-owners m s (hm, pm) (hs, ps) b =
      let o = length m.devices % 2 ^ 32 in
      let e = small (length m.devices) (omega arith) in
      map-append (owner (m.devices ++ map (renumbered o) s.devices)) m.processes
        (map (moved o) s.processes)
      ∙ ap₂ (λ a b. a ++ b) (owners-before m.devices s.devices o m.processes pm)
          (owners-moved m.devices s.devices o s.processes ps e (omega arith))

  abbrev KeepsOwners :
      List (Result GpuError (GpusSnapshot F32)) → GpusSnapshot F32 → GpusSnapshot F32 → Type 0
  KeepsOwners readings m r = (owners r ≡ owners m ++ all_owners readings) × IsSound r

  -- The same after one more reading, taken or passed over.
  absorbed-KeepsOwners :
      (available : Bool) (m s : GpusSnapshot F32)
      (readings : List (Result GpuError (GpusSnapshot F32))) (failures others : List Text)
      → IsSound m
      → IsSound s
      → length m.devices + (length s.devices + count readings) < 2 ^ 32
      → ((m' : GpusSnapshot F32) (fs : List Text)
          → IsSound m'
          → length m'.devices + count readings < 2 ^ 32
          → KeepsOwners readings m' (merge_readings readings m' fs).0)
      → let r =
          (merge_readings readings
            (if available then absorbed m s else m)
            (if available then failures else others)).0 in
        (owners r
          ≡ owners m
            ++ (if available then owners s ++ all_owners readings else all_owners readings))
        × IsSound r
  absorbed-KeepsOwners true m s readings failures others hm hs b tail =
      let devices = map (renumbered (length m.devices % 2 ^ 32)) s.devices in
      let same = length-map (renumbered (length m.devices % 2 ^ 32)) s.devices in
      let rest =
        tail (absorbed m s) failures (absorbed-IsSound m s hm hs (omega arith))
          (omega (arith, length-append m.devices devices, same)) in
      (
        rest.0
            ∙ ap (λ x. x ++ all_owners readings) (absorbed-owners m s hm hs (omega arith))
            ∙ append_assoc (owners m) (owners s) (all_owners readings),
        rest.1,
      )
  absorbed-KeepsOwners false m s readings failures others hm hs b tail =
      tail m others hm (omega arith)

  merge_readings-KeepsOwners :
      (readings : List (Result GpuError (GpusSnapshot F32))) (m : GpusSnapshot F32)
      (failures : List Text)
      → IsSound m
      → All IsSoundReading readings
      → length m.devices + count readings < 2 ^ 32
      → KeepsOwners readings m (merge_readings readings m failures).0
  unfolding merge_readings
  merge_readings-KeepsOwners [] m failures hm h b = (sym (append-nil (owners m)), hm)
  merge_readings-KeepsOwners (err e ∷ readings) m failures hm (h, hs) b =
      merge_readings-KeepsOwners readings m (failures ++ to_string e ∷ []) hm hs b
  merge_readings-KeepsOwners (ok s ∷ readings) m failures hm (h, hs) b =
      absorbed-KeepsOwners s.available m s readings failures (failed_with failures s.detail) hm h b
        (λ m' fs hm' b'. merge_readings-KeepsOwners readings m' fs hm' hs b')

  -- If every backend numbers its devices from 0 on and lists processes on them only, and there are
  -- fewer than 2^32 devices, then the devices of the merged snapshot are numbered from 0 on, its
  -- processes are on them, and the processes are those of the available backends, in order, each on
  -- the card that its backend has it on.
  pub snapshot-owners :
      (readings : List (Result GpuError (GpusSnapshot F32)))
      → All IsSoundReading readings
      → count readings < 2 ^ 32
      → (owners (snapshot readings) ≡ all_owners readings) × IsSound (snapshot readings)
  unfolding snapshot gpus_unavailable
  snapshot-owners readings h b =
      merge_readings-KeepsOwners readings gpus_unavailable [] (tt, tt) h (omega (arith, b))
