-- ===== src/Tui/App/History/Rings.antt =====
-- What the container histories keep (crates/muxtop-tui/src/app.rs).
use muxtop.Base.{
  ◌≤◌, ◌≡◌, Bool, false, List, [], ◌∷◌, leb, leb→lt, length, drop, if_ind, inl, inr, Bool-cases,
  arith, length-append, length-drop,
}
use muxtop.Core.Process.{Text}
use muxtop.Core.Containers.{ContainerSnapshot, ContainersSnapshot}
use muxtop.Tui.App.History.{
  HashMap, same, insert, or_default, push_back, ContainerHistory, push_container, push_all, seen,
  drop_missing, push_container_history, container_cpu_history, container_rx_deltas,
}

push_back-bound :
    {A : Type 0} (value : A) (ring : List A) → length ring ≤ 60 → length (push_back value ring) ≤ 60
unfolding push_back
push_back-bound value ring h = elim (Bool-cases (leb 60 (length ring))) [
  | inl e ↦
      rw e (rw (length-append (drop 1 ring) (value ∷ [])) (rw (length-drop 1 ring) (omega arith)))
  | inr e ↦
      let small = leb→lt 60 (length ring) e in
      rw e (rw (length-append ring (value ∷ [])) (omega arith))
]

-- Every list of a map has at most 60 elements.
abbrev pub IsShort : {A : Type 0} → HashMap (List A) → Type 0
IsShort m = (k : Text) → length (or_default (m k)) ≤ 60

insert-IsShort :
    {A : Type 0} (key : Text) (ring : List A) (m : HashMap (List A))
    → length ring ≤ 60
    → IsShort m
    → IsShort (insert key ring m)
insert-IsShort key ring m h hs k = if_ind (λ o. length (or_default o) ≤ 60) (same k key) h (hs k)

drop_missing-IsShort :
    {A : Type 0} (kept : Text → Bool) (m : HashMap (List A))
    → IsShort m
    → IsShort (drop_missing kept m)
drop_missing-IsShort kept m hs k =
    if_ind (λ o. length (or_default o) ≤ 60) (kept k) (hs k) (omega arith)

module _ {F32 : Type 0} where
  unfoldable pub IsBounded : ContainerHistory F32 → Type 0
  IsBounded h = IsShort h.cpu_hist × IsShort h.rx_hist

  push_container-IsBounded :
      (c : ContainerSnapshot F32) (h : ContainerHistory F32)
      → IsBounded h
      → IsBounded (push_container c h)
  unfolding push_container IsBounded
  push_container-IsBounded c h (hc, hr) = (
    insert-IsShort c.id _ h.cpu_hist (push_back-bound c.cpu_pct _ (hc c.id)) hc,
    insert-IsShort c.id _ h.rx_hist (push_back-bound _ _ (hr c.id)) hr,
  )

  push_all-IsBounded :
      (cs : List (ContainerSnapshot F32)) (h : ContainerHistory F32)
      → IsBounded h
      → IsBounded (push_all cs h)
  unfolding push_all
  push_all-IsBounded [] h hb = hb
  push_all-IsBounded (c ∷ cs) h hb = push_all-IsBounded cs _ (push_container-IsBounded c h hb)

  -- Histories whose rings hold at most 60 readings still do after a snapshot, and a container that
  -- the snapshot does not have is left with neither history.
  pub push_container_history-IsBounded :
      (cs : ContainersSnapshot F32) (h : ContainerHistory F32)
      → IsBounded h
      → IsBounded (push_container_history cs h)
        × ((k : Text)
            → seen cs.containers k ≡ false
            → (container_cpu_history k (push_container_history cs h) ≡ [])
              × (container_rx_deltas k (push_container_history cs h) ≡ []))
  unfolding push_container_history container_cpu_history container_rx_deltas IsBounded
  push_container_history-IsBounded cs h hb =
      let (hc, hr) = push_all-IsBounded cs.containers h hb in
      (
        (
          drop_missing-IsShort (seen cs.containers) (push_all cs.containers h).cpu_hist hc,
          drop_missing-IsShort (seen cs.containers) (push_all cs.containers h).rx_hist hr,
        ),
        λ k e. (rw e, rw e),
      )
