-- ===== src/Tui/App/History.antt =====
-- The recent readings of each container (`push_container_history` of
-- crates/muxtop-tui/src/app.rs). A hash map is the function that looks a key up.
pub mod Rings
use mathlib.Core.Bool.{decide}
use muxtop.Base.{
  ℕ, ◌-◌, Bool, true, false, ◌||◌, Option, none, some, List, [], ◌∷◌, ◌++◌, leb, length, drop,
  if◌then◌else◌,
}
use muxtop.Core.Process.{Text}
use muxtop.Core.Network.{Text-discrete}
use muxtop.Core.Containers.{ContainerSnapshot, ContainersSnapshot}

abbrev pub same : Text → Text → Bool
same a b = decide (Text-discrete a b)

abbrev pub HashMap : Type 0 → Type 0
HashMap V = Text → Option V

abbrev pub insert : {V : Type 0} → Text → V → HashMap V → HashMap V
insert key value m = λ k. if same k key then some value else m k

abbrev pub or_default : {A : Type 0} → Option (List A) → List A
or_default none = []
or_default (some xs) = xs

-- `CONTAINER_HISTORY_LEN`.
abbrev pub container_history_len : ℕ
container_history_len = 60

-- A ring of the last readings.
unfoldable pub push_back : {A : Type 0} → A → List A → List A
push_back value ring =
    (if leb container_history_len (length ring) then drop 1 ring else ring) ++ (value ∷ [])

pub record ContainerHistory (F32 : Type 0) : Type 0 where
  pub cpu_hist : HashMap (List F32)
  pub rx_last : HashMap ℕ
  pub rx_hist : HashMap (List ℕ)

abbrev pub no_history : {F32 : Type 0} → ContainerHistory F32
no_history = record { cpu_hist = λ k. none; rx_last = λ k. none; rx_hist = λ k. none }

abbrev pub delta_from : ℕ → Option ℕ → ℕ
delta_from now none = 0
delta_from now (some prev) = now - prev

abbrev pub drop_missing : {V : Type 0} → (Text → Bool) → HashMap V → HashMap V
drop_missing kept m = λ k. if kept k then m k else none

module _ {F32 : Type 0} where
  -- One turn of the loop.
  unfoldable pub push_container :
      ContainerSnapshot F32 → ContainerHistory F32 → ContainerHistory F32
  unfolding push_back
  push_container c h = record {
    cpu_hist = insert c.id (push_back c.cpu_pct (or_default (h.cpu_hist c.id))) h.cpu_hist;
    rx_last = insert c.id c.net_rx_bytes h.rx_last;
    rx_hist =
        insert c.id
          (push_back (delta_from c.net_rx_bytes (h.rx_last c.id)) (or_default (h.rx_hist c.id)))
          h.rx_hist;
  }

  unfoldable pub push_all :
      List (ContainerSnapshot F32) → ContainerHistory F32 → ContainerHistory F32
  unfolding push_container
  push_all [] h = h
  push_all (c ∷ cs) h = push_all cs (push_container c h)

  abbrev pub seen : List (ContainerSnapshot F32) → Text → Bool
  seen [] k = false
  seen (c ∷ cs) k = same k c.id || seen cs k

  unfoldable pub push_container_history :
      ContainersSnapshot F32 → ContainerHistory F32 → ContainerHistory F32
  unfolding push_all
  push_container_history cs h =
      let pushed = push_all cs.containers h in
      record {
        cpu_hist = drop_missing (seen cs.containers) pushed.cpu_hist;
        rx_last = drop_missing (seen cs.containers) pushed.rx_last;
        rx_hist = drop_missing (seen cs.containers) pushed.rx_hist;
      }

  unfoldable pub container_cpu_history : Text → ContainerHistory F32 → List F32
  container_cpu_history id h = or_default (h.cpu_hist id)

  unfoldable pub container_rx_deltas : Text → ContainerHistory F32 → List ℕ
  container_rx_deltas id h = or_default (h.rx_hist id)
