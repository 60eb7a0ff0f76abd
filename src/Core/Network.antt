-- ===== src/Core/Network.antt =====
-- Network snapshots and their history (crates/muxtop-core/src/network.rs).
--
-- A `u64` sum saturates. Instants are nanoseconds, the instant of a call is an argument, and an
-- index out of range, a panic, is `none`. What `sysinfo` reports of an interface is a record.
pub mod Totals
pub mod Window
pub mod Spark
pub mod Examples
use mathlib.Core.Bool.{decide}
use native.Mathlib.Decide.{ℕ_discrete}
use muxtop.Core.Process.{Text}
use muxtop.Base.{
  ℕ, zero, suc, ◌+◌, ◌-◌, ◌^◌, min, max, Bool, ◌||◌, Option, none, some, List, [], ◌∷◌, ◌++◌, ltb,
  leb, ◌==◌, if◌then◌else◌, length, get_elem?, drop,
}

unfoldable pub Text-discrete : Discrete Text
unfolding ℕ_discrete
Text-discrete = hlevel ℕ_discrete

pub record NetworkInterfaceSnapshot : Type 0 where
  pub name : Text
  pub bytes_rx : ℕ
  pub bytes_tx : ℕ
  pub packets_rx : ℕ
  pub packets_tx : ℕ
  pub errors_rx : ℕ
  pub errors_tx : ℕ
  pub mac_address : Text
  pub is_up : Bool

pub record NetworkSnapshot : Type 0 where
  pub interfaces : List NetworkInterfaceSnapshot
  pub total_rx : ℕ
  pub total_tx : ℕ

-- The readings of one interface, as `sysinfo::Networks` gives them.
pub record NetworkData : Type 0 where
  pub name : Text
  pub total_received : ℕ
  pub total_transmitted : ℕ
  pub total_packets_received : ℕ
  pub total_packets_transmitted : ℕ
  pub total_errors_on_received : ℕ
  pub total_errors_on_transmitted : ℕ
  pub mac_address : Text

abbrev pub saturating_add : ℕ → ℕ → ℕ
saturating_add a b = min (a + b) (2 ^ 64 - 1)

abbrev pub interface_of : NetworkData → NetworkInterfaceSnapshot
interface_of d = record {
  name = d.name;
  bytes_rx = d.total_received;
  bytes_tx = d.total_transmitted;
  packets_rx = d.total_packets_received;
  packets_tx = d.total_packets_transmitted;
  errors_rx = d.total_errors_on_received;
  errors_tx = d.total_errors_on_transmitted;
  mac_address = d.mac_address;
  is_up = ltb 0 d.total_received || ltb 0 d.total_transmitted;
}

-- The pass over the interfaces, which carries the two totals.
unfoldable pub collect_from : ℕ → ℕ → List NetworkData → NetworkSnapshot
collect_from rx tx [] = record { interfaces = []; total_rx = rx; total_tx = tx }
collect_from rx tx (d ∷ ds) =
    let rest =
      collect_from (saturating_add rx d.total_received) (saturating_add tx d.total_transmitted)
        ds in
    record rest { interfaces = interface_of d ∷ rest.interfaces }

unfoldable pub collect : List NetworkData → NetworkSnapshot
collect networks = collect_from 0 0 networks

pub record TimestampedSnapshot : Type 0 where
  pub snapshot : NetworkSnapshot
  pub timestamp : ℕ

pub record NetworkHistory : Type 0 where
  pub samples : List TimestampedSnapshot
  pub capacity : ℕ

unfoldable pub new : ℕ → NetworkHistory
new capacity = record { samples = []; capacity = max capacity 2 }

unfoldable pub push : ℕ → NetworkSnapshot → NetworkHistory → NetworkHistory
push now snapshot h =
    let kept = if leb h.capacity (length h.samples) then drop 1 h.samples else h.samples in
    record h { samples = kept ++ (record { snapshot = snapshot; timestamp = now } ∷ []) }

unfoldable pub find_iface : List NetworkInterfaceSnapshot → Text → Option NetworkInterfaceSnapshot
find_iface [] iface = none
find_iface (i ∷ is) iface =
    let rest = find_iface is iface in if decide (Text-discrete i.name iface) then some i else rest

abbrev pub extracted_or_zero : (NetworkInterfaceSnapshot → ℕ) → Option NetworkInterfaceSnapshot → ℕ
extracted_or_zero extract none = 0
extracted_or_zero extract (some i) = extract i

-- `find_iface_value(...).unwrap_or(0)`
abbrev pub iface_value : (NetworkInterfaceSnapshot → ℕ) → Text → TimestampedSnapshot → ℕ
iface_value extract iface s = extracted_or_zero extract (find_iface s.snapshot.interfaces iface)

infixl 5 ◌>>=◌
abbrev pub ◌>>=◌ : {A B : Type 0} → Option A → (A → Option B) → Option B
none >>= f = none
some a >>= f = f a

module _ (extract : NetworkInterfaceSnapshot → ℕ) (iface : Text) where
  -- The loop over the indices, with `n` of them left from `i` on.
  unfoldable pub deltas_from : List TimestampedSnapshot → ℕ → ℕ → Option (List ℕ)
  deltas_from samples zero i = some []
  deltas_from samples (suc n) i = get_elem? samples i >>= λ prev.
      get_elem? samples (i + 1) >>= λ curr. deltas_from samples n (i + 1) >>= λ result.
      some ((iface_value extract iface curr - iface_value extract iface prev) ∷ result)

  unfoldable pub sparkline : ℕ → NetworkHistory → Option (List ℕ)
  unfolding deltas_from
  sparkline points h =
      if ltb (length h.samples) 2 || (points == 0)
      then some []
      else (let n = min points (length h.samples - 1) in
          deltas_from h.samples n (length h.samples - n - 1))

unfoldable pub sparkline_rx : Text → ℕ → NetworkHistory → Option (List ℕ)
sparkline_rx iface points h = sparkline (λ i. i.bytes_rx) iface points h

unfoldable pub sparkline_tx : Text → ℕ → NetworkHistory → Option (List ℕ)
sparkline_tx iface points h = sparkline (λ i. i.bytes_tx) iface points h
