-- ===== src/Core/Network/Totals.antt =====
-- The totals of a snapshot (`NetworkSnapshot::collect` of crates/muxtop-core/src/network.rs).
use muxtop.Base.{ℕ, ◌+◌, ◌-◌, ◌^◌, ◌≤◌, ◌≡◌, min, refl, ap, List, [], ◌∷◌, arith, map}
use muxtop.Core.Network.{
  NetworkData, NetworkSnapshot, saturating_add, interface_of, collect_from, collect,
}

abbrev pub sum_of : (NetworkData → ℕ) → List NetworkData → ℕ
sum_of f [] = 0
sum_of f (d ∷ ds) = f d + sum_of f ds

record IsTotalFrom (rx tx : ℕ) (ds : List NetworkData) (s : NetworkSnapshot) : Type 0 where
  rx_total : s.total_rx ≡ min (rx + sum_of (λ d. d.total_received) ds) (2 ^ 64 - 1)
  tx_total : s.total_tx ≡ min (tx + sum_of (λ d. d.total_transmitted) ds) (2 ^ 64 - 1)
  rows : s.interfaces ≡ map interface_of ds

collect_from-IsTotal :
    (rx tx : ℕ) (ds : List NetworkData)
    → rx ≤ 2 ^ 64 - 1
    → tx ≤ 2 ^ 64 - 1
    → IsTotalFrom rx tx ds (collect_from rx tx ds)
unfolding collect_from
collect_from-IsTotal rx tx [] h k = record {
  rx_total = omega arith;
  tx_total = omega arith;
  rows = refl;
}
collect_from-IsTotal rx tx (d ∷ ds) h k =
    let rest =
      collect_from-IsTotal (saturating_add rx d.total_received)
        (saturating_add tx d.total_transmitted) ds (omega arith) (omega arith) in
    record {
      rx_total = omega (arith, rest.rx_total);
      tx_total = omega (arith, rest.tx_total);
      rows = ap (λ is. interface_of d ∷ is) rest.rows;
    }

-- A snapshot has a row for every interface in order, and its totals are the sums over the
-- interfaces, capped at the largest `u64`.
pub collect-IsTotal :
    (ds : List NetworkData)
    → ((collect ds).total_rx ≡ min (sum_of (λ d. d.total_received) ds) (2 ^ 64 - 1))
      × ((collect ds).total_tx ≡ min (sum_of (λ d. d.total_transmitted) ds) (2 ^ 64 - 1))
      × ((collect ds).interfaces ≡ map interface_of ds)
unfolding collect
collect-IsTotal ds =
    let t = collect_from-IsTotal 0 0 ds (omega arith) (omega arith) in
    (omega (arith, t.rx_total), omega (arith, t.tx_total), t.rows)
