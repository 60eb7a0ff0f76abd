-- ===== src/Core/Network/Examples.antt =====
-- A history of three samples of one interface (crates/muxtop-core/src/network.rs).
use mathlib.Core.Bool.{decide}
use muxtop.Base.{ℕ, ◌-◌, ◌^◌, ◌≡◌, some, List, [], ◌∷◌}
use muxtop.Core.Process.{Text}
use muxtop.Core.Network.{
  Text-discrete, NetworkSnapshot, NetworkData, NetworkHistory, interface_of, sparkline, find_iface,
}
use muxtop.Core.Network.Window.{stamped_all}
use muxtop.Core.Network.Spark.{sparkline-eq_last_of}

abbrev lo : Text
lo = 108 ∷ 111 ∷ []

abbrev reading : ℕ → NetworkData
reading n = record {
  name = lo;
  total_received = n;
  total_transmitted = 2 ^ 64 - 1;
  total_packets_received = 1;
  total_packets_transmitted = 1;
  total_errors_on_received = 0;
  total_errors_on_transmitted = 0;
  mac_address = [];
}

abbrev two_readings : List NetworkData
two_readings = reading 5 ∷ reading 7 ∷ []

abbrev snapshot : ℕ → NetworkSnapshot
snapshot n = record { interfaces = interface_of (reading n) ∷ []; total_rx = n; total_tx = 0 }

abbrev pushed : List (ℕ × NetworkSnapshot)
pushed = (0, snapshot 10) ∷ (1, snapshot 30) ∷ (2, snapshot 25) ∷ []

abbrev history : NetworkHistory
history = record { samples = stamped_all pushed; capacity = 8 }

-- The counter grows by twenty and is then reset.
sparkline-eq_last_of_example : sparkline (λ i. i.bytes_rx) lo 5 history ≡ some (20 ∷ 0 ∷ [])
unfolding find_iface Text-discrete decide
sparkline-eq_last_of_example = sparkline-eq_last_of (λ i. i.bytes_rx) lo 5 history
