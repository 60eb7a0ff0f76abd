-- ===== src/Tui/Sorts/Reach.antt =====
-- Where the sort keys of crates/muxtop-tui/src/app.rs lead.
use muxtop.Base.{ℕ, ◌<◌, ◌≡◌, refl, arith}
use muxtop.Core.Process.Sort.{SortField}
use muxtop.Tui.Sorts.{
  NetworkSortField, ContainerSortField, next_sort_field, next_net_sort_field,
  next_container_sort_field,
}
use muxtop.Tui.Sorts.Cycles.{iterate, IsOnCycle, reaches}

abbrev sort_rank : SortField → ℕ
sort_rank SortField.cpu = 0
sort_rank SortField.mem = 1
sort_rank SortField.pid = 2
sort_rank SortField.name = 3
sort_rank SortField.user = 4

next_sort_field-IsOnCycle :
    (f : SortField) → IsOnCycle next_sort_field SortField.cpu 5 (sort_rank f) f
unfolding next_sort_field
next_sort_field-IsOnCycle SortField.cpu = record {
  inside = omega arith;
  from_start = refl;
  to_start = refl;
}
next_sort_field-IsOnCycle SortField.mem = record {
  inside = omega arith;
  from_start = refl;
  to_start = refl;
}
next_sort_field-IsOnCycle SortField.pid = record {
  inside = omega arith;
  from_start = refl;
  to_start = refl;
}
next_sort_field-IsOnCycle SortField.name = record {
  inside = omega arith;
  from_start = refl;
  to_start = refl;
}
next_sort_field-IsOnCycle SortField.user = record {
  inside = omega arith;
  from_start = refl;
  to_start = refl;
}

abbrev net_rank : NetworkSortField → ℕ
net_rank NetworkSortField.rx_rate = 0
net_rank NetworkSortField.tx_rate = 1
net_rank NetworkSortField.name = 2
net_rank NetworkSortField.errors = 3
net_rank NetworkSortField.total_rx = 4
net_rank NetworkSortField.total_tx = 5

next_net_sort_field-IsOnCycle :
    (f : NetworkSortField) → IsOnCycle next_net_sort_field NetworkSortField.rx_rate 6 (net_rank f) f
unfolding next_net_sort_field
next_net_sort_field-IsOnCycle NetworkSortField.rx_rate = record {
  inside = omega arith;
  from_start = refl;
  to_start = refl;
}
next_net_sort_field-IsOnCycle NetworkSortField.tx_rate = record {
  inside = omega arith;
  from_start = refl;
  to_start = refl;
}
next_net_sort_field-IsOnCycle NetworkSortField.name = record {
  inside = omega arith;
  from_start = refl;
  to_start = refl;
}
next_net_sort_field-IsOnCycle NetworkSortField.errors = record {
  inside = omega arith;
  from_start = refl;
  to_start = refl;
}
next_net_sort_field-IsOnCycle NetworkSortField.total_rx = record {
  inside = omega arith;
  from_start = refl;
  to_start = refl;
}
next_net_sort_field-IsOnCycle NetworkSortField.total_tx = record {
  inside = omega arith;
  from_start = refl;
  to_start = refl;
}

abbrev container_rank : ContainerSortField → ℕ
container_rank ContainerSortField.cpu = 0
container_rank ContainerSortField.mem = 1
container_rank ContainerSortField.name = 2
container_rank ContainerSortField.net_rx = 3
container_rank ContainerSortField.net_tx = 4
container_rank ContainerSortField.uptime = 5

next_container_sort_field-IsOnCycle :
    (f : ContainerSortField)
    → IsOnCycle next_container_sort_field ContainerSortField.cpu 6 (container_rank f) f
unfolding next_container_sort_field
next_container_sort_field-IsOnCycle ContainerSortField.cpu = record {
  inside = omega arith;
  from_start = refl;
  to_start = refl;
}
next_container_sort_field-IsOnCycle ContainerSortField.mem = record {
  inside = omega arith;
  from_start = refl;
  to_start = refl;
}
next_container_sort_field-IsOnCycle ContainerSortField.name = record {
  inside = omega arith;
  from_start = refl;
  to_start = refl;
}
next_container_sort_field-IsOnCycle ContainerSortField.net_rx = record {
  inside = omega arith;
  from_start = refl;
  to_start = refl;
}
next_container_sort_field-IsOnCycle ContainerSortField.net_tx = record {
  inside = omega arith;
  from_start = refl;
  to_start = refl;
}
next_container_sort_field-IsOnCycle ContainerSortField.uptime = record {
  inside = omega arith;
  from_start = refl;
  to_start = refl;
}

-- The sort key leads from any field of the processes, network and containers tabs to any other
-- in less than a full round of the fields.
pub next_sort_fields_reach :
    ((f g : SortField) → (k : ℕ) × (k < 5) × (iterate k next_sort_field f ≡ g))
    × ((f g : NetworkSortField) → (k : ℕ) × (k < 6) × (iterate k next_net_sort_field f ≡ g))
    × ((f g : ContainerSortField) → (k : ℕ) × (k < 6) × (iterate k next_container_sort_field f ≡ g))
next_sort_fields_reach = (
  λ f g.
      reaches next_sort_field SortField.cpu 5 (sort_rank f) (sort_rank g) f g
        (next_sort_field-IsOnCycle f) (next_sort_field-IsOnCycle g),
  λ f g.
      reaches next_net_sort_field NetworkSortField.rx_rate 6 (net_rank f) (net_rank g) f g
        (next_net_sort_field-IsOnCycle f) (next_net_sort_field-IsOnCycle g),
  λ f g.
      reaches next_container_sort_field ContainerSortField.cpu 6 (container_rank f)
        (container_rank g) f g (next_container_sort_field-IsOnCycle f)
        (next_container_sort_field-IsOnCycle g),
)
