-- ===== src/Tui/Keymap/Examples.antt =====
-- The keymap of crates/muxtop-tui/src/keymap.rs at concrete keys.
use mathlib.Core.Bool.{decide}
use muxtop.Base.{◌≡◌, ◌↔◌, refl, true, none, some, get_elem?}
use muxtop.Core.Actions.{Signal}
use muxtop.Tui.Tabs.{Tab, KubeSubview, GpuSubview}
use muxtop.Tui.Keymap.Keys.{
  char, f, no_mods, shift_only, kill, container_stop, kube_subview, gpu_subview, KeyCode-discrete,
  KeyModifiers-discrete, scope_matches, normalise, is_local_only,
}
use muxtop.Tui.Keymap.Bindings.{bindings}
use muxtop.Tui.Keymap.{resolve, hints}
use muxtop.Tui.Keymap.Table.{Hits, resolve_iff}

f9_on_processes : resolve (f 9) no_mods Tab.processes ≡ some (kill Signal.term)
unfolding resolve bindings KeyCode-discrete KeyModifiers-discrete scope_matches normalise decide
f9_on_processes = refl

f9_on_containers : resolve (f 9) no_mods Tab.containers ≡ some container_stop
unfolding resolve bindings KeyCode-discrete KeyModifiers-discrete scope_matches normalise decide
f9_on_containers = refl

capital_d_differs :
    (resolve (char b'D') shift_only Tab.kube ≡ some (kube_subview KubeSubview.deployments))
    × (resolve (char b'D') shift_only Tab.gpu ≡ some (gpu_subview GpuSubview.devices))
    × (resolve (char b'D') shift_only Tab.general ≡ none)
unfolding resolve bindings KeyCode-discrete KeyModifiers-discrete scope_matches normalise decide
capital_d_differs = (refl, refl, refl)

resolve_iff_example :
    (resolve (f 9) no_mods Tab.processes ≡ some (kill Signal.term))
    ↔ Hits bindings (f 9) (normalise (f 9) no_mods) Tab.processes (kill Signal.term)
resolve_iff_example = resolve_iff (f 9) no_mods Tab.processes (kill Signal.term)

first_hint : get_elem? (hints Tab.processes true) 0 ≡ some ("t", "Tree view")
unfolding hints bindings scope_matches decide is_local_only
first_hint = refl
