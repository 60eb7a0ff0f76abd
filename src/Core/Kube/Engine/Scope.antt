-- ===== src/Core/Kube/Engine/Scope.antt =====
-- Polls and changes of the scope (crates/muxtop-core/src/kube_engine.rs).
use muxtop.Base.{ℕ, ◌≡◌, refl, subst, sym, Option, none, some, List, [], All}
use muxtop.Core.Process.{Text}
use muxtop.Core.Kube.Objects.{MetricsCache}
use muxtop.Core.Kube.Convert.{unwrap_or}
use muxtop.Core.Kube.Engine.{
  KubeScope, all_namespaces, namespace, KubeEngine, Lists, Polling, poll_started, toggled,
  poll_ended, metrics_polled, ended, step, toggle_scope, set_scope, write_lists,
}

-- The namespace, if any, is the scope's.
abbrev pub InScope : KubeScope → Option Text → Type 0
InScope all_namespaces ns = Unit
InScope (namespace target) ns = ns ≡ some target

-- The rows that the tab shows are of the scope.
abbrev pub AreInScope : KubeEngine → Type 0
AreInScope e =
    All (λ p. InScope e.scope p.metadata.namespace) e.resources.pods
    × All (λ d. InScope e.scope d.metadata.namespace) e.resources.deployments

-- The API server lists only what the scope asks for.
abbrev pub Obeys : (KubeScope → Lists) → Type 0
Obeys lists =
    (scope : KubeScope)
    → All (λ p. InScope scope p.metadata.namespace) (unwrap_or [] (lists scope).pods)
      × All (λ d. InScope scope d.metadata.namespace) (unwrap_or [] (lists scope).deployments)

-- The poll that is under way, if any, was started under the present scope.
abbrev pub IsCurrent : Option KubeScope → KubeScope → Type 0
IsCurrent none scope = Unit
IsCurrent (some polled) scope = polled ≡ scope

-- The histories of an engine whose scope changes only between polls, with what the API server
-- would list at each time.
pub data Reach (server : ℕ → KubeScope → Lists) (start : Polling) : Polling → Type 0 where
  here : Reach server start start
  poll_start : {s : Polling} → Reach server start s → Reach server start (step poll_started s)
  toggle :
      {s : Polling}
      → s.under_way ≡ none
      → Reach server start s
      → Reach server start (step toggled s)
  poll_end :
      {s : Polling}
      → (now_ms : ℕ) → Reach server start s
      → Reach server start (step (poll_ended (server now_ms) now_ms) s)
  metrics_poll :
      {s : Polling}
      → (metrics : MetricsCache) → Reach server start s
      → Reach server start (step (metrics_polled metrics) s)

abbrev IsSound : Polling → Type 0
IsSound s = IsCurrent s.under_way s.engine.scope × AreInScope s.engine

kept :
    {A : Type 0} (P : A → Type 0) (old : List A) (new : Option (List A))
    → All P old
    → All P (unwrap_or [] new)
    → All P (unwrap_or old new)
kept P old none h k = h
kept P old (some got) h k = k

toggle_scope-AreInScope : (e : KubeEngine) → AreInScope (toggle_scope e)
unfolding toggle_scope set_scope
toggle_scope-AreInScope e = (tt, tt)

write_lists-AreInScope :
    (lists : KubeScope → Lists) (now_ms : ℕ) (e : KubeEngine)
    → Obeys lists
    → AreInScope e
    → let got = lists e.scope in
      AreInScope (write_lists got.pods got.nodes got.deployments now_ms e)
unfolding write_lists
write_lists-AreInScope lists now_ms e obeys (pods, deployments) =
    let got = lists e.scope in
    (
      kept (λ p. InScope e.scope p.metadata.namespace) e.resources.pods got.pods pods
          (obeys e.scope).0,
      kept (λ d. InScope e.scope d.metadata.namespace) e.resources.deployments got.deployments
          deployments (obeys e.scope).1,
    )

ended-AreInScope :
    (under_way : Option KubeScope) (lists : KubeScope → Lists) (now_ms : ℕ) (s : Polling)
    → Obeys lists
    → IsCurrent under_way s.engine.scope
    → IsSound s
    → IsSound (ended under_way lists now_ms s)
ended-AreInScope none lists now_ms s obeys current h = h
ended-AreInScope (some polled) lists now_ms s obeys current h = (
  tt,
  subst
      (λ scope.
        let got = lists scope in
        AreInScope (write_lists got.pods got.nodes got.deployments now_ms s.engine))
      (sym current) (write_lists-AreInScope lists now_ms s.engine obeys h.1),
)

toggled-IsSound : (s : Polling) → s.under_way ≡ none → IsSound (step toggled s)
unfolding step
toggled-IsSound s idle = (
  subst (λ u. IsCurrent u (toggle_scope s.engine).scope) (sym idle) tt,
  toggle_scope-AreInScope s.engine,
)

Reach-IsSound :
    {server : ℕ → KubeScope → Lists} {start s : Polling}
    → ((now_ms : ℕ) → Obeys (server now_ms))
    → IsSound start
    → Reach server start s
    → IsSound s
unfolding step
Reach-IsSound obeys h here = h
Reach-IsSound obeys h (poll_start before) = (refl, (Reach-IsSound obeys h before).1)
Reach-IsSound obeys h (toggle {s} idle before) = toggled-IsSound s idle
Reach-IsSound {server} obeys h (poll_end {s} now_ms before) =
    let sound = Reach-IsSound obeys h before in
    ended-AreInScope s.under_way (server now_ms) now_ms s (obeys now_ms) sound.0 sound
Reach-IsSound obeys h (metrics_poll metrics before) = Reach-IsSound obeys h before

-- With an API server that lists only what it is asked for, and no change of the scope during a
-- poll: from a state whose poll, if any, is of the present scope and whose pods and deployments are
-- all of it, every state that polls, toggles and metrics lead to holds only pods and deployments of
-- the present scope.
pub Reach-AreInScope :
    {server : ℕ → KubeScope → Lists} {start s : Polling}
    → ((now_ms : ℕ) → Obeys (server now_ms))
    → IsCurrent start.under_way start.engine.scope
    → AreInScope start.engine
    → Reach server start s
    → AreInScope s.engine
Reach-AreInScope obeys current rows reached = (Reach-IsSound obeys (current, rows) reached).1
