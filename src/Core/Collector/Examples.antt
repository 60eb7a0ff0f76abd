-- ===== src/Core/Collector/Examples.antt =====
-- A collector with a container engine.
use muxtop.Base.{ℕ, ◌≡◌, refl, true, false, some, List, [], ◌∷◌, ok, err}
use muxtop.Core.Containers.{EngineKind}
use muxtop.Core.Engines.{timeout}
use muxtop.Core.System.Collect.{Numbers, Readings}
use muxtop.Core.Collector.{
  Send, Loop, Event, tick, containers_polled, gpu_polled, cancelled, Collecting, start, run,
  is_over,
}
use muxtop.Core.Collector.Fresh.{Emits, with_poll, of_containers, run-Emits}
use muxtop.Core.Collector.Shutdown.{cancels, run_over}
use muxtop.Core.Gpu.Engine.{no_backend}

abbrev whole_numbers : Numbers
whole_numbers = record {
  F32 = ℕ;
  F64 = ℕ;
  zero_f32 = 0;
  percent = λ memory total. 50;
  display = λ n. n ∷ [];
}

abbrev idle_host : Readings ℕ ℕ
idle_host = record {
  global_cpu_usage = 0;
  cpus = [];
  total_memory = 8;
  used_memory = 4;
  available_memory = 4;
  total_swap = 0;
  used_swap = 0;
  load_average = (0, (0, 0));
  uptime = 7;
  processes = [];
  networks = [];
  since_epoch = some 1000;
}

abbrev with_docker : Collecting ℕ ℕ
with_docker = start whole_numbers (record {
  container_engine = some EngineKind.docker;
  cluster_engine = false;
  gpu_engine = true;
})

-- A tick, a poll of the GPUs, and a shutdown of the cluster loop.
abbrev between : List (Event ℕ ℕ)
between = tick idle_host Send.delivered ∷ gpu_polled (err no_backend) ∷ cancelled Loop.kube ∷ []

still_up : (run whole_numbers (containers_polled (ok []) ∷ between) with_docker).system_loop ≡ true
unfolding run
still_up = refl

run-Emits_example :
    Emits whole_numbers (run whole_numbers (containers_polled (ok []) ∷ between) with_docker) (
      with_poll whole_numbers {s = with_docker}
        (of_containers EngineKind.docker (ok []) refl)
        (run whole_numbers (containers_polled (ok []) ∷ between) with_docker))
run-Emits_example =
    run-Emits whole_numbers with_docker (of_containers EngineKind.docker (ok []) refl) between
      (refl, (refl, (refl, tt))) still_up

abbrev shutdown : List (Event ℕ ℕ)
shutdown =
    cancelled Loop.gpu
    ∷ cancelled Loop.system
    ∷ containers_polled (err (timeout 5))
    ∷ cancelled Loop.containers
    ∷ cancelled Loop.kube
    ∷ []

all_cancelled : (loop : Loop) → cancels loop shutdown ≡ true
all_cancelled Loop.system = refl
all_cancelled Loop.containers = refl
all_cancelled Loop.kube = refl
all_cancelled Loop.gpu = refl

run_over_example :
    (is_over whole_numbers (run whole_numbers between (run whole_numbers shutdown with_docker))
      ≡ true)
    × ((run whole_numbers between (run whole_numbers shutdown with_docker)).sent
        ≡ (run whole_numbers shutdown with_docker).sent)
run_over_example = run_over whole_numbers shutdown between with_docker all_cancelled
