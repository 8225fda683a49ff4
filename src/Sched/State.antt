-- ===== src/Sched/State.antt =====
-- State of the scheduler: `sched_entity_t`, `runqueue_t` and `sched_stats_t` of
-- kernel/src/userspace/scheduler.h, and the fields of `struct process` that the scheduler writes.
-- A process and its embedded entity go by one address; a null pointer is 0.
use dz_os.Prelude.{ℕ, Bool, List, [], ◌∷◌, update, get_or}
use dz_os.Prelude.Int.{ℤ}

abbrev pub sched_priority_levels : ℕ
sched_priority_levels = 8

abbrev pub sched_min_timeslice_us : ℕ
sched_min_timeslice_us = 2000

abbrev pub sched_max_timeslice_us : ℕ
sched_max_timeslice_us = 16000

abbrev pub prio_rt_max : ℕ
prio_rt_max = 2

abbrev pub prio_normal_min : ℕ
prio_normal_min = 3

abbrev pub prio_idle_max : ℕ
prio_idle_max = 7

-- The three bits of `flags` are fields of their own.
pub record Entity : Type 0 where
  pub vruntime : ℕ
  pub exec_start : ℕ
  pub sum_exec_runtime : ℕ
  pub last_timeslice : ℕ
  pub static_priority : ℕ
  pub dynamic_priority : ℕ
  pub nice : ℤ
  pub flag_rt : Bool
  pub flag_interactive : Bool
  pub flag_cpu_bound : Bool
  pub sleep_time : ℕ
  pub last_ran : ℕ
  pub sleep_avg : ℕ
  pub next : ℕ
  pub prev : ℕ
  pub runqueue_prio : ℕ
  pub in_runqueue : Bool

-- `enum process_state`
pub data ProcessState : Type 0 where
  unused used sleeping runnable running exited : ProcessState

pub record Runqueue : Type 0 where
  pub queue_heads : ℕ → ℕ
  pub queue_tails : ℕ → ℕ
  pub queue_sizes : ℕ → ℕ
  pub total_runnable : ℕ
  pub clock : ℕ
  pub curr : ℕ
  pub total_weight : ℕ
  pub min_vruntime : ℕ

pub record Stats : Type 0 where
  pub total_switches : ℕ
  pub total_preemptions : ℕ
  pub total_yields : ℕ
  pub total_timer_ticks : ℕ
  pub idle_time : ℕ

pub record Sched : Type 0 where
  pub rq : Runqueue
  pub stats : Stats
  pub ent : ℕ → Entity
  pub state : ℕ → ProcessState
  pub waiting_channel : ℕ → ℕ
  pub running_process : ℕ

-- The table in `sched_entity_weight`. Beyond its eight entries the source reads out of bounds, and the model 0.
abbrev pub weights : List ℕ
weights = 88761 ∷ 71755 ∷ 56483 ∷ 46273 ∷ 36291 ∷ 29154 ∷ 23254 ∷ 15000 ∷ []

unfoldable pub sched_entity_weight : Entity → ℕ
sched_entity_weight se = get_or weights se.dynamic_priority 0

-- `p->f = …` for some fields of the entity at `p`
abbrev pub write : ℕ → Entity → (ℕ → Entity) → ℕ → Entity
write p se ent = update ent p se
