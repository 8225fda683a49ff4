-- ===== src/Sched/Tests.antt =====
-- Runs of the scheduler of kernel/src/userspace/scheduler.c on small queues.
use dz_os.Prelude.{
  ℕ, ◌≡◌, refl, ◌+◌, ◌-◌, ◌^◌, false, some, List, [], ◌∷◌, ◌++◌, arith, update, u32,
}
use dz_os.Prelude.Int.{pos}
use dz_os.Sched.State.{Sched, Entity, ProcessState, sleeping, runnable, running, unused}
use dz_os.Sched.Queue.{sched_enqueue, sched_dequeue, sched_pick_next}
use dz_os.Sched.Priority.{adjustment, sched_update_priority}
use dz_os.Sched.Core.{sched_fork, sched_sleep, sched_wakeup, sched_set_priority}
use dz_os.Sched.Loop.{dispatch, switched_back}
use dz_os.Sched.Links.{remove}
use dz_os.Sched.Buckets.{IsQueues, IsAbsent, bucket, count}
use dz_os.Sched.Enqueue.{enqueue-IsQueues}
use dz_os.Sched.Dequeue.{dequeue-IsQueues}
use dz_os.Sched.Pick.{Picks, pick_next-Picks}
use dz_os.Sched.Round.{charged, dispatch-IsQueues, switched_back-IsQueues}
use dz_os.Sched.Wake.{wakeup-IsQueues, set_priority-IsQueues}
use dz_os.Sched.Fair.{here, next, fork, fork_vruntime}
use dz_os.Sched.Faults.{sleep-empties-bucket}

abbrev fresh : Entity
fresh = record {
  vruntime = 0;
  exec_start = 0;
  sum_exec_runtime = 0;
  last_timeslice = 0;
  static_priority = 4;
  dynamic_priority = 4;
  nice = pos 0;
  flag_rt = false;
  flag_interactive = false;
  flag_cpu_bound = false;
  sleep_time = 0;
  last_ran = 0;
  sleep_avg = 0;
  next = 0;
  prev = 0;
  runqueue_prio = 0;
  in_runqueue = false;
}

-- an empty run queue, with every process in one state
abbrev idle : ProcessState → Sched
idle st = record {
  rq = record {
    queue_heads = λ i. 0;
    queue_tails = λ i. 0;
    queue_sizes = λ i. 0;
    total_runnable = 0;
    clock = 0;
    curr = 0;
    total_weight = 0;
    min_vruntime = 0;
  };
  stats = record {
    total_switches = 0;
    total_preemptions = 0;
    total_yields = 0;
    total_timer_ticks = 0;
    idle_time = 0;
  };
  ent = λ a. fresh;
  state = λ a. st;
  waiting_channel = λ a. 0;
  running_process = 0;
}

abbrev no_queue : ℕ → List ℕ
no_queue i = []

idle-IsQueues : (st : ProcessState) → IsQueues (idle st) no_queue
unfolding count
idle-IsQueues st = record {
  buckets = λ prio h. record { linked = (refl, refl); marked = λ a i. cc; size = refl };
  total = refl;
}

abbrev one : Sched
one = sched_enqueue (idle runnable) 1

abbrev one_queue : ℕ → List ℕ
one_queue = update no_queue 4 (1 ∷ [])

enqueue_example : IsQueues one one_queue
enqueue_example =
    enqueue-IsQueues (idle runnable) 1 no_queue (idle-IsQueues runnable) (omega arith)
      (λ prio h. refl)

one-IsQueues : IsQueues one one_queue
one-IsQueues =
    enqueue-IsQueues (idle runnable) 1 no_queue (idle-IsQueues runnable) (omega arith)
      (λ prio h. refl)

dequeue_example : IsQueues (sched_dequeue one 1) (update one_queue 4 (remove 1 (one_queue 4)))
dequeue_example = dequeue-IsQueues one one_queue one-IsQueues 4 1 (omega arith) refl

pick_example : (p : ℕ) × (sched_pick_next 2 one ≡ some p) × Picks one.ent one_queue 8 0 p
pick_example = pick_next-Picks 2 one one_queue one-IsQueues (λ i h. ground arith)

dispatch_example :
    IsQueues (dispatch 7 one 1) (update one_queue 4 (remove 1 (one_queue 4)))
    × IsAbsent (update one_queue 4 (remove 1 (one_queue 4))) 1
    × ((dispatch 7 one 1).rq.curr ≡ 1)
    × ((dispatch 7 one 1).state 1 ≡ running)
dispatch_example = dispatch-IsQueues 7 one one_queue 4 1 one-IsQueues (omega arith) refl

switched_back_example :
    let s = idle runnable in
    let k = bucket (charged 9 s 1) 1 in
    IsQueues (switched_back 9 s 1) (update no_queue k (no_queue k ++ (1 ∷ [])))
    × ((switched_back 9 s 1).rq.curr ≡ 0)
switched_back_example =
    switched_back-IsQueues 9 (idle runnable) no_queue 1 (idle-IsQueues runnable) (λ prio h. refl)
      (omega arith) refl

wakeup_example :
    IsQueues (sched_wakeup (idle sleeping) 1) (update no_queue 4 (1 ∷ []))
    × ((sched_wakeup (idle sleeping) 1).state 1 ≡ runnable)
    × ((sched_wakeup (idle sleeping) 1).waiting_channel 1 ≡ 0)
unfolding sched_update_priority adjustment
wakeup_example =
    wakeup-IsQueues (idle sleeping) 1 no_queue (idle-IsQueues sleeping) (omega arith)
      (λ prio h. refl) refl

set_priority_example :
    let q' = update one_queue 4 (remove 1 (one_queue 4)) in
    IsQueues (sched_set_priority one 1 2) (update q' 2 (q' 2 ++ (1 ∷ [])))
unfolding sched_enqueue
set_priority_example =
    set_priority-IsQueues one 1 2 4 one_queue one-IsQueues (omega arith) refl refl (omega arith)

fork_example :
    ((sched_fork (idle unused) 1).rq.min_vruntime ≡ 0)
    × (((sched_fork (sched_fork (idle unused) 1) 2).ent 2).vruntime ≡ 0)
fork_example = fork_vruntime (idle unused) (sched_fork (idle unused) 1) 2 refl (next here (fork 1))

sleep_example :
    let s = sched_sleep 9 (dispatch 7 one 1) 1 5 in
    (s.rq.queue_heads 4 ≡ 0)
    × (s.rq.queue_tails 4 ≡ 0)
    × (s.rq.total_runnable ≡ u32 ((dispatch 7 one 1).rq.total_runnable + (2 ^ 32 - 1)))
sleep_example = sleep-empties-bucket 7 9 5 4 1 one one_queue one-IsQueues (omega arith) refl
