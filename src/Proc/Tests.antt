-- ===== src/Proc/Tests.antt =====
-- The theorems on processes at concrete inputs.
use dz_os.Prelude.{
  ◌<◌, ◌≢◌, ◌*◌, leb, ltb, ◌&&◌, ◌^◌, ◌+◌, some, ℕ, ◌-◌, ◌≡◌, refl, true, false, arith, ◌==◌,
  if◌then◌else◌, ==-ne,
}
use dz_os.Prelude.Int.{pos}
use dz_os.Sched.State.{Entity, sleeping}
use dz_os.Vmm.Table.{FrameAllocator, Vm}
use dz_os.Proc.Table.{max_processes, coelesce_processes, Table, fresh_proc, proc_allocate}
use dz_os.Proc.Allocate.{Allocates, proc_allocate-Allocates}
use dz_os.Proc.Wake.{Waiting, proc_wakeup}
use dz_os.Proc.Woken.{WakesAll, proc_wakeup-WakesAll}
use dz_os.Proc.Slots.{coelesce_processes-Slots}

-- processes at 100, 200 and 300 in the first slots, asleep on the channel 7, with the lock of each 8 bytes in
abbrev three : ℕ → ℕ
three i = if ltb i 3 then 100 * (i + 1) else 0

abbrev fresh : Entity
fresh = record {
  vruntime = 0;
  exec_start = 0;
  sum_exec_runtime = 0;
  last_timeslice = 0;
  static_priority = 4;
  dynamic_priority = 4;
  nice = pos 0;
  flag_rt = false;
  flag_interactive = false;
  flag_cpu_bound = false;
  sleep_time = 0;
  last_ran = 0;
  sleep_avg = 0;
  next = 0;
  prev = 0;
  runqueue_prio = 0;
  in_runqueue = false;
}

abbrev asleep : Waiting
asleep = record {
  sched = record {
    rq = record {
      queue_heads = λ i. 0;
      queue_tails = λ i. 0;
      queue_sizes = λ i. 0;
      total_runnable = 0;
      clock = 0;
      curr = 0;
      total_weight = 0;
      min_vruntime = 0;
    };
    stats = record {
      total_switches = 0;
      total_preemptions = 0;
      total_yields = 0;
      total_timer_ticks = 0;
      idle_time = 0;
    };
    ent = λ a. fresh;
    state = λ a. sleeping;
    waiting_channel = λ a. 7;
    running_process = 200;
  };
  locked = λ l. l == 208;
}

plus_eight : (a : ℕ) → a + 8 ≡ 208 → a ≡ 200
plus_eight a e = omega (arith, e)

wakeup_all_example :
    (w' : Waiting) × (proc_wakeup (λ p. p + 8) three 7 true asleep ≡ some w')
    × WakesAll (λ p. p + 8) three 7 0 max_processes asleep w'
wakeup_all_example =
    proc_wakeup-WakesAll (λ p. p + 8) three 7 asleep
      (λ i low high ne other. ==-ne (three i + 8) 208 (λ e. other (plus_eight (three i) e)))

-- the process of the first slot taken out
abbrev two_left : ℕ → ℕ
two_left i = if i == 0 then 0 else three i

compaction_example :
    let r = coelesce_processes 0 3 1 two_left (λ p. 0) in
    (r.0.0 ≡ 3 - 1)
    × ((k : ℕ)
        → (r.1.0) k ≡ (
            if leb 0 k && ltb k (3 - 1)
            then two_left (k + 1)
            else if k == 3 - 1
            then 0
            else two_left k))
compaction_example =
    coelesce_processes-Slots 0 3 1 two_left (λ p. 0) (omega arith) (omega arith)
      (λ k low high. ground arith) refl

-- pages handed out one behind the other, the state being the next one
abbrev upward : FrameAllocator ℕ
upward = record {
  kalloc = λ m s. (s, m, s + 4096);
  kcalloc = λ m s. (s, λ x. if leb s x && ltb x (s + 4096) then 0 else m x, s + 4096);
  kalloc_for_page_cache = λ m s. (s, m, s + 4096);
  kfree = λ p m s. some (m, s);
  kalloc_pages = λ n m s. (s, m, s + n * 4096);
  kfree_pages = λ p n m s. some (m, s);
}

abbrev bare : Vm ℕ
bare = record {
  memory = λ x. 0;
  pages = 2 ^ 20 + 4096;
  hhdm_offset = 2 ^ 20;
  phys_max_end = 2 ^ 30;
  kernel_pagetable = 2 ^ 20;
  io_memmap_current_address = 0;
}

-- the three processes, with the next empty slot behind them
abbrev three_table : Table ℕ
three_table = record {
  vm = bare;
  next_pid = 4;
  process_count = 3;
  process_min_index = 3;
  processes = three;
  proc = λ p. fresh_proc 1 0 0;
}

proc_allocate_example : Allocates upward three_table (proc_allocate upward three_table)
proc_allocate_example =
    proc_allocate-Allocates upward three_table (λ j low high. three_taken j high)
  where
    three_taken : (j : ℕ) → j < 3 → three j ≢ 0
    three_taken j high = ground arith
