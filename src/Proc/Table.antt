-- ===== src/Proc/Table.antt =====
-- The process table of kernel/src/userspace/proc.c, and its compaction in scheduler.c.
use dz_os.Prelude.{
  ℕ, zero, suc, ◌+◌, ◌-◌, ◌%◌, ◌^◌, true, false, not, Option, none, some, ltb, ◌==◌, if◌then◌else◌,
  u64, ◌>>=◌, update,
}
use dz_os.Sched.State.{ProcessState, used}
use dz_os.Vmm.Table.{FrameAllocator, Vm, allocated}
use dz_os.Vmm.Space.{vmm_user_pagetable_new}

abbrev pub max_processes : ℕ
max_processes = 64

-- the fields of `struct process` that allocation and sbrk write; the exit status on 32 bits
pub record Proc : Type 0 where
  pub pid : ℕ
  pub orig_i : ℕ
  pub i : ℕ
  pub state : ProcessState
  pub exit_status : ℕ
  pub pagetable : ℕ
  pub current_sbrk : ℕ
  pub initial_data_segment : ℕ

-- the static data: `processes` by slot, with 0 for NULL, and the processes by address
pub record Table (P : Type 0) : Type 0 where
  pub vm : Vm P
  pub next_pid : ℕ
  pub process_count : ℕ
  pub process_min_index : ℕ
  pub processes : ℕ → ℕ
  pub proc : ℕ → Proc

abbrev pub fresh_proc : ℕ → ℕ → ℕ → Proc
fresh_proc pid i pagetable = record {
  pid = pid;
  orig_i = i;
  i = i;
  state = used;
  exit_status = 2 ^ 32 - 1;
  pagetable = pagetable;
  current_sbrk = 0;
  initial_data_segment = 0;
}

-- the first empty slot of `n` from `i` on
unfoldable pub empty_slot : (ℕ → ℕ) → ℕ → ℕ → Option ℕ
empty_slot processes i zero = none
empty_slot processes i (suc n) =
    let rest = empty_slot processes (suc i) n in if processes i == 0 then some i else rest

-- what `proc_allocate` does with the process it has set up at slot `i`; no empty slot behind it is a panic
unfoldable pub after_allocate : {P : Type 0} → ℕ → ℕ → Table P → Option (ℕ × Table P)
after_allocate p i t = empty_slot t.processes (suc i) (max_processes - suc i) >>= λ min. some (
  p,
  record t {
    process_count = if i == t.process_count then u64 (t.process_count + 1) else t.process_count;
    process_min_index = min;
  },
)

module _ {P : Type 0} (fa : FrameAllocator P) where
  -- A process set up at a slot: 0 when the slot is taken. No page for the process, which the source writes
  -- to all the same, and no page table are `none`.
  unfoldable pub is_valid_process_init : ℕ → Table P → Option (ℕ × Table P)
  is_valid_process_init i t =
      let r = allocated (fa.kalloc (t.vm).memory (t.vm).pages) t.vm in
      let fresh = vmm_user_pagetable_new fa r.1 >>= λ u.
      if u.0 == 0
      then none
      else some (
        r.0,
        record t {
          vm = u.1;
          next_pid = u64 (t.next_pid + 1);
          processes = update t.processes i r.0;
          proc = update t.proc r.0 (fresh_proc t.next_pid i u.0);
        },
      ) in
      if not (t.processes i == 0) then some (0, t) else if r.0 == 0 then none else fresh

  -- the second range: the first slot of `n` from `i` on that is empty, or 0
  unfoldable pub init_range : ℕ → ℕ → Table P → Option (ℕ × Table P)
  init_range i zero t = some (0, t)
  init_range i (suc n) t = is_valid_process_init i t >>= λ r. elim (r.0 == 0) [
    | true ↦ init_range (suc i) n r.1
    | false ↦ after_allocate r.0 i r.1
  ]

  -- The first range tries slot 0 only: a slot that is taken leads to the second range at once.
  unfoldable pub proc_allocate : Table P → Option (ℕ × Table P)
  proc_allocate t = is_valid_process_init 0 t >>= λ r. elim (r.0 == 0) [
    | true ↦ init_range t.process_min_index (max_processes - t.process_min_index) r.1
    | false ↦ after_allocate r.0 0 r.1
  ]

-- the slots and the indices of the processes, as the compaction moves them
abbrev pub Slots : Type 0
Slots = (ℕ → ℕ) × (ℕ → ℕ)

-- The loop of `coelesce_processes` over `n` slots from `j` on, which ends at an empty one.
unfoldable pub shift_slots : ℕ → ℕ → Slots → Slots
shift_slots j zero s = s
shift_slots j (suc n) s =
    let p = (s.0) j in
    let rest = shift_slots (suc j) n (update (update s.0 (j - 1) p) j 0, update s.1 p (j - 1)) in
    if p == 0 then s else rest

-- `index` is the field `i` of each process.
unfoldable pub coelesce_processes : ℕ → ℕ → ℕ → (ℕ → ℕ) → (ℕ → ℕ) → (ℕ × ℕ) × Slots
coelesce_processes i process_count process_min_index processes index = (
  ((process_count + 2 ^ 64 - 1) % 2 ^ 64, if ltb i process_min_index then i else process_min_index),
  shift_slots (suc i) (process_count - suc i) (processes, index),
)
