-- ===== src/Proc/Exit.antt =====
-- proc_exit, proc_wait and proc_sbrk of kernel/src/userspace/proc.c.
use dz_os.Prelude.{
  ℕ, zero, suc, ◌-◌, Bool, true, false, not, Option, none, some, leb, ◌==◌, if◌then◌else◌, ◌>>=◌,
  update,
}
use dz_os.Prelude.Int.{ℤ}
use dz_os.Sched.State.{exited}
use dz_os.Fs.Inode.{Inode, fs_close}
use dz_os.Fs.File.{Process, FileType, max_open_files}
use dz_os.Vmm.Table.{FrameAllocator, Vm}
use dz_os.Vmm.User.{sub64, vmm_user_sbrk_allocate, vmm_user_sbrk_deallocate}
use dz_os.Proc.Table.{Proc}
use dz_os.Proc.Wake.{Waiting, condvar_lock, condvar_unlock, condvar_notify_all}

-- a descriptor of a file closed; those of devices stay
unfoldable pub close_file : ℕ → Process → (ℕ → Inode) → Process × (ℕ → Inode)
close_file fd p inodes = elim (p.open_files fd).kind [
  | FileType.fd_inode i ↦ (
    record p {
      open_files = update p.open_files fd (record (p.open_files fd) { kind = FileType.fd_empty });
    },
    fs_close i inodes,
  )
  | FileType.fd_empty ↦ (p, inodes)
  | FileType.fd_device d ↦ (p, inodes)
]

-- the last `n` descriptors
unfoldable pub close_files : ℕ → Process → (ℕ → Inode) → Process × (ℕ → Inode)
close_files zero p inodes = (p, inodes)
close_files (suc n) p inodes =
    let r = close_file (max_open_files - suc n) p inodes in close_files n r.0 r.1

module _ (lock_of : ℕ → ℕ) (processes : ℕ → ℕ) where
  -- The process exits, up to the switch to the scheduler; its lock has to be held. `status` is the exit
  -- status by process.
  unfoldable pub proc_exit :
      ℕ
      → Process
      → (ℕ → Inode)
      → (ℕ → ℕ)
      → Waiting
      → Option (Process × (ℕ → Inode) × (ℕ → ℕ) × Waiting)
  proc_exit exit_code files inodes status w =
      let p = (w.sched).running_process in
      let closed = close_files max_open_files files inodes in
      if not (w.locked (lock_of p))
      then none
      else (condvar_notify_all lock_of processes (lock_of p) w >>= λ w'. some (
        closed.0,
        closed.1,
        update status p exit_code,
        record w' { sched = record w'.sched { state = update (w'.sched).state p exited } },
      ))

  -- The search of `proc_wait` over `n` slots from `i` on: the process with the pid, left locked.
  unfoldable pub find_pid : (ℕ → ℕ) → ℕ → ℕ → ℕ → Waiting → Option (ℕ × Waiting)
  find_pid pid_of target i zero w = some (0, w)
  find_pid pid_of target i (suc n) w =
      let p = processes i in
      let skip = find_pid pid_of target (suc i) n w in
      let visit = condvar_lock (lock_of p) w >>= λ w1. elim (pid_of p == target) [
        | true ↦ some (p, w1)
        | false ↦ condvar_unlock (lock_of p) w1 >>= find_pid pid_of target (suc i) n
      ] in
      if p == 0 then skip else visit

-- `p->initial_data_segment <= p->current_sbrk + how_much` on 64 bits, for a negative `how_much`
unfoldable pub clamps : Proc → ℕ → Bool
clamps p less = leb p.initial_data_segment (sub64 p.current_sbrk less)

-- the bytes to take off the break, `-how_much`, behind the test
unfoldable pub shrink_by : Proc → ℕ → ℕ
shrink_by p less = if clamps p less then sub64 p.current_sbrk p.initial_data_segment else less

module _ {P : Type 0} (fa : FrameAllocator P) where
  abbrev pub set_break : ℕ → Proc → ℕ × Vm P → ℕ × Proc × Vm P
  set_break before p (new, v) = (before, record p { current_sbrk = new }, v)

  -- the old break, the process and the memory; `none` is a panic
  unfoldable pub proc_sbrk : ℤ → Proc → Vm P → Option (ℕ × Proc × Vm P)
  proc_sbrk (ℤ.pos zero) p v = some (p.current_sbrk, p, v)
  proc_sbrk (ℤ.pos (suc n)) p v =
      vmm_user_sbrk_allocate fa p.pagetable p.current_sbrk (suc n) v >>= λ r.
      some (set_break p.current_sbrk p r)
  proc_sbrk (ℤ.negsuc n) p v =
      vmm_user_sbrk_deallocate fa p.pagetable p.current_sbrk (shrink_by p (suc n)) v >>= λ r.
      some (set_break p.current_sbrk p r)
