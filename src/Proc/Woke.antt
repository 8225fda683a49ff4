-- ===== src/Proc/Woke.antt =====
-- What sched_wakeup of kernel/src/userspace/scheduler.c does to a process that sleeps, and lemmas on the
-- tests and the locks of a round of proc_wakeup.
use dz_os.Prelude.{
  ==-eq, ℕ, ◌≡◌, refl, sym, ap, ◌∙◌, inl, inr, Bool, true, false, not, ◌&&◌, ◌||◌, ◌==◌, Bool-cases,
  update,
}
use dz_os.Sched.State.{Sched, ProcessState, runnable}
use dz_os.Sched.Core.{sched_wakeup, may_wake}
use dz_os.Sched.Queue.{sched_enqueue}
use dz_os.Proc.Wake.{is_sleeping}

wakes : (st : ProcessState) → is_sleeping st ≡ true → may_wake st ≡ true
wakes ProcessState.sleeping e = refl
wakes ProcessState.unused e = cc
wakes ProcessState.used e = cc
wakes ProcessState.runnable e = cc
wakes ProcessState.running e = cc
wakes ProcessState.exited e = cc

-- a process woken is runnable and on no channel; no other process changes its state or channel
pub record Woke (s s' : Sched) (p : ℕ) : Type 0 where
  pub state : s'.state ≡ update s.state p runnable
  pub channel : s'.waiting_channel ≡ update s.waiting_channel p 0
  pub running : s'.running_process ≡ s.running_process

pub sched_wakeup-Woke :
    (s : Sched) (p : ℕ) → is_sleeping (s.state p) ≡ true → Woke s (sched_wakeup s p) p
unfolding sched_wakeup sched_enqueue
sched_wakeup-Woke s p e =
    let may = wakes (s.state p) e in
    record { state = rw may refl; channel = rw may refl; running = rw may refl }

-- what a whole round does, with the process's lock free
abbrev pub Same : (ℕ → Bool) → (ℕ → Bool) → Type 0
Same a b = (x : ℕ) → a x ≡ b x

pub neither : (a b : Bool) → (a || b) ≡ true → (not a && not b) ≡ false
neither true b e = refl
neither false true e = refl
neither false false e = cc

pub second : (a b : Bool) → (a || b) ≡ false → b ≡ false
second true b e = cc
second false b e = e

-- a lock that was free, taken and released
pub lock_back : (f : ℕ → Bool) (l x : ℕ) → f l ≡ false → update (update f l true) l false x ≡ f x
lock_back f l x e = elim (Bool-cases (x == l)) [
  | inl here ↦ rw here (sym e ∙ ap f (sym (==-eq x l here)))
  | inr other ↦ rw other refl
]

-- a test in the middle that fails decides
pub either : (l m c x : Bool) → c ≡ false → (l && c && x) ≡ (m && c && x)
either true true c x e = refl
either true false c x e = rw e refl
either false true c x e = rw e refl
either false false c x e = refl

pub either_last : (l m c x : Bool) → x ≡ false → (l && c && x) ≡ (m && c && x)
either_last true true c x e = refl
either_last true false true x e = rw e refl
either_last true false false x e = refl
either_last false true true x e = rw e refl
either_last false true false x e = refl
either_last false false c x e = refl
