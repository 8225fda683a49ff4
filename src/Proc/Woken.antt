-- ===== src/Proc/Woken.antt =====
-- What proc_wakeup of kernel/src/userspace/proc.c does to the processes of the table.
use dz_os.Prelude.{
  ==-eq, ==-comm, ℕ, zero, suc, ◌+◌, ◌≤◌, ◌<◌, ◌≡◌, refl, sym, ap, subst, ◌∙◌, ◌≢◌, inl, inr, Bool,
  true, false, not, ◌&&◌, ◌||◌, some, arith, ◌==◌, if◌then◌else◌, Bool-cases, ==-refl, update,
}
use dz_os.Sched.State.{Sched, runnable}
use dz_os.Sched.Core.{sched_wakeup}
use dz_os.Proc.Table.{max_processes}
use dz_os.Proc.Wake.{
  Waiting, condvar_lock, condvar_unlock, is_sleeping, waits_on, wake_one, wakeup_from, proc_wakeup,
}
use dz_os.Proc.Woke.{Woke, sched_wakeup-Woke, Same, neither, second, lock_back, either, either_last}

module _ (lock_of : ℕ → ℕ) (processes : ℕ → ℕ) (channel : ℕ) where
  -- whether a process stands in one of `n` slots from `i` on
  abbrev pub listed : ℕ → ℕ → ℕ → Bool
  listed i zero p = false
  listed i (suc n) p = (processes i == p) || listed (suc i) n p

  -- the processes to wake: those listed that wait on the channel, but for the running one
  abbrev pub target : Sched → ℕ → ℕ → ℕ → Bool
  target s i n p =
      listed i n p && (not (p == 0) && not (p == s.running_process)) && waits_on channel s p

  -- No lock changes; the processes to wake are runnable and on no channel, the others as they were.
  pub record WakesAll (i n : ℕ) (w w' : Waiting) : Type 0 where
    pub locks : Same w'.locked w.locked
    pub running : (w'.sched).running_process ≡ (w.sched).running_process
    pub states :
        (p : ℕ)
        → (w'.sched).state p ≡ (if target w.sched i n p then runnable else (w.sched).state p)
    pub channels :
        (p : ℕ)
        → (w'.sched).waiting_channel p
          ≡ (if target w.sched i n p then 0 else (w.sched).waiting_channel p)

  -- the locks of the processes that the loop visits are free
  abbrev pub LocksFree : ℕ → ℕ → Waiting → Type 0
  LocksFree i n w =
      (k : ℕ)
      → i ≤ k
      → k < i + n
      → processes k ≢ 0
      → processes k ≢ (w.sched).running_process
      → w.locked (lock_of (processes k)) ≡ false

  pub waits-sleeps :
      (s : Sched) (p : ℕ) → waits_on channel s p ≡ true → is_sleeping (s.state p) ≡ true
  unfolding waits_on
  waits-sleeps s p e = first (is_sleeping (s.state p)) (s.waiting_channel p == channel) e
    where
      first : (b c : Bool) → (b && c) ≡ true → b ≡ true
      first true c e' = refl
      first false c e' = cc

  -- a slot that the loop passes by
  skip_slot :
      (i n : ℕ) (w w' : Waiting)
      → (processes i == 0 || processes i == (w.sched).running_process) ≡ true
      → WakesAll (suc i) n w w'
      → WakesAll i (suc n) w w'
  skip_slot i n w w' pass m = record {
    locks = m.locks;
    running = m.running;
    states = λ p. m.states p ∙ ap (λ b. if b then runnable else (w.sched).state p) (same p);
    channels = λ p. m.channels p ∙ ap (λ b. if b then 0 else (w.sched).waiting_channel p) (same p);
  }
    where
      same : (p : ℕ) → target w.sched (suc i) n p ≡ target w.sched i (suc n) p
      same p = elim (Bool-cases (processes i == p)) [
        | inl here ↦
            either (listed (suc i) n p) (listed i (suc n) p)
              (not (p == 0) && not (p == (w.sched).running_process)) (waits_on channel w.sched p)
              (neither (p == 0) (p == (w.sched).running_process) (
                subst (λ x. (x == 0 || x == (w.sched).running_process) ≡ true)
                  (==-eq (processes i) p here) pass))
        | inr other ↦ rw other refl
      ]

  -- a slot whose process does not wait
  quiet_slot :
      (i n : ℕ) (w u w' : Waiting)
      → u.sched ≡ w.sched
      → Same u.locked w.locked
      → waits_on channel w.sched (processes i) ≡ false
      → WakesAll (suc i) n u w'
      → WakesAll i (suc n) w w'
  quiet_slot i n w u w' same_sched same_locks quiet m = record {
    locks = λ x. m.locks x ∙ same_locks x;
    running = m.running ∙ ap (λ s. s.running_process) same_sched;
    states = λ p.
        m.states p
        ∙ ap (λ s. if target s (suc i) n p then runnable else s.state p) same_sched
        ∙ ap (λ b. if b then runnable else (w.sched).state p) (same p);
    channels = λ p.
        m.channels p
        ∙ ap (λ s. if target s (suc i) n p then 0 else s.waiting_channel p) same_sched
        ∙ ap (λ b. if b then 0 else (w.sched).waiting_channel p) (same p);
  }
    where
      same : (p : ℕ) → target w.sched (suc i) n p ≡ target w.sched i (suc n) p
      same p = elim (Bool-cases (processes i == p)) [
        | inl here ↦
            either_last (listed (suc i) n p) (listed i (suc n) p)
              (not (p == 0) && not (p == (w.sched).running_process)) (waits_on channel w.sched p)
              (subst (λ x. waits_on channel w.sched x ≡ false) (==-eq (processes i) p here) quiet)
        | inr other ↦ rw other refl
      ]

  -- a slot whose process is woken
  woken_slot :
      (i n : ℕ) (w u w' : Waiting)
      → (processes i == 0 || processes i == (w.sched).running_process) ≡ false
      → waits_on channel w.sched (processes i) ≡ true
      → Woke w.sched u.sched (processes i)
      → Same u.locked w.locked
      → WakesAll (suc i) n u w'
      → WakesAll i (suc n) w w'
  unfolding waits_on
  woken_slot i n w u w' pass waits k same_locks m = record {
    locks = λ x. m.locks x ∙ same_locks x;
    running = m.running ∙ k.running;
    states = λ p. elim (Bool-cases (processes i == p)) [
      | inl here ↦
          subst
            (λ x.
              (w'.sched).state x
              ≡ (if target w.sched i (suc n) x then runnable else (w.sched).state x))
            (==-eq (processes i) p here) (m.states q ∙ rw (asleep_no_more, hit) now_runnable)
      | inr other ↦
          m.states p
          ∙ rw (other, same_target p other, ap (λ f. f p) k.state, ==-comm p q ∙ other) refl
    ];
    channels = λ p. elim (Bool-cases (processes i == p)) [
      | inl here ↦
          subst
            (λ x.
              (w'.sched).waiting_channel x
              ≡ (if target w.sched i (suc n) x then 0 else (w.sched).waiting_channel x))
            (==-eq (processes i) p here) (m.channels q ∙ rw (asleep_no_more, hit) now_free)
      | inr other ↦
          m.channels p
          ∙ rw (other, same_target p other, ap (λ f. f p) k.channel, ==-comm p q ∙ other) refl
    ];
  }
    where
      q : ℕ
      q = processes i

      now_runnable : (u.sched).state q ≡ runnable
      now_runnable = ap (λ f. f q) k.state ∙ rw (==-refl q) refl

      now_free : (u.sched).waiting_channel q ≡ 0
      now_free = ap (λ f. f q) k.channel ∙ rw (==-refl q) refl

      last : (l c : Bool) → (l && c && false) ≡ false
      last true true = refl
      last true false = refl
      last false c = refl

      quiet_now : waits_on channel u.sched q ≡ false
      quiet_now = rw now_runnable refl

      asleep_no_more : target u.sched (suc i) n q ≡ false
      asleep_no_more =
          ap
            (λ b. listed (suc i) n q && (not (q == 0) && not (q == (u.sched).running_process)) && b)
            quiet_now
          ∙ last (listed (suc i) n q) (not (q == 0) && not (q == (u.sched).running_process))

      passes : (a b : Bool) → (a || b) ≡ false → (not a && not b) ≡ true
      passes true b e = cc
      passes false true e = cc
      passes false false e = refl

      hit : target w.sched i (suc n) q ≡ true
      hit =
          ap
            (λ b.
              (b || listed (suc i) n q)
              && (not (q == 0) && not (q == (w.sched).running_process))
              && waits_on channel w.sched q)
            (==-refl q)
          ∙ ap (λ b. b && waits_on channel w.sched q)
              (passes (q == 0) (q == (w.sched).running_process) pass)
          ∙ waits

      same_target :
          (p : ℕ) → (q == p) ≡ false → target u.sched (suc i) n p ≡ target w.sched (suc i) n p
      same_target p other =
          rw (ap (λ f. f p) k.state, ap (λ f. f p) k.channel, k.running, ==-comm p q ∙ other) refl

  -- the loop that wakes everyone
  wakeup_from-WakesAll :
      (i n : ℕ) (w : Waiting)
      → LocksFree i n w
      → (w' : Waiting) × (wakeup_from lock_of processes channel true i n w ≡ some w')
        × WakesAll i n w w'
  unfolding wakeup_from condvar_lock condvar_unlock wake_one
  wakeup_from-WakesAll i zero w free = (
    w,
    refl,
    record { locks = λ x. refl; running = refl; states = λ p. refl; channels = λ p. refl },
  )
  wakeup_from-WakesAll i (suc n) w free =
      elim (Bool-cases (processes i == 0 || processes i == (w.sched).running_process)) [
        | inl pass ↦
            let rest =
              wakeup_from-WakesAll (suc i) n w (λ k low high. free k (omega arith) (omega arith)) in
            (rest.0, rw pass rest.1, skip_slot i n w rest.0 pass rest.2)
        | inr visit ↦
            let q = processes i in
            let L = lock_of q in
            let some_q : q ≢ 0 =
              λ z. cc (subst (λ x. (x == 0 || x == (w.sched).running_process) ≡ false) z visit) in
            let not_my : q ≢ (w.sched).running_process = λ z. cc (
              second (q == 0) (q == (w.sched).running_process) visit,
              subst (λ x. (q == x) ≡ true) z (==-refl q),
            ) in
            let open_lock = free i (omega arith) (omega arith) some_q not_my in
            let locked' = update (update w.locked L true) L false in
            let same : Same locked' w.locked = λ x. lock_back w.locked L x open_lock in
            elim (Bool-cases (waits_on channel w.sched q)) [
              | inl waits ↦
                  let u : Waiting = record { sched = sched_wakeup w.sched q; locked = locked' } in
                  let k = sched_wakeup-Woke w.sched q (waits-sleeps w.sched q waits) in
                  let rest = wakeup_from-WakesAll (suc i) n u (λ j low high ne other.
                    same (lock_of (processes j))
                    ∙ free j (omega arith) (omega arith) ne (λ e. other (e ∙ sym k.running))) in
                  (
                    rest.0,
                    rw (visit, open_lock, waits, ==-refl L) rest.1,
                    woken_slot i n w u rest.0 visit waits k same rest.2,
                  )
              | inr quiet ↦
                  let u : Waiting = record { sched = w.sched; locked = locked' } in
                  let rest = wakeup_from-WakesAll (suc i) n u (λ j low high ne other.
                    same (lock_of (processes j)) ∙ free j (omega arith) (omega arith) ne other) in
                  (
                    rest.0,
                    rw (visit, open_lock, quiet, ==-refl L) rest.1,
                    quiet_slot i n w u rest.0 refl same quiet rest.2,
                  )
            ]
      ]

  -- When the locks of the other processes are free, waking everyone on a channel ends, leaves the locks as
  -- they were, and makes exactly the processes of the table that sleep on the channel, but for the running
  -- one, runnable and takes them off the channel; no other process changes its state or channel.
  pub proc_wakeup-WakesAll :
      (w : Waiting)
      → LocksFree 0 max_processes w
      → (w' : Waiting) × (proc_wakeup lock_of processes channel true w ≡ some w')
        × WakesAll 0 max_processes w w'
  unfolding proc_wakeup
  proc_wakeup-WakesAll w free = wakeup_from-WakesAll 0 max_processes w free
