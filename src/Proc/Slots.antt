-- ===== src/Proc/Slots.antt =====
-- The compaction of the process table in kernel/src/userspace/scheduler.c, and where the next process goes.
use dz_os.Prelude.{
  ℕ, zero, suc, ◌+◌, ◌-◌, ◌^◌, ◌≤◌, ◌<◌, ◌≡◌, refl, sym, ◌∙◌, ◌≢◌, false, ◌&&◌, arith, ltb, leb,
  ◌==◌, if◌then◌else◌, ==-ne, update,
}
use dz_os.Proc.Table.{Slots, shift_slots, coelesce_processes}

-- the slots behind the compaction's loop over `n` processes from `j` on
abbrev shifted : ℕ → ℕ → (ℕ → ℕ) → ℕ → ℕ
shifted j n f k =
    if leb (j - 1) k && ltb k (j - 1 + n)
    then f (k + 1)
    else if ltb 0 n && (k == j + n - 1)
    then 0
    else f k

shifted_step :
    (n j : ℕ) (f : ℕ → ℕ) (k : ℕ)
    → 0 < j
    → shifted (suc j) n (update (update f (j - 1) (f j)) j 0) k ≡ shifted j (suc n) f k
shifted_step n j f k pos = ground arith

last_slot :
    (i count : ℕ) (f : ℕ → ℕ) (k : ℕ)
    → i < count
    → f i ≡ 0
    → shifted (suc i) (count - suc i) f k
      ≡ (if leb i k && ltb k (count - 1) then f (k + 1) else if k == count - 1 then 0 else f k)
last_slot i count f k below empty = ground arith

shift_lem :
    (n j : ℕ) (s : Slots)
    → 0 < j
    → ((k : ℕ) → j ≤ k → k < j + n → (s.0) k ≢ 0)
    → (k : ℕ) → (shift_slots j n s).0 k ≡ shifted j n s.0 k
unfolding shift_slots
shift_lem zero j s pos full k = ground arith
shift_lem (suc n) j s pos full k =
    let p = (s.0) j in
    let ne : (p == 0) ≡ false = ==-ne p 0 (full j (omega arith) (omega arith)) in
    let s' : Slots = (update (update s.0 (j - 1) p) j 0, update s.1 p (j - 1)) in
    let kept : (i : ℕ) → suc j ≤ i → (s'.0) i ≡ (s.0) i =
      λ i low. rw (==-ne i j (omega arith), ==-ne i (j - 1) (omega arith)) refl in
    let rest =
      shift_lem n (suc j) s' (omega arith)
        (λ i low high zero_at. full i (omega arith) (omega arith) (sym (kept i low) ∙ zero_at)) k in
    rw ne (rest ∙ shifted_step n j s.0 k pos)

-- When the process at slot `i` has been taken out and the slots from there to the count are full, the
-- compaction moves each of the processes above one slot down, empties the last slot and leaves the
-- others; the count is one less.
pub coelesce_processes-Slots :
    (i count least : ℕ) (processes index : ℕ → ℕ)
    → i < count
    → count < 2 ^ 64
    → ((k : ℕ) → i < k → k < count → processes k ≢ 0)
    → processes i ≡ 0
    → let r = coelesce_processes i count least processes index in
      (r.0.0 ≡ count - 1)
      × ((k : ℕ)
          → (r.1.0) k ≡ (
              if leb i k && ltb k (count - 1)
              then processes (k + 1)
              else if k == count - 1
              then 0
              else processes k))
unfolding coelesce_processes
coelesce_processes-Slots i count least processes index below bound full empty = (
  omega arith,
  λ k.
      shift_lem (count - suc i) (suc i) (processes, index) (omega arith)
        (λ j low high. full j (omega arith) (omega arith)) k
      ∙ last_slot i count processes k below empty,
)
