-- ===== src/Device/Search.antt =====
-- The searches of kernel/src/drivers/device_manager.c by name and by interrupt.
use dz_os.Prelude.{
  ℕ, zero, suc, ◌+◌, ◌≤◌, ◌<◌, ◌≡◌, sym, subst, inl, inr, Bool, true, false, ◌&&◌, Option, none,
  some, List, arith, ◌==◌, Bool-cases,
}
use dz_os.Prelude.{==-eq}
use dz_os.Device.State.{Manager}
use dz_os.Device.Find.{find_from, is_named, device_find_by_name, device_find_by_irq}

-- What a search over the entries from `at`, `n` of them, has to return.
abbrev pub FindsFirst : (ℕ → Bool) → ℕ → ℕ → Option ℕ → Type 0
FindsFirst test at n none = (j : ℕ) → at ≤ j → j < at + n → test j ≡ false
FindsFirst test at n (some i) =
    (at ≤ i) × (i < at + n) × (test i ≡ true) × ((j : ℕ) → at ≤ j → j < i → test j ≡ false)

finds_later :
    (test : ℕ → Bool) (at n : ℕ) (r : Option ℕ)
    → test at ≡ false
    → FindsFirst test (suc at) n r
    → FindsFirst test at (suc n) r
finds_later test at n none h f = λ j low high. elim (Bool-cases (j == at)) [
  | inl eq ↦ subst (λ k. test k ≡ false) (sym (==-eq j at eq)) h
  | inr ne ↦ f j (ground arith) (omega arith)
]
finds_later test at n (some i) h (low, high, hit, before) = (
  omega arith,
  omega arith,
  hit,
  λ j le lt. elim (Bool-cases (j == at)) [
    | inl eq ↦ subst (λ k. test k ≡ false) (sym (==-eq j at eq)) h
    | inr ne ↦ before j (ground arith) lt
  ],
)

pub find_from-FindsFirst : (test : ℕ → Bool) (at n : ℕ) → FindsFirst test at n (find_from test at n)
unfolding find_from
find_from-FindsFirst test at zero = λ j low high. absurd (omega arith)
find_from-FindsFirst test at (suc n) = elim (Bool-cases (test at)) [
  | inl h ↦ rw h (omega arith, omega arith, h, λ j le lt. absurd (omega arith))
  | inr h ↦
      rw h
        (finds_later test at n (find_from test (suc at) n) h (find_from-FindsFirst test (suc at) n))
]

-- A search by name returns the first registered device of that name, and NULL only when none has it.
pub find_by_name-FindsFirst :
    (m : Manager) (name : List ℕ)
    → FindsFirst
        (λ i. is_named name (m.devices i))
        0
        m.device_count
        (device_find_by_name m (some name))
unfolding device_find_by_name
find_by_name-FindsFirst m name =
    find_from-FindsFirst (λ i. is_named name (m.devices i)) 0 m.device_count

-- A search by interrupt returns the first initialised device on that line, and NULL only when there is
-- none.
pub find_by_irq-FindsFirst :
    (m : Manager) (irq : ℕ)
    → FindsFirst
        (λ i. ((m.devices i).irq == irq) && (m.devices i).initialized)
        0
        m.device_count
        (device_find_by_irq m irq)
unfolding device_find_by_irq
find_by_irq-FindsFirst m irq =
    find_from-FindsFirst (λ i. ((m.devices i).irq == irq) && (m.devices i).initialized) 0
      m.device_count
