-- ===== src/Vmm/Table.antt =====
-- Page table entries, the state and the calls of kernel/src/mem/vmm.c. Memory is its bytes by address.
use dz_os.Prelude.{
  ℕ, ◌+◌, ◌-◌, ◌*◌, ◌/◌, ◌%◌, ◌^◌, Bool, not, ◌&&◌, Option, none, some, ltb, leb, ◌==◌,
  if◌then◌else◌, u64,
}
use dz_os.Heap.Free.{get_u64, put_u64}

-- `USERSPACE_VA_MAX`, `USERSPACE_VA_MIN` and `KERNEL_VA_MIN`
abbrev pub userspace_va_max : ℕ
userspace_va_max = 2 ^ 46

abbrev pub userspace_va_min : ℕ
userspace_va_min = 2 ^ 22

abbrev pub kernel_va_min : ℕ
kernel_va_min = 2 ^ 47

-- `PTE_ADDR` and `PTE_SET_ADDR`: bits 12 to 51
unfoldable pub pte_addr : ℕ → ℕ
pte_addr e = e % 2 ^ 52 - e % 2 ^ 12

-- bit `k` of an entry, 0 `PTE_P`, 1 `PTE_W`, 2 `PTE_U`, 7 `PTE_PS`, 63 `PTE_XD`
abbrev pub pte_bit : ℕ → ℕ → Bool
pte_bit k e = (e / 2 ^ k) % 2 == 1

unfoldable pub pte_is_present : ℕ → Bool
pte_is_present e = pte_bit 0 e

unfoldable pub pte_is_writable : ℕ → Bool
pte_is_writable e = pte_bit 1 e

unfoldable pub pte_is_user : ℕ → Bool
pte_is_user e = pte_bit 2 e

unfoldable pub pte_is_huge : ℕ → Bool
pte_is_huge e = pte_bit 7 e

unfoldable pub pte_is_no_execute : ℕ → Bool
pte_is_no_execute e = pte_bit 63 e

pub record PtePermissions : Type 0 where
  pub writable : Bool
  pub executable : Bool
  pub userspace : Bool

abbrev pub when : Bool → ℕ → ℕ
when b n = if b then n else 0

-- The entry of a frame. An address has none of the bits of the flags, so `|` adds them.
unfoldable pub frame_pte : ℕ → PtePermissions → ℕ
frame_pte pa perm =
    1
    + pte_addr pa
    + when perm.writable 2
    + when (not perm.executable) (2 ^ 63)
    + when perm.userspace 4

-- `PTE_INDEX_FROM_VA`
unfoldable pub pte_index : ℕ → ℕ → ℕ
pte_index va level = va / 2 ^ 12 / 2 ^ (level * 9) % 512

-- `&pagetable[PTE_INDEX_FROM_VA(va, level)]`
abbrev pub pte_at : ℕ → ℕ → ℕ → ℕ
pte_at table va level = table + 8 * pte_index va level

-- The calls of kernel/src/mem/mem.c, on memory and their own state `P`: a page's address or 0, and `none`
-- for a panic.
pub record FrameAllocator (P : Type 0) : Type 0 where
  pub kalloc : (ℕ → ℕ) → P → ℕ × (ℕ → ℕ) × P
  pub kcalloc : (ℕ → ℕ) → P → ℕ × (ℕ → ℕ) × P
  pub kalloc_for_page_cache : (ℕ → ℕ) → P → ℕ × (ℕ → ℕ) × P
  pub kfree : ℕ → (ℕ → ℕ) → P → Option ((ℕ → ℕ) × P)
  pub kalloc_pages : ℕ → (ℕ → ℕ) → P → ℕ × (ℕ → ℕ) × P
  pub kfree_pages : ℕ → ℕ → (ℕ → ℕ) → P → Option ((ℕ → ℕ) × P)

-- memory, the allocator's state, and the static variables of mem.c and vmm.c
pub record Vm (P : Type 0) : Type 0 where
  pub memory : ℕ → ℕ
  pub pages : P
  pub hhdm_offset : ℕ
  pub phys_max_end : ℕ
  pub kernel_pagetable : ℕ
  pub io_memmap_current_address : ℕ

module _ {P : Type 0} where
  -- `P2V` and `V2P`
  abbrev pub p2v : Vm P → ℕ → ℕ
  p2v v pa = u64 (pa + v.hhdm_offset)

  abbrev pub v2p : Vm P → ℕ → ℕ
  v2p v p = u64 (p + 2 ^ 64 - v.hhdm_offset)

  abbrev pub read_pte : Vm P → ℕ → ℕ
  read_pte v at = get_u64 v.memory at

  unfoldable pub write_pte : ℕ → ℕ → Vm P → Vm P
  write_pte at e v = record v { memory = put_u64 v.memory at e }

  -- `memset(p, b, n)`
  unfoldable pub fill_bytes : ℕ → ℕ → ℕ → Vm P → Vm P
  fill_bytes p b n v = record v { memory = λ a. if leb p a && ltb a (p + n) then b else v.memory a }

  -- the result of an allocation: the page, and the state
  unfoldable pub allocated : ℕ × (ℕ → ℕ) × P → Vm P → ℕ × Vm P
  allocated r v = (r.0, record v { memory = r.1; pages = r.2 })

  unfoldable pub freed : Option ((ℕ → ℕ) × P) → Vm P → Option (Vm P)
  freed none v = none
  freed (some r) v = some (record v { memory = r.0; pages = r.1 })
