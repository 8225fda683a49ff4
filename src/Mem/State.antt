-- ===== src/Mem/State.antt =====
-- State of kernel/src/mem/mem.c: the intrusive list of freed pages and the list of regions that
-- have not been carved yet.
use dz_os.Prelude.{
  ℕ, ◌+◌, ◌-◌, ◌*◌, ◌%◌, ◌^◌, Bool, List, Option, none, some, ltb, leb, ◌==◌, ◌&&◌, if◌then◌else◌,
  u64, update,
}

abbrev pub page_size : ℕ
page_size = 4096

abbrev pub static_region_pool_size : ℕ
static_region_pool_size = 32

-- What a page holds: 4096 equal bytes, or the `next` pointer of a free page in its first word.
pub data Page : Type 0 where
  fill : ℕ → Page
  link : ℕ → Page

-- the first word of a page
unfoldable pub next_of : Page → ℕ
next_of (fill b) = b * 0x0101_0101_0101_0101
next_of (link p) = p

pub record Region : Type 0 where
  pub phys_cur : ℕ
  pub phys_end : ℕ

-- `page` is memory by the virtual address of each page; a null pointer is 0.
pub record Mem : Type 0 where
  pub hhdm_offset : ℕ
  pub phys_max_end : ℕ
  pub freepages : ℕ
  pub page : ℕ → Page
  pub regions : List Region
  pub mem_initialized : Bool
  pub static_region_pool_idx : ℕ

abbrev pub v2p : Mem → ℕ → ℕ
v2p m p = (p + 2 ^ 64 - m.hhdm_offset) % 2 ^ 64

abbrev pub p2v : Mem → ℕ → ℕ
p2v m p = u64 (p + m.hhdm_offset)

-- `n & ~(PAGE_SIZE - 1)`: PAGE_SIZE is the 32-bit 4096u, so the mask is 0xffff_f000 and clears the
-- upper half of a 64-bit operand too.
abbrev pub page_mask : ℕ → ℕ
page_mask n = n % 2 ^ 32 - n % page_size

-- `(n + PAGE_SIZE - 1) & ~(PAGE_SIZE - 1)`
abbrev pub page_round_up : ℕ → ℕ
page_round_up n = page_mask (u64 (n + (page_size - 1)))

-- `memset(page, b, n * PAGE_SIZE)`
unfoldable pub memset : Mem → ℕ → ℕ → ℕ → Mem
memset m base b n = record m {
  page = λ a. if leb base a && ltb a (base + n * page_size) then fill b else m.page a;
}

unfoldable pub push_free_page : Mem → ℕ → Mem
push_free_page m p = record m { page = update m.page p (link m.freepages); freepages = p }

-- the page taken, or 0
unfoldable pub pop_free_page : Mem → ℕ × Mem
pop_free_page m =
    if m.freepages == 0
    then (0, m)
    else (m.freepages, record m { freepages = next_of (m.page m.freepages) })

-- `a & (PAGE_SIZE - 1)`, as a test
abbrev pub unaligned : ℕ → Bool
unaligned a = ltb 0 (a % page_size)

-- `none` is a panic.
unfoldable pub kfree : Mem → ℕ → Option Mem
unfolding push_free_page
kfree m p =
    if p == 0
    then some m
    else if unaligned p
    then none
    else if unaligned (v2p m p)
    then none
    else some (push_free_page m p)
