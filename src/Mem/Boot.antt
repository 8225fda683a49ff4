-- ===== src/Mem/Boot.antt =====
-- What `init_mem` of kernel/src/mem/mem.c makes of the memory map.
use dz_os.Prelude.{
  ℕ, ◌+◌, ◌%◌, ◌^◌, ◌≤◌, ◌<◌, ◌≡◌, refl, ap, ◌∙◌, inl, inr, Bool, true, false, Option, none, some,
  List, [], ◌∷◌, ◌++◌, arith, ltb, leb, ◌==◌, if◌then◌else◌, u64, Bool-cases, ◌>>=◌, length, All,
  length-append,
}
use dz_os.Mem.State.{Mem, Region, page_size, static_region_pool_size, page_mask, page_round_up}
use dz_os.Mem.Init.{Entry, append_region, add_entry, add_entries, init_mem}

-- A region of whole pages below 4 GiB.
pub record IsLow (r : Region) : Type 0 where
  pub nonempty : r.phys_cur < r.phys_end
  pub cur_aligned : r.phys_cur % page_size ≡ 0
  pub end_aligned : r.phys_end % page_size ≡ 0
  pub low : r.phys_end < 2 ^ 32

-- Every region is one of these, and each took a node of the static pool.
pub record IsBooted (m : Mem) : Type 0 where
  pub regions : All IsLow m.regions
  pub pool : m.static_region_pool_idx ≡ length m.regions

All-append : (rs : List Region) (r : Region) → All IsLow rs → IsLow r → All IsLow (rs ++ (r ∷ []))
All-append [] r h l = (l, tt)
All-append (x ∷ rs) r h l = (h.0, All-append rs r h.1 l)

-- What a step of the boot leaves: a state in order, with at most one more node in use.
record Boots (m m' : Mem) : Type 0 where
  pub booted : IsBooted m'
  pub early : m'.mem_initialized ≡ false
  pub nodes : m'.static_region_pool_idx ≤ m.static_region_pool_idx + 1

append-Boots :
    (s e : ℕ) (m : Mem)
    → IsLow (record { phys_cur = s; phys_end = e })
    → IsBooted m
    → m.mem_initialized ≡ false
    → m.static_region_pool_idx < static_region_pool_size
    → (m' : Mem) × (append_region s e m ≡ some m') × Boots m m'
unfolding append_region
append-Boots s e m l b early room =
    let m' : Mem = record m {
      static_region_pool_idx = m.static_region_pool_idx + 1;
      regions = m.regions ++ (record { phys_cur = s; phys_end = e } ∷ []);
    } in
    let some_pages : leb e s ≡ false = ground (arith, l.nonempty) in
    let left : leb 32 m.static_region_pool_idx ≡ false = ground arith in
    (
      m',
      simp (some_pages, early, left) refl,
      record {
        booted = record {
          regions = All-append m.regions (record { phys_cur = s; phys_end = e }) b.regions l;
          pool =
              omega (
                arith,
                b.pool,
                length-append m.regions (record { phys_cur = s; phys_end = e } ∷ []),
              );
        };
        early = early;
        nodes = omega arith;
      },
    )

page_mask_low : (n : ℕ) → (page_mask n % page_size ≡ 0) × (page_mask n < 2 ^ 32)
page_mask_low n = (omega arith, omega arith)

-- a change of `phys_max_end` alone
keep-Boots :
    (end : ℕ) (m : Mem)
    → IsBooted m
    → m.mem_initialized ≡ false
    → Boots m (record m { phys_max_end = end })
keep-Boots end m b early = record {
  booted = record { regions = b.regions; pool = b.pool };
  early = early;
  nodes = omega arith;
}

add_entry-Boots :
    (e : Option Entry) (m : Mem)
    → IsBooted m
    → m.mem_initialized ≡ false
    → m.static_region_pool_idx < static_region_pool_size
    → (m' : Mem) × (add_entry e m ≡ some m') × Boots m m'
unfolding add_entry
add_entry-Boots none m b early room =
    (m, refl, record { booted = b; early = early; nodes = omega arith })
add_entry-Boots (some e) m b early room =
    let end = u64 (e.base + e.length) in
    let top = if ltb m.phys_max_end end then end else m.phys_max_end in
    let m1 : Mem = record m { phys_max_end = top } in
    let kept : Boots m m1 = keep-Boots top m b early in
    elim (Bool-cases (e.type == 0)) [
      | inr other ↦ (m1, simp other refl, kept)
      | inl usable ↦ elim (Bool-cases (ltb e.length page_size)) [
        | inl short ↦ (m1, simp (usable, short) refl, kept)
        | inr long ↦ elim (Bool-cases (leb (page_mask end) (page_round_up e.base))) [
          | inl empty ↦ (m1, simp (usable, long, empty) refl, kept)
          | inr full ↦
              let low : IsLow
                  (record { phys_cur = page_round_up e.base; phys_end = page_mask end }) =
                record {
                  nonempty = ground arith;
                  cur_aligned = (page_mask_low (u64 (e.base + 4095))).0;
                  end_aligned = (page_mask_low end).0;
                  low = (page_mask_low end).1;
                } in
              let (m', eq, boots) =
                append-Boots (page_round_up e.base) (page_mask end) m1 low kept.booted early room in
              (
                m',
                simp (usable, long, full) eq,
                record { booted = boots.booted; early = boots.early; nodes = boots.nodes },
              )
        ]
      ]
    ]

add_entries_boots :
    (es : List (Option Entry)) (m : Mem)
    → IsBooted m
    → m.mem_initialized ≡ false
    → m.static_region_pool_idx + length es ≤ static_region_pool_size
    → (m' : Mem) × (add_entries es m ≡ some m') × IsBooted m'
unfolding add_entries
add_entries_boots [] m b early room = (m, refl, b)
add_entries_boots (e ∷ es) m b early room =
    let (m1, eq, boots) = add_entry-Boots e m b early (omega arith) in
    let (m', eq', b') =
      add_entries_boots es m1 boots.booted boots.early (omega (arith, boots.nodes, room)) in
    (m', rw eq eq', b')

else_of : (x y : Option Mem) (b : Bool) → b ≡ false → (if b then x else y) ≡ y
else_of x y true h = cc
else_of x y false h = refl

-- From a memory map of at most 32 entries the boot succeeds, with regions of whole pages that all end
-- below 4 GiB, wherever the entries lie, each on a node of the static pool.
pub init_mem-IsBooted :
    (hhdm : ℕ) (es : List (Option Entry)) (m : Mem)
    → IsBooted m
    → m.mem_initialized ≡ false
    → m.static_region_pool_idx + length es ≤ static_region_pool_size
    → (m' : Mem) × (init_mem hhdm (some es) m ≡ some m') × IsBooted m'
unfolding init_mem
init_mem-IsBooted hhdm es m b early room =
    let finish : Mem → Option Mem = λ m''. some (record m'' { mem_initialized = true }) in
    let (m', eq, b') =
      add_entries_boots es (record m { hhdm_offset = hhdm })
        (record { regions = b.regions; pool = b.pool }) early room in
    (
      record m' { mem_initialized = true },
      else_of (some m) _ m.mem_initialized early ∙ ap (λ r. r >>= finish) eq,
      record { regions = b'.regions; pool = b'.pool },
    )
