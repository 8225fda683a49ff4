-- ===== src/Dzfs/Contents.antt =====
-- The entries of a folder (`folder_content_count` and `folder_remove_content` of kernel/src/fs/dzfs.c).
use dz_os.Prelude.{
  ℕ, zero, suc, ◌+◌, ◌-◌, ◌*◌, ◌^◌, ◌≤◌, ◌<◌, ◌≡◌, refl, sym, ap, ◌∙◌, ◌≢◌, ◌⊎◌, inl, inr, Bool,
  true, false, Option, none, some, arith, ltb, ◌==◌, if◌then◌else◌, Bool-cases, ==-ne,
}
use dz_os.Prelude.{==-eq, ==-ne}
use dz_os.Dzfs.Block.{
  Block, content_dnodes, set_content_dnodes, get_u32-put_u32_self, get_u32-put_u32_ne,
  get_u32-bounds,
}
use dz_os.Dzfs.Count.{count, count-ext}
use dz_os.Dzfs.Folder.{
  first_empty, folder_content_count, find_slot, remove_slot, remove_found, folder_remove_content,
}

-- The first `n` slots of a folder are in use, and no other.
pub record HasContents (dir : Block) (n : ℕ) : Type 0 where
  pub size : n ≤ 957
  pub used : (k : ℕ) → k < n → content_dnodes dir k ≢ 0
  pub empty : (k : ℕ) → n ≤ k → k < 957 → content_dnodes dir k ≡ 0

-- how many slots hold `x`
abbrev pub occurrences : Block → ℕ → ℕ
occurrences dir x = count (λ k. content_dnodes dir k == x) 0 957

first_empty-stops :
    (dir : Block) (i n m : ℕ)
    → i ≤ m
    → m ≤ i + n
    → ((k : ℕ) → k < m → content_dnodes dir k ≢ 0)
    → (m < i + n → content_dnodes dir m ≡ 0)
    → first_empty dir i n ≡ m
unfolding first_empty
first_empty-stops dir i zero m low high used empty = omega arith
first_empty-stops dir i (suc n) m low high used empty = elim (Bool-cases (i == m)) [
  | inl e ↦
      let at : i ≡ m = ==-eq i m e in
      let zero_at : (content_dnodes dir i == 0) ≡ true =
        ground (arith, empty (omega arith), ap (content_dnodes dir) at) in
      rw zero_at at
  | inr ne ↦
      let full : (content_dnodes dir i == 0) ≡ false = ==-ne _ 0 (used i (ground arith)) in
      rw full (
        first_empty-stops dir (suc i) n m (ground arith) (omega arith) used
          (λ h. empty (omega arith)))
]

pub content_count-contents :
    (dir : Block) (n : ℕ) → HasContents dir n → folder_content_count dir ≡ n
unfolding folder_content_count
content_count-contents dir n v =
    first_empty-stops dir 0 957 n (omega arith) (omega (arith, v.size)) v.used
      (λ h. v.empty n (omega arith) (omega arith))

-- a write to one slot
pub content_dnodes-set :
    (dir : Block) (i v k : ℕ)
    → v < 2 ^ 32
    → content_dnodes (set_content_dnodes dir i v) k ≡ (if k == i then v else content_dnodes dir k)
content_dnodes-set dir i v k small = elim (Bool-cases (k == i)) [
  | inl e ↦
      let at : k ≡ i = ==-eq k i e in
      rw (e, at, get_u32-put_u32_self dir (268 + 4 * i) v small) refl
  | inr ne ↦
      let apart : (268 + 4 * k + 4 ≤ 268 + 4 * i) ⊎ (268 + 4 * i + 4 ≤ 268 + 4 * k) =
        ground arith in
      rw (ne, get_u32-put_u32_ne dir (268 + 4 * i) v (268 + 4 * k) apart) refl
]

find_slot-some :
    (dir : Block) (target i n k : ℕ)
    → find_slot dir target i n ≡ some k
    → (i ≤ k) × (k < i + n) × (content_dnodes dir k ≡ target)
unfolding find_slot
find_slot-some dir target i zero k h = ground arith
find_slot-some dir target i (suc n) k h = grind (arith, find_slot-some dir target (suc i) n k)

find_slot-none :
    (dir : Block) (target i n k : ℕ)
    → find_slot dir target i n ≡ none
    → i ≤ k
    → k < i + n
    → content_dnodes dir k ≢ target
unfolding find_slot
find_slot-none dir target i zero k h low high = absurd (omega arith)
find_slot-none dir target i (suc n) k h low high =
    grind (arith, find_slot-none dir target (suc i) n k)

bit_of : Bool → ℕ
bit_of b = if b then 1 else 0

-- One number's having the property changes.
count-change :
    (p q : ℕ → Bool) (d i n : ℕ)
    → ((j : ℕ) → j ≢ d → q j ≡ p j)
    → i ≤ d
    → d < i + n
    → count q i n + bit_of (p d) ≡ count p i n + bit_of (q d)
unfolding count bit_of
count-change p q d i zero h low high = absurd (omega arith)
count-change p q d i (suc n) h low high = elim (Bool-cases (i == d)) [
  | inl e ↦
      let at : i ≡ d = ==-eq i d e in
      let rest : count q (suc i) n ≡ count p (suc i) n =
        count-ext q p (suc i) (suc i) n (λ k hk. h (suc i + k) (omega arith)) in
      rw (rest, at) (omega arith)
  | inr e ↦
      let here : q i ≡ p i = h i (ground arith) in
      let rest = count-change p q d (suc i) n h (ground arith) (omega arith) in
      rw here (omega (arith, rest))
]

-- the slots after a removal
content_dnodes-remove_slot :
    (dir : Block) (last i k : ℕ)
    → i ≤ last
    → content_dnodes (remove_slot dir last i) k
      ≡ (if k == last then 0 else if k == i then content_dnodes dir last else content_dnodes dir k)
unfolding remove_slot
content_dnodes-remove_slot dir last i k h = elim (Bool-cases (last == 0)) [
  | inl e ↦ rw e (ground (arith, content_dnodes-set dir 0 0 k (omega arith)))
  | inr ne ↦ elim (Bool-cases (last == i)) [
    | inl same ↦ rw (ne, same) (ground (arith, content_dnodes-set dir last 0 k (omega arith)))
    | inr apart ↦
        let moved = set_content_dnodes dir i (content_dnodes dir last) in
        rw (ne, apart)
          (ground (
            arith,
            content_dnodes-set moved last 0 k (omega arith),
            content_dnodes-set dir i (content_dnodes dir last) k
                (get_u32-bounds dir (268 + 4 * last)),
          ))
  ]
]

-- What a removal leaves: one entry less and no gap, the target once less, every other entry as often as
-- before, and the header alone.
pub record Removed (dir : Block) (n target : ℕ) (after : Block) : Type 0 where
  pub contents : HasContents after (n - 1)
  pub target_once : occurrences after target + 1 ≡ occurrences dir target
  pub others : (x : ℕ) → x ≢ 0 → x ≢ target → occurrences after x ≡ occurrences dir x

occurrences-remove_slot :
    (dir : Block) (last i x : ℕ)
    → i ≤ last
    → last < 957
    → x ≢ 0
    → occurrences (remove_slot dir last i) x + bit_of (content_dnodes dir i == x)
      ≡ occurrences dir x
unfolding bit_of
occurrences-remove_slot dir last i x h small nz =
    let moved : ℕ → Bool =
      λ k. if k == i then content_dnodes dir last == x else content_dnodes dir k == x in
    let gone : ℕ → Bool = λ k. content_dnodes (remove_slot dir last i) k == x in
    let first =
      count-change (λ k. content_dnodes dir k == x) moved i 0 957 (λ k ne. rw (==-ne k i ne) refl)
        (omega arith) (omega arith) in
    let second =
      count-change moved gone last 0 957
        (λ k ne. ground (arith, ==-ne k last ne, content_dnodes-remove_slot dir last i k h))
        (omega arith) (omega arith) in
    let cleared : gone last ≡ false =
      ground (arith, content_dnodes-remove_slot dir last i last h) in
    let from_last : moved last ≡ (content_dnodes dir last == x) = ground arith in
    let to_i : moved i ≡ (content_dnodes dir last == x) = ground arith in
    ground (arith, first, second, cleared, from_last, to_i)

remove_slot-Removed :
    (dir : Block) (n i target : ℕ)
    → HasContents dir n
    → target ≢ 0
    → i < n
    → content_dnodes dir i ≡ target
    → Removed dir n target (remove_slot dir (n - 1) i)
unfolding bit_of
remove_slot-Removed dir n i target v nz hi is =
    let last : n - 1 < 957 = omega (arith, v.size) in
    let at = λ (k : ℕ). content_dnodes-remove_slot dir (n - 1) i k (omega arith) in
    record {
      contents = record {
        size = omega (arith, v.size);
        used = λ k hk. ground (arith, at k, v.used k (omega arith), v.used (n - 1) (omega arith));
        empty = λ k low high. ground (arith, at k, v.empty k);
      };
      target_once =
          let hit : (content_dnodes dir i == target) ≡ true = ground (arith, is) in
          ground (arith, occurrences-remove_slot dir (n - 1) i target (omega arith) last nz, hit);
      others = λ x ne other.
          let missed : (content_dnodes dir i == x) ≡ false = ground (arith, is, other) in
          ground (arith, occurrences-remove_slot dir (n - 1) i x (omega arith) last ne, missed);
    }

-- `folder_remove_content` on a folder without gaps, for a target other than 0: when the target is among the
-- entries, one entry that holds it is removed, and the others keep their number; when it is not, the call says
-- so and changes nothing.
pub remove_content-Removed :
    (dir : Block) (n target : ℕ)
    → HasContents dir n
    → target ≢ 0
    → (((folder_remove_content dir target).0 ≡ true)
        × Removed dir n target (folder_remove_content dir target).1)
      ⊎ ((folder_remove_content dir target ≡ (false, dir))
          × ((k : ℕ) → k < 957 → content_dnodes dir k ≢ target))
unfolding folder_remove_content remove_found
remove_content-Removed dir n target v nz = cases (find_slot dir target 0 957) refl
  where
    cases :
        (r : Option ℕ)
        → find_slot dir target 0 957 ≡ r
        → (((remove_found dir r).0 ≡ true) × Removed dir n target (remove_found dir r).1)
          ⊎ ((remove_found dir r ≡ (false, dir))
              × ((k : ℕ) → k < 957 → content_dnodes dir k ≢ target))
    cases none is =
        inr (refl, λ k hk. find_slot-none dir target 0 957 k is (omega arith) (omega arith))
    cases (some i) is =
        let at = find_slot-some dir target 0 957 i is in
        let inside : i < n = elim (Bool-cases (ltb i n)) [
          | inl e ↦ ground arith
          | inr e ↦ absurd (nz (sym at.2 ∙ v.empty i (ground arith) (omega (arith, at.1))))
        ] in
        inl (
          refl,
          rw (content_count-contents dir n v) (remove_slot-Removed dir n i target v nz inside at.2),
        )
