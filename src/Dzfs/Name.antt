-- ===== src/Dzfs/Name.antt =====
-- Names in dnodes: what `new_dnode` stores is the name that the search of kernel/src/fs/dzfs.c compares.
use dz_os.Prelude.{
  ℕ, zero, suc, ◌+◌, ◌/◌, ◌^◌, ◌≤◌, ◌<◌, ◌≡◌, refl, sym, ap, ◌∙◌, ◌≢◌, ◌⊎◌, inl, Bool, true, false,
  List, [], ◌∷◌, arith, ◌==◌, if◌then◌else◌, u32, ==-refl, length, get_or, take, All,
}
use dz_os.Prelude.{get_or, take, All, ==-refl}
use dz_os.Dzfs.Block.{Block, get_u8, put_u8, put_u32, put_u32_ne, zero_block, header_name}
use dz_os.Dzfs.Folder.{name_is}
use dz_os.Dzfs.Open.{put_bytes, new_dnode, path_next_part_len, path_last_part, slash, dot}

-- a character that can stand in a name
abbrev pub IsCharacter : ℕ → Type 0
IsCharacter c = (c < 256) × (c ≢ slash)

-- a name as a path of one part, which starts with no dot
pub record IsName (name : List ℕ) : Type 0 where
  pub characters : All IsCharacter name
  pub some_character : 0 < length name
  pub short : length name ≤ 254
  pub no_dot : get_or name 0 0 ≢ dot

put_bytes-out :
    (b : Block) (i : ℕ) (xs : List ℕ) (j : ℕ)
    → (j < i) ⊎ (i + length xs ≤ j)
    → get_u8 (put_bytes b i xs) j ≡ get_u8 b j
unfolding put_bytes
put_bytes-out b i [] j out = refl
put_bytes-out b i (x ∷ xs) j out =
    let ne : (j == i) ≡ false = ground arith in
    let rest = put_bytes-out (put_u8 b i x) (suc i) xs j (omega arith) in ground (arith, rest, ne)

pub put_bytes-at :
    (b : Block) (i : ℕ) (xs : List ℕ) (k : ℕ)
    → All IsCharacter xs
    → k < length xs
    → get_u8 (put_bytes b i xs) (i + k) ≡ get_or xs k 0
unfolding put_bytes
put_bytes-at b i [] k chars h = absurd (omega arith)
put_bytes-at b i (x ∷ xs) zero chars h =
    let at : i + 0 ≡ i = omega arith in
    let rest = put_bytes-out (put_u8 b i x) (suc i) xs i (omega arith) in
    rw (at, rest) (ground (arith, chars.0))
put_bytes-at b i (x ∷ xs) (suc k) chars h =
    let at : i + suc k ≡ suc i + k = omega arith in
    rw at (put_bytes-at (put_u8 b i x) (suc i) xs k chars.1 (omega arith))

name_is-bytes :
    (b : Block) (i : ℕ) (name : List ℕ)
    → ((k : ℕ) → k < length name → header_name b (i + k) ≡ get_or name k 0)
    → header_name b (i + length name) ≡ 0
    → name_is b i name ≡ true
unfolding name_is
name_is-bytes b i [] chars end =
    let at : i + 0 ≡ i = omega arith in
    let end_at : header_name b i ≡ 0 = ap (header_name b) (sym at) ∙ end in ground (arith, end_at)
name_is-bytes b i (c ∷ cs) chars end =
    let at : i + 0 ≡ i = omega arith in
    let first : header_name b i ≡ c = ap (header_name b) (sym at) ∙ chars 0 (omega arith) in
    let shift = λ (k : ℕ). (let e : suc i + k ≡ i + suc k = omega arith in ap (header_name b) e) in
    let rest =
      name_is-bytes b (suc i) cs (λ k hk. shift k ∙ chars (suc k) (omega arith))
        (shift (length cs) ∙ end) in
    ground (arith, first, rest)

-- the bytes of the name, behind the type and before the parent
new_dnode-bytes :
    (date : ℕ) (name : List ℕ) (dir : Bool) (parent j : ℕ)
    → 1 ≤ j
    → j < 256
    → get_u8 (new_dnode date name dir parent) j ≡ (
        if j == 1 + length name
        then 0
        else get_u8
            (put_bytes
              (put_u32 (put_u32 zero_block 256 (u32 date)) 260 (u32 (date / 2 ^ 32)))
              1
              name)
            j)
unfolding new_dnode
new_dnode-bytes date name true parent j low high =
    let dated = put_u32 (put_u32 zero_block 256 (u32 date)) 260 (u32 (date / 2 ^ 32)) in
    let named = put_u8 (put_bytes dated 1 name) (1 + length name) 0 in
    let skip = put_u32_ne (put_u8 named 0 2) 264 parent j (inl (omega arith)) in
    ground (arith, skip)
new_dnode-bytes date name false parent j low high = ground arith

pub name_is-new_dnode :
    (date : ℕ) (name : List ℕ) (dir : Bool) (parent : ℕ)
    → IsName name
    → name_is (new_dnode date name dir parent) 0 name ≡ true
name_is-new_dnode date name dir parent v =
    let dated = put_u32 (put_u32 zero_block 256 (u32 date)) 260 (u32 (date / 2 ^ 32)) in
    name_is-bytes (new_dnode date name dir parent) 0 name
      (λ k hk.
        let zero_add : 0 + k ≡ k = omega arith in
        let ne : (1 + k == 1 + length name) ≡ false = ground arith in
        let at =
          new_dnode-bytes date name dir parent (1 + k) (omega arith) (omega (arith, v.short)) in
        let char = put_bytes-at dated 1 name k v.characters hk in
        rw zero_add (ground (arith, at, ne, char)))
      (let zero_add : 0 + length name ≡ length name = omega arith in
        let at =
          new_dnode-bytes date name dir parent (1 + length name) (omega arith)
            (omega (arith, v.short)) in
        rw zero_add (ground (arith, at, ==-refl (1 + length name))))

-- A name is one part of a path, and the last.
pub part_len-name : (name : List ℕ) → All IsCharacter name → path_next_part_len name ≡ length name
unfolding path_next_part_len
part_len-name [] h = refl
part_len-name (c ∷ name) h = ground (arith, h.0, part_len-name name h.1)

pub last_part-name : (name : List ℕ) → All IsCharacter name → path_last_part name ≡ true
unfolding path_last_part
last_part-name name h = ground (arith, part_len-name name h)

pub take-length : (name : List ℕ) → take (length name) name ≡ name
take-length [] = refl
take-length (c ∷ name) = ap (λ t. c ∷ t) (take-length name)
