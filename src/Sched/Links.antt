-- ===== src/Sched/Links.antt =====
-- Doubly linked buckets of the run queue of kernel/src/userspace/scheduler.c.
use dz_os.Prelude.{
  ℕ, ◌≡◌, refl, subst, ◌∙◌, ◌≢◌, inl, inr, true, false, List, [], ◌∷◌, ◌++◌, arith, ◌==◌,
  if◌then◌else◌, Bool-cases, ==-refl, has, has-append,
}
use dz_os.Sched.State.{Entity}

-- From `h` the `next` links lead through the distinct entities `xs` to NULL, the `prev` links back
-- to `pv`, and `t` is the last of them, or `pv`.
abbrev pub Linked : (ℕ → Entity) → ℕ → ℕ → ℕ → List ℕ → Type 0
Linked ent h t pv [] = (h ≡ 0) × (t ≡ pv)
Linked ent h t pv (x ∷ xs) =
    (h ≡ x) × (x ≢ 0) × ((ent x).prev ≡ pv) × (has x xs ≡ false) × Linked ent (ent x).next t x xs

-- the links of two entities agree
pub record SameLinks (e e' : Entity) : Type 0 where
  pub next : e'.next ≡ e.next
  pub prev : e'.prev ≡ e.prev

pub Linked-frame :
    (ent ent' : ℕ → Entity) (h t pv : ℕ) (xs : List ℕ)
    → Linked ent h t pv xs
    → ((a : ℕ) → has a xs ≡ true → SameLinks (ent a) (ent' a))
    → Linked ent' h t pv xs
Linked-frame ent ent' h t pv [] l same = l
Linked-frame ent ent' h t pv (x ∷ xs) l same =
    let here = same x (ground arith) in
    let rest : Linked ent' (ent x).next t x xs =
      Linked-frame ent ent' (ent x).next t x xs l.4 (λ a i. same a (ground arith)) in
    (l.0, l.1, here.prev ∙ l.2, l.3, rw here.next rest)

pub last-has :
    (ent : ℕ → Entity) (h t pv x : ℕ) (xs : List ℕ)
    → Linked ent h t pv (x ∷ xs)
    → has t (x ∷ xs) ≡ true
last-has ent h t pv x [] l = ground arith
last-has ent h t pv x (y ∷ ys) l = ground (arith, last-has ent (ent x).next t x y ys l.4)

-- What the writes of an enqueue after the last entity `t` do to the links.
pub record Appended (ent ent' : ℕ → Entity) (t p : ℕ) : Type 0 where
  pub next_new : (ent' p).next ≡ 0
  pub prev_new : (ent' p).prev ≡ t
  pub next_last : (ent' t).next ≡ p
  pub next_same : (a : ℕ) → a ≢ p → a ≢ t → (ent' a).next ≡ (ent a).next
  pub prev_same : (a : ℕ) → a ≢ p → (ent' a).prev ≡ (ent a).prev

pub Linked-append :
    (ent ent' : ℕ → Entity) (h t pv p x : ℕ) (xs : List ℕ)
    → Linked ent h t pv (x ∷ xs)
    → p ≢ 0
    → has p (x ∷ xs) ≡ false
    → Appended ent ent' t p
    → Linked ent' h p pv ((x ∷ xs) ++ (p ∷ []))
Linked-append ent ent' h t pv p x [] l ne out w =
    ground (arith, w.next_new, w.prev_new, w.next_last, w.prev_same x)
Linked-append ent ent' h t pv p x (y ∷ ys) l ne out w =
    let rest = Linked-append ent ent' (ent x).next t x p y ys l.4 ne (ground arith) w in
    let apart : x ≢ t = ground (arith, last-has ent (ent x).next t x y ys l.4) in
    let next : (ent' x).next ≡ (ent x).next = w.next_same x (ground arith) apart in
    (
      l.0,
      l.1,
      w.prev_same x (ground arith) ∙ l.2,
      ground (arith, has-append x ys (p ∷ [])),
      rw next rest,
    )

-- `xs` less one entity
abbrev pub remove : ℕ → List ℕ → List ℕ
remove p [] = []
remove p (x ∷ xs) = if p == x then xs else x ∷ remove p xs

pub has-remove : (a p : ℕ) (xs : List ℕ) → has a xs ≡ false → has a (remove p xs) ≡ false
has-remove a p [] out = refl
has-remove a p (x ∷ xs) out = ground (arith, has-remove a p xs)

-- What the writes of a dequeue of `p` do to the links of the others.
pub record Unlinked (ent ent' : ℕ → Entity) (p : ℕ) : Type 0 where
  pub next :
      (a : ℕ)
      → a ≢ p
      → a ≢ 0
      → (ent' a).next ≡ (if a == (ent p).prev then (ent p).next else (ent a).next)
  pub prev :
      (a : ℕ)
      → a ≢ p
      → a ≢ 0
      → (ent' a).prev ≡ (if a == (ent p).next then (ent p).prev else (ent a).prev)

-- The neighbours of an entity stand in its bucket.
pub next-has :
    (ent : ℕ → Entity) (h t pv p : ℕ) (xs : List ℕ)
    → Linked ent h t pv xs
    → has p xs ≡ true
    → has (ent p).next xs ≡ false
    → (ent p).next ≡ 0
next-has ent h t pv p [] l i out = cc
next-has ent h t pv p (x ∷ []) l i out = ground arith
next-has ent h t pv p (x ∷ y ∷ ys) l i out =
    ground (arith, next-has ent (ent x).next t x p (y ∷ ys) l.4)

pub prev-has :
    (ent : ℕ → Entity) (h t pv p : ℕ) (xs : List ℕ)
    → Linked ent h t pv xs
    → has p xs ≡ true
    → has (ent p).prev xs ≡ false
    → (ent p).prev ≡ pv
prev-has ent h t pv p [] l i out = cc
prev-has ent h t pv p (x ∷ xs) l i out = ground (arith, prev-has ent (ent x).next t x p xs l.4)

pub null-has :
    (ent : ℕ → Entity) (h t pv : ℕ) (xs : List ℕ) → Linked ent h t pv xs → has 0 xs ≡ false
null-has ent h t pv [] l = refl
null-has ent h t pv (x ∷ xs) l = ground (arith, null-has ent (ent x).next t x xs l.4)

-- The entities that are neither `p` nor a neighbour keep their links.
pub keep_links :
    (ent ent' : ℕ → Entity) (p a : ℕ)
    → Unlinked ent ent' p
    → a ≢ p
    → a ≢ 0
    → a ≢ (ent p).prev
    → a ≢ (ent p).next
    → SameLinks (ent a) (ent' a)
keep_links ent ent' p a w ne nn np nx = record {
  next = ground (arith, w.next a ne nn);
  prev = ground (arith, w.prev a ne nn);
}

-- The first entity of a bucket leaves it.
remove_first :
    (ent ent' : ℕ → Entity) (h t pv x : ℕ) (xs : List ℕ)
    → Linked ent h t pv (x ∷ xs)
    → has pv (x ∷ xs) ≡ false
    → Unlinked ent ent' x
    → Linked ent' (ent x).next (if (ent x).next == 0 then pv else t) pv xs
remove_first ent ent' h t pv x [] l out w = ground arith
remove_first ent ent' h t pv x (y ∷ ys) (eh, nx, ep, ox, (en, ny, eq, oy, l)) out w =
    let null = null-has ent (ent y).next t y ys l in
    let kept : Linked ent' (ent y).next t y ys = Linked-frame ent ent' (ent y).next t y ys l (λ a i.
      keep_links ent ent' x a w (ground arith) (ground arith) (ground arith) (ground arith)) in
    let next : (ent' y).next ≡ (ent y).next = ground (arith, w.next y) in
    let prev : (ent' y).prev ≡ pv = ground (arith, w.prev y) in
    let tail : (if (ent x).next == 0 then pv else t) ≡ t = ground arith in
    (en, ny, prev, oy, rw (tail, next) kept)

-- An entity leaves its bucket: what is left is linked from the new head to the new tail.
pub Linked-remove :
    (ent ent' : ℕ → Entity) (h t pv p : ℕ) (xs : List ℕ)
    → Linked ent h t pv xs
    → has p xs ≡ true
    → has pv xs ≡ false
    → Unlinked ent ent' p
    → Linked ent'
        (if (ent p).prev == pv then (ent p).next else h)
        (if (ent p).next == 0 then (ent p).prev else t)
        pv
        (remove p xs)
Linked-remove ent ent' h t pv p [] l i out w = cc
Linked-remove ent ent' h t pv p (x ∷ xs) l i out w = elim (Bool-cases (p == x)) [
  | inl e ↦
      let eq : p ≡ x = ground arith in
      rw (eq, l.2, ==-refl pv, ==-refl x)
        (remove_first ent ent' h t pv x xs l out (subst (Unlinked ent ent') eq w))
  | inr ne ↦
      let i' : has p xs ≡ true = ground arith in
      let apart : ((ent p).prev == pv) ≡ false =
        ground (arith, prev-has ent (ent x).next t x p xs l.4 i') in
      let apart' : x ≢ (ent p).next = ground (arith, next-has ent (ent x).next t x p xs l.4 i') in
      let rest = Linked-remove ent ent' (ent x).next t x p xs l.4 i' l.3 w in
      let next : (ent' x).next ≡ (if (ent p).prev == x then (ent p).next else (ent x).next) =
        ground (arith, w.next x) in
      let prev : (ent' x).prev ≡ pv = ground (arith, w.prev x) in
      rw (apart, ne) (l.0, l.1, prev, has-remove x p xs l.3, rw next rest)
]

-- No entity is its own neighbour.
pub next-ne :
    (ent : ℕ → Entity) (h t pv p : ℕ) (xs : List ℕ)
    → Linked ent h t pv xs
    → has p xs ≡ true
    → (ent p).next ≢ p
next-ne ent h t pv p [] l i = cc
next-ne ent h t pv p (x ∷ []) l i = ground arith
next-ne ent h t pv p (x ∷ y ∷ ys) l i = ground (arith, next-ne ent (ent x).next t x p (y ∷ ys) l.4)

pub prev-ne :
    (ent : ℕ → Entity) (h t pv p : ℕ) (xs : List ℕ)
    → Linked ent h t pv xs
    → has p xs ≡ true
    → has pv xs ≡ false
    → (ent p).prev ≢ p
prev-ne ent h t pv p [] l i out = cc
prev-ne ent h t pv p (x ∷ xs) l i out = ground (arith, prev-ne ent (ent x).next t x p xs l.4)
