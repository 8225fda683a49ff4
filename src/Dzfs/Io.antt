-- ===== src/Dzfs/Io.antt =====
-- Results of the calls of kernel/src/fs/dzfs.c: a value or an error code, and calls that also write the
-- disk. The source's `TRY_IO` and `goto end` leave with the code and the disk as it then is.
use dz_os.Prelude.{◌≡◌, refl, ap, Bool, true, false, arith, if◌then◌else◌}
use dz_os.Dzfs.Block.{DzfsError}

pub data Result {ℓ} (A : Type ℓ) : Type ℓ where
  failed : DzfsError → Result A
  ok : A → Result A

-- what a call returns, and the disk after it
abbrev pub Io : Type 0 → Type 0 → Type 0
Io D A = D → Result A × D

unfoldable pub continue_with : {D A B : Type 0} → Result A × D → (A → Io D B) → Result B × D
continue_with (Result.failed e, disk) f = (Result.failed e, disk)
continue_with (Result.ok a, disk) f = f a disk

abbrev pub is_ok : {A : Type 0} → Result A → Bool
is_ok (Result.failed e) = false
is_ok (Result.ok a) = true

-- A chain of calls that succeeds: the first does, and the rest from its result.
pub continue_with-ok :
    {D A B : Type 0} (m : Result A × D) (f : A → Io D B) (b : B) (after : D)
    → continue_with m f ≡ (Result.ok b, after)
    → (a : A) × (d : D) × (m ≡ (Result.ok a, d)) × (f a d ≡ (Result.ok b, after))
unfolding continue_with
continue_with-ok (Result.failed e, d) f b after h =
    let same : false ≡ true = ap (λ p. is_ok p.0) h in absurd (ground (arith, same))
continue_with-ok (Result.ok a, d) f b after h = (a, d, refl, h)

-- A guard that lets a call succeed did not hold.
pub guard-ok :
    {D A : Type 0} (c : Bool) (e : DzfsError) (d : D) (m : Result A × D) (a : A) (after : D)
    → (if c then (Result.failed e, d) else m) ≡ (Result.ok a, after)
    → (c ≡ false) × (m ≡ (Result.ok a, after))
guard-ok true e d m a after h =
    let same : false ≡ true = ap (λ p. is_ok p.0) h in absurd (ground (arith, same))
guard-ok false e d m a after h = (refl, h)

pub if_false : {A : Type 0} (c : Bool) (x y z : A) → c ≡ false → (if c then x else y) ≡ z → y ≡ z
if_false true x y z off e = absurd (ground (arith, off))
if_false false x y z off e = e

pub if_true : {A : Type 0} (c : Bool) (x y z : A) → c ≡ true → (if c then x else y) ≡ z → x ≡ z
if_true true x y z on e = e
if_true false x y z on e = absurd (ground (arith, on))

abbrev pub value_or : {A : Type 0} → A → Result A → A
value_or a (Result.failed e) = a
value_or a (Result.ok b) = b

-- A call that ends with a write succeeded: so did the write.
pub written-ok :
    {D A : Type 0} (c : Bool) (a : A) (e : DzfsError) (d : D) (r : A) (after : D)
    → ◌≡◌ {A = Result A × D} ((if c then Result.ok a else Result.failed e), d) (Result.ok r, after)
    → (c ≡ true) × (a ≡ r) × (d ≡ after)
written-ok true a e d r after h = (refl, ap (λ p. value_or a p.0) h, ap (λ p. p.1) h)
written-ok false a e d r after h =
    let same : false ≡ true = ap (λ p. is_ok p.0) h in absurd (ground (arith, same))
