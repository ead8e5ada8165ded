-- ===== src/Bytes/Order.antt =====
-- The order of byte strings is a strict total order.
use Prim.Native.Nat.{Ordering}
use kanatoko.Prelude.{◌≡◌, refl, ap, [], ◌∷◌, ◌⊎◌, arith}
use kanatoko.Bytes.{Bytes, cmp, ◌≺◌}

pub cmp_refl : (a : Bytes) → cmp a a ≡ Ordering.eq
unfolding cmp
cmp_refl [] = refl
cmp_refl (x ∷ xs) = ground (arith, cmp_refl xs)

pub eq_of_cmp : (a b : Bytes) → cmp a b ≡ Ordering.eq → a ≡ b
unfolding cmp
eq_of_cmp [] [] h = refl
eq_of_cmp [] (y ∷ ys) h = cc
eq_of_cmp (x ∷ xs) [] h = cc
eq_of_cmp (x ∷ xs) (y ∷ ys) h = ground (arith, eq_of_cmp xs ys)

pub lt_of_gt : (a b : Bytes) → cmp a b ≡ Ordering.gt → b ≺ a
unfolding cmp
lt_of_gt [] [] h = cc
lt_of_gt [] (y ∷ ys) h = cc
lt_of_gt (x ∷ xs) [] h = refl
lt_of_gt (x ∷ xs) (y ∷ ys) h = ground (arith, lt_of_gt xs ys)

pub gt_of_lt : (a b : Bytes) → a ≺ b → cmp b a ≡ Ordering.gt
unfolding cmp
gt_of_lt [] [] h = cc
gt_of_lt [] (y ∷ ys) h = refl
gt_of_lt (x ∷ xs) [] h = cc
gt_of_lt (x ∷ xs) (y ∷ ys) h = ground (arith, gt_of_lt xs ys)

pub ≺_trans : (a b c : Bytes) → a ≺ b → b ≺ c → a ≺ c
unfolding cmp
≺_trans [] [] c h k = cc
≺_trans [] (y ∷ ys) [] h k = cc
≺_trans [] (y ∷ ys) (z ∷ zs) h k = refl
≺_trans (x ∷ xs) [] c h k = cc
≺_trans (x ∷ xs) (y ∷ ys) [] h k = cc
≺_trans (x ∷ xs) (y ∷ ys) (z ∷ zs) h k = ground (arith, ≺_trans xs ys zs)

pub ≺_irrefl : (a b : Bytes) → a ≺ b → ¬ (a ≡ b)
≺_irrefl a b h e = cc (h, ap (cmp a) e, cmp_refl a)

pub cmp-cases : (a b : Bytes) → (a ≺ b) ⊎ ((b ≺ a) ⊎ (a ≡ b))
cmp-cases a b = ground (arith, lt_of_gt a b, eq_of_cmp a b)
