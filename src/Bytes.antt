-- ===== src/Bytes.antt =====
-- Byte strings: `Vec<u8>` with its lexicographic order, and the fixed-width big-endian encodings.
pub mod Order
pub mod Encode
use Prim.Native.Nat.{compare, Ordering}
use kanatoko.Prelude.{ℕ, ◌≡◌, List, [], ◌∷◌, ℕ_discrete}

-- A byte is a number below 256 (a text is the list of its bytes).
abbrev pub Bytes : Type 0
Bytes = List ℕ

unfoldable pub Bytes-discrete : Discrete Bytes
unfolding ℕ_discrete
Bytes-discrete = hlevel ℕ_discrete

-- `Ord for Vec<u8>`: lexicographic.
unfoldable pub cmp : Bytes → Bytes → Ordering
cmp [] [] = Ordering.eq
cmp [] (y ∷ ys) = Ordering.lt
cmp (x ∷ xs) [] = Ordering.gt
cmp (x ∷ xs) (y ∷ ys) = elim (compare x y) [
  | Ordering.lt ↦ Ordering.lt
  | Ordering.gt ↦ Ordering.gt
  | Ordering.eq ↦ cmp xs ys
]

infix 50 ◌≺◌
abbrev pub ◌≺◌ : Bytes → Bytes → Type 0
a ≺ b = cmp a b ≡ Ordering.lt
