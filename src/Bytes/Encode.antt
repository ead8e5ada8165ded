-- ===== src/Bytes/Encode.antt =====
-- `to_be_bytes` of the unsigned integers.
use native.Mathlib.Nat.{pow-suc}
use kanatoko.Prelude.{
  ◌<◌, List, append_assoc, refl, sym, ◌∙◌, length, length-append, arith, ℕ, zero, suc, ◌/◌, ◌%◌,
  ◌^◌, ◌≡◌, [], ◌∷◌, ◌++◌,
}
use kanatoko.Bytes.{Bytes}

-- The lowest `w` bytes of `n`, the most significant first.
unfoldable pub be_bytes : ℕ → ℕ → Bytes
be_bytes zero n = []
be_bytes (suc w) n = be_bytes w (n / 256) ++ (n % 256) ∷ []

-- `u32::to_be_bytes`, `u64::to_be_bytes`
abbrev pub u32_be : ℕ → Bytes
u32_be = be_bytes 4

abbrev pub u64_be : ℕ → Bytes
u64_be = be_bytes 8

-- A byte string behind its length: `update((xs.len() as u64).to_be_bytes()); update(xs)`.
abbrev pub field : Bytes → Bytes
field xs = u64_be (length xs) ++ xs

pub length-be_bytes : (w n : ℕ) → length (be_bytes w n) ≡ w
unfolding be_bytes
length-be_bytes zero n = refl
length-be_bytes (suc w) n =
    omega
      (arith, length-append (be_bytes w (n / 256)) ((n % 256) ∷ []), length-be_bytes w (n / 256))

-- Two concatenations agree only if their parts do, where the first parts are as long.
pub append_cancel :
    {A : Type 0} (xs ys r s : List A)
    → length xs ≡ length ys
    → xs ++ r ≡ ys ++ s
    → (xs ≡ ys) × (r ≡ s)
append_cancel [] [] r s l h = (refl, h)
append_cancel [] (y ∷ ys) r s l h = absurd (omega arith)
append_cancel (x ∷ xs) [] r s l h = absurd (omega arith)
append_cancel (x ∷ xs) (y ∷ ys) r s l h =
    let t : (xs ≡ ys) × (r ≡ s) = append_cancel xs ys r s (omega arith) (cc) in (cc (t.0), t.1)

div_bound : (w n : ℕ) → n < 256 ^ suc w → n / 256 < 256 ^ w
div_bound w n h = omega (arith, pow-suc 256 w)

pub be_bytes_injective :
    (w n m : ℕ) → n < 256 ^ w → m < 256 ^ w → be_bytes w n ≡ be_bytes w m → n ≡ m
unfolding be_bytes
be_bytes_injective zero n m a b h = omega arith
be_bytes_injective (suc w) n m a b h =
    let t : (be_bytes w (n / 256) ≡ be_bytes w (m / 256))
        × (◌≡◌ {A = Bytes} ((n % 256) ∷ []) ((m % 256) ∷ [])) =
      append_cancel (be_bytes w (n / 256)) (be_bytes w (m / 256)) ((n % 256) ∷ []) ((m % 256) ∷ [])
        (length-be_bytes w (n / 256) ∙ sym (length-be_bytes w (m / 256))) h in
    let q : n / 256 ≡ m / 256 =
      be_bytes_injective w (n / 256) (m / 256) (div_bound w n a) (div_bound w m b) t.0 in
    let r : n % 256 ≡ m % 256 = cc (t.1) in omega arith

-- A reader of the encodings: equal streams start with equal values and go on equally.
pub be_bytes_cancel :
    (w n m : ℕ) (r s : Bytes)
    → n < 256 ^ w
    → m < 256 ^ w
    → be_bytes w n ++ r ≡ be_bytes w m ++ s
    → (n ≡ m) × (r ≡ s)
be_bytes_cancel w n m r s a b h =
    let t : (be_bytes w n ≡ be_bytes w m) × (r ≡ s) =
      append_cancel (be_bytes w n) (be_bytes w m) r s
        (length-be_bytes w n ∙ sym (length-be_bytes w m)) h in
    (be_bytes_injective w n m a b t.0, t.1)

pub field_cancel :
    (xs ys r s : Bytes)
    → length xs < 2 ^ 64
    → length ys < 2 ^ 64
    → field xs ++ r ≡ field ys ++ s
    → (xs ≡ ys) × (r ≡ s)
field_cancel xs ys r s a b h =
    let t : (length xs ≡ length ys) × (xs ++ r ≡ ys ++ s) =
      be_bytes_cancel 8 (length xs) (length ys) (xs ++ r) (ys ++ s) a b (
        sym (append_assoc (u64_be (length xs)) xs r)
        ∙ h
        ∙ append_assoc (u64_be (length ys)) ys s) in
    append_cancel xs ys r s t.0 t.1
