-- ===== src/Capture/Hex/RoundTrip.antt =====
-- Writing and reading the hexadecimal digests of src/capture.rs.
use kanatoko.Prelude.{
  ℕ, ◌*◌, ◌/◌, ◌%◌, ◌<◌, ◌≡◌, refl, [], ◌∷◌, true, ◌&&◌, Result, ok, length, all, All, arith, ltb,
  holds, holds-yes, of_holds, guard, >>=-eq-ok, ◌==◌, ◌>>=◌, ◌>>◌,
}
use kanatoko.Bytes.{Bytes, Bytes-discrete}
use kanatoko.Capture.{CaptureError, malformed_capture_bundle}
use kanatoko.Capture.Hex.{hex_digit, hex, decode_hex_nibble, decode_pairs, decode_hex_digest}

nibble_digit : (n : ℕ) → n < 16 → decode_hex_nibble (hex_digit n) ≡ ok n
unfolding decode_hex_nibble hex_digit
nibble_digit n h = ground arith

digit_ascii : (n : ℕ) → n < 16 → ltb (hex_digit n) 128 ≡ true
unfolding hex_digit
digit_ascii n h = ground arith

pub length-hex : (bs : Bytes) → length (hex bs) ≡ 2 * length bs
unfolding hex
length-hex [] = refl
length-hex (b ∷ bs) = omega (arith, length-hex bs)

hex_ascii : (bs : Bytes) → All (λ b. b < 256) bs → all (λ x. ltb x 128) (hex bs) ≡ true
unfolding hex
hex_ascii [] h = refl
hex_ascii (b ∷ bs) h = ground (arith, digit_ascii (b / 16), digit_ascii (b % 16), hex_ascii bs)

pub decode_pairs-hex : (bs : Bytes) → All (λ b. b < 256) bs → decode_pairs (hex bs) ≡ ok bs
unfolding hex decode_pairs
decode_pairs-hex [] h = refl
decode_pairs-hex (b ∷ bs) h =
    ground (arith, nibble_digit (b / 16), nibble_digit (b % 16), decode_pairs-hex bs)

eq_test : (n m : ℕ) → n ≡ m → (n == m) ≡ true
eq_test n m e = ground arith

decode_accepts :
    (value decoded : Bytes)
    → ((length value == 64) && all (λ x. ltb x 128) value) ≡ true
    → decode_pairs value ≡ ok decoded
    → holds (Bytes-discrete (hex decoded) value) ≡ true
    → decode_hex_digest value ≡ ok decoded
unfolding decode_hex_digest
decode_accepts value decoded a p e = rw a (rw p (rw e refl))

accepted_shape :
    (value : Bytes)
    → length value ≡ 64
    → all (λ x. ltb x 128) value ≡ true
    → ((length value == 64) && all (λ x. ltb x 128) value) ≡ true
accepted_shape value l a = rw (eq_test (length value) 64 l) a

compared :
    (value decoded digest : Bytes) {u : Unit {0}}
    → guard (holds (Bytes-discrete (hex decoded) value)) malformed_capture_bundle ≡ ok u
    → ◌≡◌ {A = Result CaptureError Bytes} (ok decoded) (ok digest)
    → value ≡ hex digest
compared value decoded digest g e = ground (arith, of_holds (Bytes-discrete (hex decoded) value))

-- What follows the decoding of the pairs is the comparison with the digest's own form.
pub decoded_form : (value digest : Bytes) → decode_hex_digest value ≡ ok digest → value ≡ hex digest
unfolding decode_hex_digest
decoded_form value digest h =
    let a =
      >>=-eq-ok
        (guard ((length value == 64) && all (λ x. ltb x 128) value) malformed_capture_bundle)
        (λ u. decode_pairs value >>= λ decoded.
          guard (holds (Bytes-discrete (hex decoded) value)) malformed_capture_bundle >> ok decoded)
        h in
    let b =
      >>=-eq-ok (decode_pairs value)
        (λ decoded.
          guard (holds (Bytes-discrete (hex decoded) value)) malformed_capture_bundle >> ok decoded)
        a.2 in
    let d =
      >>=-eq-ok (guard (holds (Bytes-discrete (hex b.0) value)) malformed_capture_bundle)
        (λ u. ok b.0) b.2 in
    compared value b.0 digest d.1 d.2

-- A digest of 32 bytes is read back from its hexadecimal form, and whatever is read as a digest is
-- that digest's hexadecimal form.
pub decode_hex_digest-hex :
    (digest : Bytes)
    → length digest ≡ 32
    → All (λ b. b < 256) digest
    → (decode_hex_digest (hex digest) ≡ ok digest)
      × ((value : Bytes) → decode_hex_digest value ≡ ok digest → value ≡ hex digest)
decode_hex_digest-hex digest l h = (
  decode_accepts (hex digest) digest
      (accepted_shape (hex digest) (omega (arith, length-hex digest, l)) (hex_ascii digest h))
      (decode_pairs-hex digest h) (holds-yes (Bytes-discrete (hex digest) (hex digest)) refl),
  λ value e. decoded_form value digest e,
)
