-- ===== src/Capture/Hex.antt =====
-- src/capture.rs: hexadecimal digests. A byte is a number below 256.
pub mod RoundTrip
use kanatoko.Prelude.{
  ℕ, ◌+◌, ◌-◌, ◌*◌, ◌/◌, ◌%◌, List, [], ◌∷◌, Bool, true, false, ◌&&◌, Result, ok, err, ◌>>=◌, ◌>>◌,
  guard, length, all, holds, ltb, leb, ◌==◌, if◌then◌else◌,
}
use kanatoko.Bytes.{Bytes, Bytes-discrete}
use kanatoko.Capture.{CaptureError, malformed_capture_bundle}

-- A digit of `{byte:02x}`.
unfoldable pub hex_digit : ℕ → ℕ
hex_digit n = if ltb n 10 then b'0' + n else b'a' + (n - 10)

unfoldable pub hex : Bytes → Bytes
unfolding hex_digit
hex [] = []
hex (b ∷ bs) = hex_digit (b / 16) ∷ hex_digit (b % 16) ∷ hex bs

unfoldable pub decode_hex_nibble : ℕ → Result CaptureError ℕ
decode_hex_nibble v =
    if leb b'0' v && leb v b'9'
    then ok (v - b'0')
    else (if leb b'a' v && leb v b'f' then ok (v - b'a' + 10) else err malformed_capture_bundle)

-- The loop over `chunks_exact(2)`, which leaves out a last odd byte. The high nibble shifted is a
-- multiple of 16, so that the bitwise or with the low one is their sum.
unfoldable pub decode_pairs : Bytes → Result CaptureError Bytes
unfolding decode_hex_nibble
decode_pairs [] = ok []
decode_pairs (x ∷ []) = ok []
decode_pairs (x ∷ y ∷ rest) = do
  high ← decode_hex_nibble x
  low ← decode_hex_nibble y
  more ← decode_pairs rest
  ok ((high * 16 + low) ∷ more)

unfoldable pub decode_hex_digest : Bytes → Result CaptureError Bytes
unfolding decode_pairs hex Bytes-discrete
decode_hex_digest value = do
  guard ((length value == 64) && all (λ x. ltb x 128) value) malformed_capture_bundle
  decoded ← decode_pairs value
  guard (holds (Bytes-discrete (hex decoded) value)) malformed_capture_bundle
  ok decoded
