-- ===== src/Tests/Tools.antt =====
-- The properties of the command-line tools at concrete inputs.
use kanatoko.Prelude.{◌≡◌, refl, subst, [], ◌∷◌, true, ok, All, length, ◌<◌}
use kanatoko.Capture.Hex.{hex, decode_hex_digest}
use kanatoko.Tools.Options.{run, RunOptions, file, json, parse, parse_hash}
use kanatoko.Tools.Options.RoundTrip.{Agree, parse_hash-Agree, HasHash, arguments, parse-arguments}
use kanatoko.Tests.Captures.{digest, digest_fits}

parse_hash-Agree_example : Agree (parse_hash (hex digest)) (decode_hex_digest (hex digest))
parse_hash-Agree_example = parse_hash-Agree (hex digest)

abbrev custom : RunOptions
custom = record {
  fixture = 1 ∷ [];
  candidate = file (2 ∷ []) digest;
  format = json;
  allow_newer_protocol = true;
}

custom-HasHash : HasHash (run custom)
custom-HasHash path hash e =
    let same : digest ≡ hash = cc in
    (subst (λ z. length z ≡ 32) same refl, subst (All (λ b. b < 256)) same digest_fits)

parse-arguments_example : parse (arguments (run custom)) ≡ ok (run custom)
parse-arguments_example = parse-arguments (run custom) custom-HasHash
