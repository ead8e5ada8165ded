-- ===== src/Tools/Options/RoundTrip.antt =====
-- `Options::parse` and `parse_hash` of src/tools/kanatoko.rs: options are read back from arguments.
use kanatoko.Prelude.{
  ◌≡◌, ◌<◌, refl, subst, Bool-cases, ℕ, List, [], ◌∷◌, ◌++◌, inl, inr, Bool, true, false, Result,
  ok, err, ◌>>=◌, guard, All, length, leb, ◌&&◌, ltb, all, holds, ◌==◌,
}
use kanatoko.Bytes.{Bytes, Bytes-discrete}
use kanatoko.Tools.Words.{
  capture_word, run_word, scenario_word, rpc_url_option, bundle_option, fixture_option,
  newer_option, candidate_wasm_option, candidate_sha256_option, format_option, json_word, text_word,
}
use kanatoko.Capture.{CaptureError, malformed_capture_bundle}
use kanatoko.Capture.Hex.{hex, decode_hex_digest, decode_hex_nibble, decode_pairs}
use kanatoko.Capture.Hex.RoundTrip.{decode_hex_digest-hex}
use kanatoko.Tools.Options.{
  Options, help, capture, run, CandidateArtifact, bundled, file, OutputFormat, text, json,
  OptionsError, hash_length, hash_form, hex_nibble, hash_pairs, parse_hash, parse,
}

-- Both succeed, with the same value, or both fail.
pub Agree : {A : Type 0} → Result OptionsError A → Result CaptureError A → Type 0
Agree (ok a) (ok b) = a ≡ b
Agree (err x) (err y) = Unit {0}
Agree _ _ = ⊥

Agree->>= :
    {A B : Type 0} (r : Result OptionsError A) (s : Result CaptureError A)
    (f : A → Result OptionsError B) (g : A → Result CaptureError B)
    → Agree r s
    → ((a : A) → Agree (f a) (g a))
    → Agree (r >>= f) (s >>= g)
unfolding Agree
Agree->>= (ok a) (ok b) f g e h = subst (λ z. Agree (f a) (g z)) e (h a)
Agree->>= (err x) (err y) f g e h = tt
Agree->>= (ok a) (err y) f g e h = absurd e
Agree->>= (err x) (ok b) f g e h = absurd e

hex_nibble-Agree : (v : ℕ) → Agree (hex_nibble v) (decode_hex_nibble v)
unfolding Agree hex_nibble decode_hex_nibble
hex_nibble-Agree v = elim (Bool-cases (leb b'0' v && leb v b'9')) [
  | inl d ↦ rw d refl
  | inr n ↦ elim (Bool-cases (leb b'a' v && leb v b'f')) [
    | inl d ↦ rw n (rw d refl)
    | inr m ↦ rw n (rw m tt)
  ]
]

hash_pairs-Agree : (v : Bytes) → Agree (hash_pairs v) (decode_pairs v)
unfolding Agree hash_pairs decode_pairs
hash_pairs-Agree [] = refl
hash_pairs-Agree (x ∷ []) = refl
hash_pairs-Agree (x ∷ y ∷ rest) =
    Agree->>= (hex_nibble x) (decode_hex_nibble x) _ _ (hex_nibble-Agree x) (λ high.
      Agree->>= (hex_nibble y) (decode_hex_nibble y) _ _ (hex_nibble-Agree y) (λ low.
        Agree->>= (hash_pairs rest) (decode_pairs rest) _ _ (hash_pairs-Agree rest) (λ more. refl)))

guard-Agree : (b : Bool) (x : OptionsError) (y : CaptureError) → Agree (guard b x) (guard b y)
unfolding Agree
guard-Agree true x y = refl
guard-Agree false x y = tt

-- `parse_hash` and `decode_hex_digest` read the same texts as the same hashes.
pub parse_hash-Agree : (value : Bytes) → Agree (parse_hash value) (decode_hex_digest value)
unfolding Agree parse_hash decode_hex_digest
parse_hash-Agree value =
    let shaped = (length value == 64) && all (λ x. ltb x 128) value in
    Agree->>= (guard shaped hash_length) (guard shaped malformed_capture_bundle) _ _
      (guard-Agree shaped hash_length malformed_capture_bundle)
      (λ z. Agree->>= (hash_pairs value) (decode_pairs value) _ _ (hash_pairs-Agree value) (λ hash.
        let same = holds (Bytes-discrete (hex hash) value) in
        Agree->>= (guard same hash_form) (guard same malformed_capture_bundle) (λ u. ok hash)
          (λ u. ok hash) (guard-Agree same hash_form malformed_capture_bundle) (λ u. refl)))

agreed :
    {A : Type 0} (r : Result OptionsError A) (s : Result CaptureError A) (a : A)
    → Agree r s
    → s ≡ ok a
    → r ≡ ok a
unfolding Agree
agreed (ok a) (ok b) x e h = cc
agreed (err x) (ok b) z e h = absurd e
agreed r (err y) z e h = cc

parse_hash-hex :
    (hash : Bytes) → length hash ≡ 32 → All (λ b. b < 256) hash → parse_hash (hex hash) ≡ ok hash
parse_hash-hex hash size fit =
    agreed (parse_hash (hex hash)) (decode_hex_digest (hex hash)) hash (parse_hash-Agree (hex hash))
      (decode_hex_digest-hex hash size fit).0

newer_flag : Bool → List Bytes
newer_flag true = newer_option ∷ []
newer_flag false = []

candidate_arguments : CandidateArtifact → List Bytes
candidate_arguments bundled = []
candidate_arguments (file path hash) =
    candidate_wasm_option ∷ path ∷ candidate_sha256_option ∷ hex hash ∷ []

format_argument : OutputFormat → Bytes
format_argument text = text_word
format_argument json = json_word

-- Arguments that ask for the options.
pub arguments : Options → List Bytes
arguments help = []
arguments (capture o) =
    capture_word
    ∷ scenario_word
    ∷ rpc_url_option
    ∷ o.rpc_url
    ∷ bundle_option
    ∷ o.bundle
    ∷ newer_flag o.allow_newer_protocol
arguments (run o) =
    run_word
    ∷ scenario_word
    ∷ fixture_option
    ∷ o.fixture
    ∷ format_option
    ∷ format_argument o.format
    ∷ (candidate_arguments o.candidate ++ newer_flag o.allow_newer_protocol)

-- The hash of a candidate has 32 bytes.
abbrev pub HasHash : Options → Type 0
HasHash help = Unit {0}
HasHash (capture o) = Unit {0}
HasHash (run o) =
    (path hash : Bytes)
    → o.candidate ≡ file path hash
    → (length hash ≡ 32) × All (λ b. b < 256) hash

capture_read :
    (rpc_url bundle : Bytes) (newer : Bool)
    → let o : Options =
        capture (record { rpc_url = rpc_url; bundle = bundle; allow_newer_protocol = newer }) in
      parse (arguments o) ≡ ok o
unfolding arguments parse newer_flag
capture_read rpc_url bundle true = refl
capture_read rpc_url bundle false = refl

run_read :
    (fixture : Bytes) (candidate : CandidateArtifact) (format : OutputFormat) (newer : Bool)
    → let o : Options = run (record {
      fixture = fixture;
      candidate = candidate;
      format = format;
      allow_newer_protocol = newer;
    }) in
      HasHash o → parse (arguments o) ≡ ok o
unfolding arguments parse format_argument candidate_arguments newer_flag
run_read fixture bundled text true h = refl
run_read fixture (file path hash) text true h =
    rw (parse_hash-hex hash (h path hash refl).0 (h path hash refl).1) refl
run_read fixture bundled text false h = refl
run_read fixture (file path hash) text false h =
    rw (parse_hash-hex hash (h path hash refl).0 (h path hash refl).1) refl
run_read fixture bundled json true h = refl
run_read fixture (file path hash) json true h =
    rw (parse_hash-hex hash (h path hash refl).0 (h path hash refl).1) refl
run_read fixture bundled json false h = refl
run_read fixture (file path hash) json false h =
    rw (parse_hash-hex hash (h path hash refl).0 (h path hash refl).1) refl

-- The options that arguments ask for are read back from them, where a candidate's hash has 32 bytes.
pub parse-arguments : (o : Options) → HasHash o → parse (arguments o) ≡ ok o
unfolding arguments parse
parse-arguments help h = refl
parse-arguments (capture o) h = capture_read o.rpc_url o.bundle o.allow_newer_protocol
parse-arguments (run o) h = run_read o.fixture o.candidate o.format o.allow_newer_protocol h
