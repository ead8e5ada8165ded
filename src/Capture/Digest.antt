-- ===== src/Capture/Digest.antt =====
-- src/capture.rs: the digests of a coverage and of a capture bundle.
use kanatoko.Prelude.{ℕ, List, [], ◌∷◌, ◌++◌, Option, none, some, Result, ok, ◌>>=◌, ok_or, length}
use kanatoko.Bytes.{Bytes}
use kanatoko.Bytes.Encode.{be_bytes, u32_be, u64_be, field}
use kanatoko.Xdr.{Codec, Hash}
use kanatoko.Ledger.{Coverage, LookupState, present, absent}
use kanatoko.Capture.{CaptureError, xdr, malformed_capture_bundle}

pub record BundleReport : Type 0 where
  pub discovery_rounds : ℕ
  pub present_entries : ℕ
  pub absent_entries : ℕ
  pub final_replay_rpc_reads : ℕ

pub record BundleProvenance : Type 0 where
  pub rpc_origin : Bytes
  pub network_passphrase : Bytes
  pub ledger_sequence : ℕ
  pub ledger_hash : Bytes
  pub protocol_version : ℕ

pub record BundleDigests : Type 0 where
  pub ledger : Hash
  pub inventory : Hash

-- b"KANATOKO\0CAPTURE-INVENTORY\0V1\0"
abbrev pub inventory_digest_domain : Bytes
inventory_digest_domain =
    b'K' ∷ b'A' ∷ b'N' ∷ b'A' ∷ b'T' ∷ b'O' ∷ b'K' ∷ b'O' ∷ 0 ∷ b'C' ∷ b'A' ∷ b'P' ∷ b'T' ∷ b'U'
    ∷ b'R' ∷ b'E' ∷ b'-' ∷ b'I' ∷ b'N' ∷ b'V' ∷ b'E' ∷ b'N' ∷ b'T' ∷ b'O' ∷ b'R' ∷ b'Y' ∷ 0 ∷ b'V'
    ∷ b'1' ∷ 0 ∷ []

-- b"KANATOKO\0CAPTURE-BUNDLE\0V2\0", and V1
abbrev pub bundle_digest_domain : ℕ → Bytes
bundle_digest_domain version =
    b'K' ∷ b'A' ∷ b'N' ∷ b'A' ∷ b'T' ∷ b'O' ∷ b'K' ∷ b'O' ∷ 0 ∷ b'C' ∷ b'A' ∷ b'P' ∷ b'T' ∷ b'U'
    ∷ b'R' ∷ b'E' ∷ b'-' ∷ b'B' ∷ b'U' ∷ b'N' ∷ b'D' ∷ b'L' ∷ b'E' ∷ 0 ∷ b'V' ∷ version ∷ 0 ∷ []

abbrev pub capture_bundle_schema_version : ℕ
capture_bundle_schema_version = 2

abbrev live_until_bytes : Option ℕ → Bytes
live_until_bytes (some sequence) = 1 ∷ u32_be sequence
live_until_bytes none = 0 ∷ []

module _ (c : Codec) where
  -- What the hash is fed for a lookup state.
  unfoldable pub state_bytes : LookupState → Result CaptureError Bytes
  unfolding be_bytes
  state_bytes (present entry live_until) = do
    bytes ← ok_or (c.entry_xdr entry) xdr
    ok (1 ∷ (field bytes ++ live_until_bytes live_until))
  state_bytes absent = ok (0 ∷ [])

  unfoldable pub coverage_bytes : Coverage → Result CaptureError Bytes
  unfolding state_bytes be_bytes
  coverage_bytes [] = ok []
  coverage_bytes ((key, state) ∷ coverage) = do
    here ← state_bytes state
    rest ← coverage_bytes coverage
    ok (field key ++ (here ++ rest))

  unfoldable pub inventory_digest : Coverage → Result CaptureError Hash
  unfolding coverage_bytes be_bytes
  inventory_digest coverage = do
    bytes ← coverage_bytes coverage
    ok (c.sha256 (inventory_digest_domain ++ (u64_be (length coverage) ++ bytes)))

  unfoldable pub absent_bytes : List Bytes → Result CaptureError Bytes
  unfolding be_bytes
  absent_bytes [] = ok []
  absent_bytes (encoded ∷ known_absent) = do
    key ← ok_or (c.base64_decode encoded) malformed_capture_bundle
    rest ← absent_bytes known_absent
    ok (field key ++ rest)

  -- `update_bundle_digest`: what it feeds the hash.
  unfoldable pub bundle_bytes :
      List Bytes → BundleReport → BundleProvenance → Hash → Hash → Result CaptureError Bytes
  unfolding absent_bytes be_bytes
  bundle_bytes known_absent report provenance ledger_digest inventory = do
    keys ← absent_bytes known_absent
    ok (
        u64_be (length known_absent)
        ++ (keys
            ++ (u32_be report.discovery_rounds
                ++ (u64_be report.present_entries
                    ++ (u64_be report.absent_entries
                        ++ (u64_be report.final_replay_rpc_reads
                            ++ (field provenance.rpc_origin
                                ++ (field provenance.network_passphrase
                                    ++ (u32_be provenance.ledger_sequence
                                        ++ (field provenance.ledger_hash
                                            ++ (u32_be provenance.protocol_version
                                                ++ (ledger_digest ++ inventory))))))))))))

  unfoldable pub canonical_bundle_digest :
      List Bytes → BundleReport → BundleProvenance → Hash → Hash → Result CaptureError Hash
  unfolding bundle_bytes be_bytes
  canonical_bundle_digest known_absent report provenance ledger_digest inventory = do
    bytes ← bundle_bytes known_absent report provenance ledger_digest inventory
    ok (c.sha256 (bundle_digest_domain b'2' ++ (u32_be capture_bundle_schema_version ++ bytes)))

  unfoldable pub legacy_canonical_bundle_digest :
      Bytes → List Bytes → BundleReport → BundleProvenance → Hash → Hash → Result CaptureError Hash
  unfolding bundle_bytes be_bytes
  legacy_canonical_bundle_digest root known_absent report provenance ledger_digest inventory = do
    bytes ← bundle_bytes known_absent report provenance ledger_digest inventory
    ok (c.sha256 (bundle_digest_domain b'1' ++ (u32_be 1 ++ (field root ++ bytes))))
