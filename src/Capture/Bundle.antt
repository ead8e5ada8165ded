-- ===== src/Capture/Bundle.antt =====
-- src/capture.rs: the bundle that a captured fixture is written to, and how it is read back and
-- validated. The JSON reader and writer and the parser of addresses are parameters.
pub mod Files
pub mod Held
pub mod Sound
use kanatoko.Prelude.{
  ℕ, zero, suc, ◌^◌, ◌-◌, List, [], ◌∷◌, Option, none, some, Bool, true, false, not, ◌&&◌, ◌||◌,
  Result, ok, err, ◌>>=◌, ◌>>◌, guard, ok_or, map_err, is_ok, holds, ltb, ◌==◌, if◌then◌else◌,
  length,
}
use kanatoko.Bytes.{Bytes, Bytes-discrete, ◌≺◌, cmp}
use Prim.Native.Nat.{Ordering}
use kanatoko.BTree.{get, insert}
use kanatoko.Xdr.{Codec, Hash, ScAddress, LedgerSnapshot, SnapshotEntry}
use kanatoko.Protocol.{Policy}
use kanatoko.Fixture.{FixtureError, FrozenFixture, from_snapshot_with_policy}
use kanatoko.Ledger.{Coverage, LookupState, present, absent}
use kanatoko.Capture.{
  CaptureError, network_mismatch, malformed_capture_bundle, capture_bundle_integrity,
  internal_invariant, unsupported_capture_bundle_schema, fixture, CapturedFixture, CaptureReport,
  CaptureProvenance, KeyMap, capture_id, is_state_archival_key,
}
use kanatoko.Capture.Validate.{validate_coverage}
use kanatoko.Capture.Closure.{ensure_executable_closure_present, ensure_legacy_root_present}
use kanatoko.Capture.Digest.{
  BundleReport, BundleProvenance, BundleDigests, capture_bundle_schema_version, inventory_digest,
  canonical_bundle_digest, legacy_canonical_bundle_digest,
}
use kanatoko.Capture.Discover.{count_present}
use kanatoko.Capture.Hex.{hex, decode_hex_digest}
use kanatoko.Capture.Origin.{redact_rpc_origin, is_empty}

pub record CaptureBundle : Type 0 where
  pub schema_version : ℕ
  pub ledger_snapshot : LedgerSnapshot
  pub known_absent : List Bytes
  pub report : BundleReport
  pub provenance : BundleProvenance
  pub ledger_digest : Bytes
  pub inventory_digest : Bytes
  pub canonical_digest : Bytes

-- The bundle of schema 1, which also names the root contract.
pub record LegacyCaptureBundle : Type 0 where
  pub root_contract : Bytes
  pub bundle : CaptureBundle

abbrev pub max_discovery_rounds : ℕ
max_discovery_rounds = 16

-- The last check of `validate_bundle_metadata`.
unfoldable pub metadata_agrees : LedgerSnapshot → BundleReport → BundleProvenance → Bool
metadata_agrees snapshot report provenance =
    (provenance.ledger_sequence == snapshot.sequence_number)
    && (provenance.protocol_version == snapshot.protocol_version)
    && not (is_empty provenance.ledger_hash)
    && not (report.discovery_rounds == 0)
    && not (ltb max_discovery_rounds report.discovery_rounds)
    && (report.final_replay_rpc_reads == 0)

-- The conversion of the rounds to `usize` cannot fail on a 64-bit target.
unfoldable pub validate_bundle_metadata :
    LedgerSnapshot → BundleReport → BundleProvenance → Bytes → Result CaptureError (Unit {0})
unfolding metadata_agrees redact_rpc_origin
validate_bundle_metadata snapshot report provenance passphrase = do
  guard (holds (Bytes-discrete provenance.network_passphrase passphrase)) network_mismatch
  origin ← redact_rpc_origin provenance.rpc_origin
  guard (holds (Bytes-discrete origin provenance.rpc_origin)) malformed_capture_bundle
  guard (metadata_agrees snapshot report provenance) capture_bundle_integrity

-- `known_absent_keys`
unfoldable pub known_absent_keys : Coverage → List Bytes
known_absent_keys [] = []
known_absent_keys ((id, absent) ∷ coverage) = id ∷ known_absent_keys coverage
known_absent_keys ((id, present entry live_until) ∷ coverage) = known_absent_keys coverage

is_new : Option LookupState → Bool
is_new none = true
is_new (some state) = false

-- Is the key above the one before it, if there was one?
is_above : Option Bytes → Bytes → Bool
unfolding cmp
is_above none id = true
is_above (some previous) id = elim (cmp previous id) [ Ordering.lt ↦ true | _ ↦ false ]

module _ (c : Codec) where
  unfoldable pub encode_all : List Bytes → List Bytes
  encode_all [] = []
  encode_all (k ∷ ks) = c.base64_encode k ∷ encode_all ks

  -- The first loop of `bundle_coverage`: the present entries.
  unfoldable pub add_present : Coverage → List SnapshotEntry → Result CaptureError Coverage
  unfolding is_state_archival_key capture_id get insert is_new
  add_present coverage [] = ok coverage
  add_present coverage ((key, entry, live_until) ∷ es) = do
    guard (not (is_state_archival_key (c.to_key entry))) malformed_capture_bundle
    id ← capture_id c (c.to_key entry)
    guard (is_new (get id coverage)) capture_bundle_integrity
    add_present (insert id (present entry live_until) coverage) es

  -- The second loop: the keys known to be absent, in ascending order.
  unfoldable pub add_absent : Option Bytes → Coverage → List Bytes → Result CaptureError Coverage
  unfolding is_state_archival_key capture_id get insert is_new is_above
  add_absent previous coverage [] = ok coverage
  add_absent previous coverage (encoded ∷ es) = do
    bytes ← ok_or (c.base64_decode encoded) malformed_capture_bundle
    guard (holds (Bytes-discrete (c.base64_encode bytes) encoded)) malformed_capture_bundle
    key ← ok_or (c.key_of_xdr bytes) malformed_capture_bundle
    id ← capture_id c key
    guard (holds (Bytes-discrete id bytes) && not (is_state_archival_key key))
        malformed_capture_bundle
    guard (is_above previous bytes) malformed_capture_bundle
    guard (is_new (get bytes coverage)) capture_bundle_integrity
    add_absent (some bytes) (insert bytes absent coverage) es

  unfoldable pub bundle_coverage : LedgerSnapshot → List Bytes → Result CaptureError Coverage
  unfolding add_present add_absent
  bundle_coverage snapshot known_absent = do
    coverage ← add_present [] snapshot.ledger_entries
    add_absent none coverage known_absent

  unfoldable pub validate_bundle_coverage :
      Coverage → BundleReport → Hash → ℕ → ℕ → Result CaptureError (ℕ × ℕ)
  unfolding validate_coverage ensure_executable_closure_present inventory_digest count_present
  validate_bundle_coverage coverage report expected ledger_sequence max_entry_ttl = do
    guard
        (is_ok (validate_coverage c coverage ledger_sequence max_entry_ttl)
          && is_ok (ensure_executable_closure_present c coverage))
        capture_bundle_integrity
    let present_entries = count_present coverage
    let absent_entries = length coverage - present_entries
    actual ← inventory_digest c coverage
    guard
        (holds (Bytes-discrete actual expected)
          && (present_entries == report.present_entries)
          && (absent_entries == report.absent_entries))
        capture_bundle_integrity
    ok (present_entries, absent_entries)

  -- The digests of an envelope, against the digest that its other fields have.
  unfoldable pub envelope_digests :
      CaptureBundle → (Hash → Hash → Result CaptureError Hash) → Result CaptureError BundleDigests
  unfolding decode_hex_digest
  envelope_digests bundle canonical = do
    ledger ← decode_hex_digest bundle.ledger_digest
    inventory ← decode_hex_digest bundle.inventory_digest
    actual ← decode_hex_digest bundle.canonical_digest
    expected ← canonical ledger inventory
    guard (holds (Bytes-discrete actual expected)) capture_bundle_integrity
    ok (record { ledger = ledger; inventory = inventory })

  unfoldable pub validate_bundle_envelope :
      CaptureBundle → Bytes → Result CaptureError BundleDigests
  unfolding validate_bundle_metadata envelope_digests canonical_bundle_digest
  validate_bundle_envelope bundle passphrase = do
    guard (bundle.schema_version == capture_bundle_schema_version)
        (unsupported_capture_bundle_schema bundle.schema_version capture_bundle_schema_version)
    validate_bundle_metadata bundle.ledger_snapshot bundle.report bundle.provenance passphrase
    envelope_digests bundle
        (canonical_bundle_digest c bundle.known_absent bundle.report bundle.provenance)

  unfoldable pub validate_legacy_bundle_envelope :
      LegacyCaptureBundle → Bytes → Result CaptureError BundleDigests
  unfolding validate_bundle_metadata envelope_digests legacy_canonical_bundle_digest
  validate_legacy_bundle_envelope legacy passphrase = do
    let bundle = legacy.bundle
    guard (bundle.schema_version == 1)
        (unsupported_capture_bundle_schema bundle.schema_version capture_bundle_schema_version)
    validate_bundle_metadata bundle.ledger_snapshot bundle.report bundle.provenance passphrase
    envelope_digests bundle (
        legacy_canonical_bundle_digest c legacy.root_contract bundle.known_absent bundle.report
          bundle.provenance)
