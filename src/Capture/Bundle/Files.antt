-- ===== src/Capture/Bundle/Files.antt =====
-- `CapturedFixture::{to_bundle, from_bundle, from_legacy_bundle, from_bundle_bytes}` of
-- src/capture.rs.
use kanatoko.Prelude.{
  ℕ, ◌^◌, Option, Result, ok, err, ◌>>=◌, ◌>>◌, guard, ok_or, map_err, holds, ltb, ◌==◌,
  if◌then◌else◌,
}
use kanatoko.Bytes.{Bytes, Bytes-discrete}
use kanatoko.Xdr.{Codec, Hash, ScAddress}
use kanatoko.Protocol.{Policy}
use kanatoko.Fixture.{FrozenFixture, from_snapshot_with_policy}
use kanatoko.Strict.{is_contract}
use kanatoko.Ledger.{Coverage}
use kanatoko.Capture.{
  CaptureError, malformed_capture_bundle, capture_bundle_integrity, internal_invariant,
  unsupported_capture_bundle_schema, fixture, CapturedFixture,
}
use kanatoko.Capture.Closure.{ensure_legacy_root_present}
use kanatoko.Capture.Digest.{
  BundleProvenance, BundleReport, capture_bundle_schema_version, inventory_digest,
  canonical_bundle_digest,
}
use kanatoko.Capture.Hex.{hex}
use kanatoko.Capture.Bundle.{
  CaptureBundle, LegacyCaptureBundle, known_absent_keys, encode_all, bundle_coverage,
  validate_bundle_coverage, validate_bundle_envelope, validate_legacy_bundle_envelope,
}

abbrev pub report_of : CapturedFixture → BundleReport
report_of f = record {
  discovery_rounds = f.report.discovery_rounds;
  present_entries = f.report.present_entries;
  absent_entries = f.report.absent_entries;
  final_replay_rpc_reads = f.report.final_replay_rpc_reads;
}

abbrev pub provenance_of : CapturedFixture → BundleProvenance
provenance_of f = record {
  rpc_origin = f.provenance.rpc_origin;
  network_passphrase = f.provenance.network_passphrase;
  ledger_sequence = f.provenance.ledger_sequence;
  ledger_hash = f.provenance.ledger_hash;
  protocol_version = f.provenance.protocol_version;
}

module _ (c : Codec) (supported : ℕ) where
  -- The conversions to `u64` cannot fail on a 64-bit target.
  unfoldable pub to_bundle : CapturedFixture → Result CaptureError CaptureBundle
  unfolding inventory_digest canonical_bundle_digest known_absent_keys encode_all hex
  to_bundle f = do
    let absent_keys = encode_all c (known_absent_keys f.coverage)
    inventory ← inventory_digest c f.coverage
    guard (holds (Bytes-discrete inventory f.report.inventory_digest)) internal_invariant
    guard (ltb f.report.discovery_rounds (2 ^ 32)) internal_invariant
    canonical ←
        canonical_bundle_digest c absent_keys (report_of f) (provenance_of f)
          f.fixture.ledger_digest inventory
    ok (record {
      schema_version = capture_bundle_schema_version;
      ledger_snapshot = f.fixture.snapshot;
      known_absent = absent_keys;
      report = report_of f;
      provenance = provenance_of f;
      ledger_digest = hex f.fixture.ledger_digest;
      inventory_digest = hex inventory;
      canonical_digest = hex canonical;
    })

  -- The fixture that both readers return at their end.
  abbrev pub restored : FrozenFixture → Coverage → CaptureBundle → Hash → ℕ × ℕ → CapturedFixture
  restored frozen coverage bundle inventory counts = record {
    fixture = frozen;
    coverage = coverage;
    report = record {
      discovery_rounds = bundle.report.discovery_rounds;
      present_entries = counts.0;
      absent_entries = counts.1;
      inventory_digest = inventory;
      final_replay_rpc_reads = 0;
    };
    provenance = record {
      rpc_origin = bundle.provenance.rpc_origin;
      network_passphrase = bundle.provenance.network_passphrase;
      ledger_sequence = bundle.provenance.ledger_sequence;
      ledger_hash = bundle.provenance.ledger_hash;
      protocol_version = bundle.provenance.protocol_version;
    };
  }

  unfoldable pub from_bundle : CaptureBundle → Bytes → Policy → Result CaptureError CapturedFixture
  unfolding validate_bundle_envelope from_snapshot_with_policy bundle_coverage
      validate_bundle_coverage
  from_bundle bundle passphrase policy = do
    digests ← validate_bundle_envelope c bundle passphrase
    frozen ←
        map_err fixture
          (from_snapshot_with_policy c supported bundle.ledger_snapshot passphrase policy)
    guard (holds (Bytes-discrete frozen.ledger_digest digests.ledger)) capture_bundle_integrity
    coverage ← bundle_coverage c frozen.snapshot bundle.known_absent
    counts ←
        validate_bundle_coverage c coverage bundle.report digests.inventory
          frozen.snapshot.sequence_number frozen.snapshot.max_entry_ttl
    ok (restored frozen coverage bundle digests.inventory counts)

  -- `parse_legacy_contract_address`; `parse_address` is the SDK's, `none` its panic.
  unfoldable pub parse_legacy_contract_address :
      (Bytes → Option ScAddress) → Bytes → Result CaptureError ScAddress
  unfolding is_contract
  parse_legacy_contract_address parse_address value = do
    address ← ok_or (parse_address value) malformed_capture_bundle
    guard (is_contract address) malformed_capture_bundle
    ok address

  unfoldable pub from_legacy_bundle :
      (Bytes → Option ScAddress)
      → LegacyCaptureBundle
      → Bytes
      → Policy
      → Result CaptureError CapturedFixture
  unfolding validate_legacy_bundle_envelope from_snapshot_with_policy parse_legacy_contract_address
      bundle_coverage ensure_legacy_root_present validate_bundle_coverage
  from_legacy_bundle parse_address legacy passphrase policy = do
    let bundle = legacy.bundle
    digests ← validate_legacy_bundle_envelope c legacy passphrase
    frozen ←
        map_err fixture
          (from_snapshot_with_policy c supported bundle.ledger_snapshot passphrase policy)
    guard (holds (Bytes-discrete frozen.ledger_digest digests.ledger)) capture_bundle_integrity
    root ← parse_legacy_contract_address parse_address legacy.root_contract
    coverage ← bundle_coverage c frozen.snapshot bundle.known_absent
    map_err (λ e. capture_bundle_integrity) (ensure_legacy_root_present c root coverage)
    counts ←
        validate_bundle_coverage c coverage bundle.report digests.inventory
          frozen.snapshot.sequence_number frozen.snapshot.max_entry_ttl
    ok (restored frozen coverage bundle digests.inventory counts)

-- Serde's readers of the file's three shapes.
pub record BundleReader : Type 0 where
  pub version : Bytes → Option ℕ
  pub bundle : Bytes → Option CaptureBundle
  pub legacy : Bytes → Option LegacyCaptureBundle

module _ (c : Codec) (supported : ℕ) (r : BundleReader)
    (parse_address : Bytes → Option ScAddress) where
  unfoldable pub from_bundle_bytes : Bytes → Bytes → Policy → Result CaptureError CapturedFixture
  unfolding from_bundle from_legacy_bundle
  from_bundle_bytes bytes passphrase policy = do
    version ← ok_or (r.version bytes) malformed_capture_bundle
    if version == capture_bundle_schema_version
        then (ok_or (r.bundle bytes) malformed_capture_bundle >>= λ b.
            from_bundle c supported b passphrase policy)
        else (if version == 1
            then (ok_or (r.legacy bytes) malformed_capture_bundle >>= λ b.
                from_legacy_bundle c supported parse_address b passphrase policy)
            else err (unsupported_capture_bundle_schema version capture_bundle_schema_version))
