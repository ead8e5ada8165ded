-- ===== src/Capture/Replay.antt =====
-- `CapturedFixture` of src/capture.rs: its strict replay, the keys it covers, its anchor, and the
-- fork it opens.
pub mod Offline
use kanatoko.Prelude.{
  ℕ, List, [], ◌∷◌, Option, none, some, Bool, true, false, not, ◌&&◌, ◌||◌, Result, ok, err, ◌>>=◌,
  ◌>>◌, guard, ok_or, holds, if◌then◌else◌, length,
}
use kanatoko.Bytes.{Bytes, Bytes-discrete}
use kanatoko.BTree.{get, insert, insert_key}
use kanatoko.Xdr.{Codec, LedgerKey, LedgerSnapshot}
use kanatoko.Ledger.{Coverage, LookupState}
use kanatoko.Host.{Host, LedgerInfo}
use kanatoko.Strict.{StrictFork, from_captured}
use kanatoko.Strict.Source.{is_covered}
use kanatoko.Capture.{
  CaptureError, unknown_ledger_keys, scenario_panicked, host_inspection, malformed_capture_bundle,
  Anchor, Materialized, CapturedFixture, KeyMap, LocalLedger, no_local, owns, is_state_archival_key,
  capture_id,
}
use kanatoko.Capture.Rpc.{Transport, Stop, fails, panics}
use kanatoko.Capture.Source.{TrackingSource, new_source, Script, Ran, run_script}
use kanatoko.Capture.Validate.{snapshot_from_materialized}
use kanatoko.Capture.Discover.{Scenario}

-- The anchor of the frozen ledger.
unfoldable pub fixture_anchor : CapturedFixture → Anchor
fixture_anchor f = record {
  sequence = f.fixture.snapshot.sequence_number;
  hash = f.provenance.ledger_hash;
  protocol_version = f.fixture.snapshot.protocol_version;
  timestamp = f.fixture.snapshot.timestamp;
  base_reserve = f.fixture.snapshot.base_reserve;
}

-- The snapshot library's `ledger_info`: the header of a ledger.
abbrev pub header_of : LedgerSnapshot → LedgerInfo
header_of s = record {
  protocol_version = s.protocol_version;
  sequence_number = s.sequence_number;
  timestamp = s.timestamp;
  network_id = s.network_id;
  base_reserve = s.base_reserve;
  min_persistent_entry_ttl = s.min_persistent_entry_ttl;
  min_temp_entry_ttl = s.min_temp_entry_ttl;
  max_entry_ttl = s.max_entry_ttl;
}

unfoldable pub replay_state : CapturedFixture → Materialized
unfolding fixture_anchor
replay_state f = record {
  anchor = fixture_anchor f;
  ledger_info = header_of f.fixture.snapshot;
  coverage = f.coverage;
}

module _ (c : Codec) where
  -- The loop over the stored keys: one that is neither local nor covered is unknown.
  unfoldable pub uncovered :
      LocalLedger → Coverage → List Bytes → List LedgerKey → Result CaptureError (List Bytes)
  unfolding owns capture_id get is_covered
  uncovered l coverage unknown [] = ok unknown
  uncovered l coverage unknown (key ∷ stored) =
      if owns l key
      then uncovered l coverage unknown stored
      else (capture_id c key >>= λ id.
          uncovered l coverage
            (if is_covered (get id coverage) then unknown else insert_key id unknown) stored)

  -- What follows the scenario.
  unfoldable pub judge :
      Coverage → TrackingSource → Bool → Option (List LedgerKey) → Result CaptureError (Unit {0})
  unfolding uncovered
  judge coverage s panicked stored = do
    keys ← ok_or stored host_inspection
    unknown ← uncovered s.local coverage s.unknown keys
    elim unknown [ [] ↦ ok tt | id ∷ ids ↦ err (unknown_ledger_keys (length (id ∷ ids))) ]
    guard (not panicked) scenario_panicked

  -- `inventory_keys`: the keys that the coverage's identifiers decode to.
  unfoldable pub inventory_keys : Coverage → Result CaptureError KeyMap
  unfolding capture_id is_state_archival_key
  inventory_keys [] = ok []
  inventory_keys ((id, state) ∷ coverage) = do
    key ← ok_or (c.key_of_xdr id) malformed_capture_bundle
    own ← capture_id c key
    guard (holds (Bytes-discrete own id) && not (is_state_archival_key key))
        malformed_capture_bundle
    rest ← inventory_keys coverage
    ok ((id, key) ∷ rest)

abbrev pub stop_of : {A : Type 0} → Result CaptureError A → Result Stop A
stop_of (ok a) = ok a
stop_of (err e) = err (fails e)

module _ {World : Type 0} (c : Codec) (t : Transport World) where
  -- The scenario's run in `replay_with_local`, over a source without a transport.
  unfoldable pub replay_run : CapturedFixture → Scenario → LedgerSnapshot → World → Ran World
  unfolding replay_state new_source run_script
  replay_run f scenario snapshot w =
      let m = replay_state f in
      run_script c t (scenario m.ledger_info snapshot)
        (new_source f.coverage false no_local m.ledger_info.protocol_version) w

  unfoldable pub replay : CapturedFixture → Scenario → World → World × Result Stop (Unit {0})
  unfolding replay_run judge snapshot_from_materialized
  replay f scenario w = elim (snapshot_from_materialized c (replay_state f)) [
    | err e ↦ (w, err panics)
    | ok snapshot ↦ (
      (replay_run f scenario snapshot w).world,
      stop_of (
          judge c f.coverage (replay_run f scenario snapshot w).source
            (replay_run f scenario snapshot w).panicked (replay_run f scenario snapshot w).stored),
    )
  ]

-- `CapturedFixture::fork`
unfoldable pub open_fork :
    {Env : Type 0} → Codec → Host Env → ℕ → ℕ → CapturedFixture → ℕ × Option (StrictFork Env)
unfolding from_captured
open_fork c h supported next_id f =
    from_captured c h supported next_id f.fixture.snapshot f.coverage
