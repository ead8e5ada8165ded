-- ===== src/Capture/Discover.antt =====
-- `CaptureBuilder::capture_ref_from_keys` of src/capture.rs: the loop that runs a scenario until it
-- asks for no new ledger key.
use kanatoko.Prelude.{
  ℕ, zero, suc, ◌+◌, ◌-◌, List, [], ◌∷◌, Option, none, some, Bool, true, false, not, Result, ok,
  err, map_err, ok_or, ◌==◌, if◌then◌else◌, length,
}
use kanatoko.Prelude
use kanatoko.BTree.{get, insert}
use kanatoko.Xdr.{Codec, LedgerKey, LedgerSnapshot}
use kanatoko.Fixture.{from_snapshot_with_policy}
use kanatoko.Ledger.{Coverage, present, absent}
use kanatoko.Host.{LedgerInfo}
use kanatoko.Capture.{
  CaptureError, transport, host_inspection, internal_invariant, scenario_panicked,
  fixed_point_limit, fixture, Materialized, KeyMap, LocalLedger, no_local, owns,
  is_state_archival_key, capture_id, CapturedFixture,
}
use kanatoko.Capture.Rpc.{Transport, Stop, panics, Rpc, lift, ◌>>=◌, ◌>>◌}
use kanatoko.Capture.Validate.{snapshot_from_materialized}
use kanatoko.Capture.Source.{new_source, Script, Ran, run_script}
use kanatoko.Capture.Materialize.{
  CaptureBuilder, validate_network, materialize, expand_code_closure,
}
use kanatoko.Capture.Digest.{inventory_digest}

unfoldable pub count_present : Coverage → ℕ
count_present [] = 0
count_present ((id, present entry live_until) ∷ coverage) = suc (count_present coverage)
count_present ((id, absent) ∷ coverage) = count_present coverage

-- A scenario over the environment that is made of a ledger, its header and its tracking source.
abbrev pub Scenario : Type 0
Scenario = LedgerInfo → LedgerSnapshot → Script

module _ (c : Codec) where
  -- The stored keys of the environment that are not local, added to those that were asked for.
  unfoldable pub add_stored : LocalLedger → KeyMap → List LedgerKey → Result CaptureError KeyMap
  unfolding owns capture_id insert
  add_stored l requested [] = ok requested
  add_stored l requested (key ∷ stored) =
      if owns l key
      then add_stored l requested stored
      else Prelude.◌>>=◌ (capture_id c key) (λ id. add_stored l (insert id key requested) stored)

  -- The requested keys added to those of the capture, and how many of them are new.
  unfoldable pub add_requested : KeyMap → ℕ → KeyMap → Result CaptureError (KeyMap × ℕ)
  unfolding is_state_archival_key capture_id get insert
  add_requested keys added [] = ok (keys, added)
  add_requested keys added ((id, key) ∷ requested) =
      if is_state_archival_key key
      then add_requested keys added requested
      else Prelude.◌>>=◌ (capture_id c key) (λ own.
        add_requested (insert own key keys)
          (elim (get own keys) [ none ↦ suc added | some k ↦ added ]) requested)

  -- The keys after a run, and how many it added.
  unfoldable pub grow : {World : Type 0} → KeyMap → Ran World → Result CaptureError (KeyMap × ℕ)
  unfolding add_stored add_requested
  grow keys ran = elim (ran.source.failure) [
    | some operation ↦ err (transport operation)
    | none ↦ Prelude.◌>>=◌ (ok_or ran.stored host_inspection) (λ stored.
        Prelude.◌>>=◌ (add_stored ran.source.local ran.source.requested stored)
          (λ requested. add_requested keys 0 requested))
  ]

-- `env_from_materialized`: the `expect` panics where the snapshot cannot be made.
abbrev pub expected :
    {World : Type 0} → Result CaptureError LedgerSnapshot → Rpc World LedgerSnapshot
expected (ok s) w = (w, ok s)
expected (err e) w = (w, err panics)

abbrev running : {World : Type 0} → Ran World → World × Result Stop (Ran World)
running ran = (ran.world, ok ran)

module _ {World : Type 0} (c : Codec) (t : Transport World) (supported : ℕ)
    (b : CaptureBuilder) where
  unfoldable pub run_round : Scenario → Materialized → Rpc World (Ran World)
  unfolding snapshot_from_materialized run_script new_source
  run_round scenario m = do
    snapshot ← expected (snapshot_from_materialized c m)
    λ w. running (
        run_script c t (scenario m.ledger_info snapshot)
          (new_source m.coverage true no_local m.ledger_info.protocol_version) w)

  -- What follows the loop's last round.
  unfoldable pub finish_capture : ℕ → Materialized → Ran World → Result CaptureError CapturedFixture
  unfolding snapshot_from_materialized from_snapshot_with_policy inventory_digest count_present
  finish_capture round m ran =
      Prelude.◌>>=◌ (Prelude.guard (not ran.panicked) scenario_panicked) (λ u.
        Prelude.◌>>=◌ (Prelude.guard (ran.source.rpc_reads == 0) internal_invariant) (λ u.
          Prelude.◌>>=◌ (snapshot_from_materialized c m) (λ snapshot.
            Prelude.◌>>=◌
              (map_err fixture (
                from_snapshot_with_policy c supported snapshot b.network_passphrase
                  b.protocol_policy))
              (λ frozen. Prelude.◌>>=◌ (inventory_digest c m.coverage) (λ inventory. ok (record {
                fixture = frozen;
                coverage = m.coverage;
                report = record {
                  discovery_rounds = round;
                  present_entries = count_present m.coverage;
                  absent_entries = length m.coverage - count_present m.coverage;
                  inventory_digest = inventory;
                  final_replay_rpc_reads = 0;
                };
                provenance = record {
                  rpc_origin = b.rpc_origin;
                  network_passphrase = b.network_passphrase;
                  ledger_sequence = m.anchor.sequence;
                  ledger_hash = m.anchor.hash;
                  protocol_version = m.anchor.protocol_version;
                };
              }))))))

  -- A ledger that holds the keys and their closure.
  unfoldable pub materialize_closed : KeyMap → Rpc World (KeyMap × Materialized)
  unfolding materialize expand_code_closure
  materialize_closed keys = do
    m ← materialize c t supported b keys
    expand_code_closure c t supported b keys m

  -- The rounds that are left, the number of the next one, and the state of the loop.
  unfoldable pub discovery : ℕ → ℕ → Scenario → KeyMap → Materialized → Rpc World CapturedFixture
  unfolding run_round grow finish_capture materialize_closed
  discovery zero round scenario keys m = lift (err (fixed_point_limit b.max_discovery_rounds))
  discovery (suc rest) round scenario keys m = do
    ran ← run_round scenario m
    grown ← lift (grow c keys ran)
    if grown.1 == 0
        then lift (finish_capture round m ran)
        else (materialize_closed grown.0 >>= λ next.
            discovery rest (suc round) scenario next.0 next.1)

  unfoldable pub capture_ref_from_keys : Scenario → KeyMap → Rpc World CapturedFixture
  unfolding validate_network materialize_closed discovery
  capture_ref_from_keys scenario keys = do
    validate_network c t supported b
    start ← materialize_closed keys
    discovery b.max_discovery_rounds 1 scenario start.0 start.1

  unfoldable pub capture_ref : Scenario → Rpc World CapturedFixture
  unfolding capture_ref_from_keys
  capture_ref scenario = capture_ref_from_keys scenario []
