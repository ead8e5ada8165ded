-- ===== src/Capture/Materialize.antt =====
-- `CaptureBuilder` of src/capture.rs, up to a coherent ledger that holds the requested keys and
-- the executables that they refer to.
pub mod Answered
pub mod Checked
pub mod Rounds
pub mod Coherent
pub mod Closed
use kanatoko.Prelude.{
  ℕ, zero, suc, List, [], ◌∷◌, Option, none, some, Bool, true, false, not, ◌||◌, Result, ok, err,
  map_err, ok_or, holds, ◌==◌, if◌then◌else◌, chunks,
}
use kanatoko.Prelude
use kanatoko.Bytes.{Bytes, Bytes-discrete}
use kanatoko.BTree.{BTreeMap, get, insert}
use kanatoko.Xdr.{Codec, LedgerKey, ArchivalSettings}
use kanatoko.Protocol.{Policy, UnsupportedProtocol, check}
use kanatoko.Ledger.{Coverage}
use kanatoko.Host.{LedgerInfo}
use kanatoko.Capture.{
  CaptureError, network_mismatch, unsupported_protocol, incoherent_ledger, missing_state_archival,
  executable_closure_limit, Anchor, Anchor-discrete, FetchedEntry, EntryBatch, Materialized, KeyMap,
  capture_id, fetched_state, CapturedFixture,
}
use kanatoko.Capture.Rpc.{Transport, Stop, fails, Rpc, resume, lift, returning, call, ◌>>=◌, ◌>>◌}
use kanatoko.Capture.Validate.{validate_batch, extract_archival, validate_coverage}
use kanatoko.Capture.Closure.{required_keys, add_required, ensure_executable_closure_present}

pub record CaptureBuilder : Type 0 where
  pub network_passphrase : Bytes
  pub rpc_origin : Bytes
  pub protocol_policy : Policy
  pub max_coherence_attempts : ℕ
  pub max_discovery_rounds : ℕ

abbrev pub max_keys_per_batch : ℕ
max_keys_per_batch = 200

abbrev pub max_executable_closure_rounds : ℕ
max_executable_closure_rounds = 16

-- The coverage and the archival settings gathered so far.
abbrev pub Gathered : Type 0
Gathered = Coverage × Option ArchivalSettings

-- The loop over the keys of a chunk, which looks each up in what was returned.
unfoldable pub gather :
    Bytes
    → BTreeMap FetchedEntry
    → List (Bytes × LedgerKey)
    → Gathered
    → Result CaptureError Gathered
unfolding get insert extract_archival fetched_state
gather config_id returned [] g = ok g
gather config_id returned ((id, key) ∷ rest) (coverage, archival) =
    if holds (Bytes-discrete id config_id)
    then Prelude.◌>>=◌ (extract_archival (get id returned))
        (λ settings. gather config_id returned rest (coverage, some settings))
    else gather config_id returned rest
        (insert id (fetched_state (get id returned)) coverage, archival)

abbrev pub keys_of : List (Bytes × LedgerKey) → List LedgerKey
keys_of [] = []
keys_of ((id, key) ∷ rest) = key ∷ keys_of rest

module _ {World : Type 0} (c : Codec) (t : Transport World) (supported : ℕ)
    (b : CaptureBuilder) where
  unfoldable pub check_protocol : ℕ → Rpc World (Unit {0})
  unfolding check
  check_protocol version =
      lift (map_err unsupported_protocol (check supported b.protocol_policy version))

  unfoldable pub validate_network : Rpc World (Unit {0})
  unfolding check_protocol
  validate_network = do
    network ← call t.network
    lift (
        Prelude.guard (holds (Bytes-discrete network.passphrase b.network_passphrase))
          network_mismatch)
    check_protocol network.protocol_version

  unfoldable pub current_anchor : Rpc World Anchor
  unfolding check_protocol
  current_anchor = do
    anchor ← call t.latest_ledger
    check_protocol anchor.protocol_version
    returning anchor

  -- The loop over the chunks: `none` where a batch is of another ledger.
  unfoldable pub gather_chunks :
      Bytes → ℕ → List (List (Bytes × LedgerKey)) → Gathered → Rpc World (Option Gathered)
  unfolding gather validate_batch
  gather_chunks config_id sequence [] g = returning (some g)
  gather_chunks config_id sequence (chunk ∷ rest) g = do
    batch ← call (t.ledger_entries (keys_of chunk))
    if batch.latest_ledger == sequence
        then (do
          returned ← lift (validate_batch c (keys_of chunk) batch.entries)
          gathered ← lift (gather config_id returned chunk g)
          gather_chunks config_id sequence rest gathered)
        else returning none

  -- What an attempt makes of the anchors before and after it, and of what it gathered.
  unfoldable pub conclude :
      Anchor → Anchor → Option Gathered → Result CaptureError (Option Materialized)
  unfolding validate_coverage
  conclude before after none = ok none
  conclude before after (some (coverage, archival)) =
      if holds (Anchor-discrete before after)
      then Prelude.◌>>=◌ (ok_or archival missing_state_archival) (λ settings.
        Prelude.◌>>=◌ (validate_coverage c coverage before.sequence settings.max_entry_ttl) (λ u.
          ok (
            some (record {
              anchor = before;
              ledger_info = record {
                protocol_version = before.protocol_version;
                sequence_number = before.sequence;
                timestamp = before.timestamp;
                network_id = c.sha256 b.network_passphrase;
                base_reserve = before.base_reserve;
                min_persistent_entry_ttl = settings.min_persistent_ttl;
                min_temp_entry_ttl = settings.min_temporary_ttl;
                max_entry_ttl = settings.max_entry_ttl;
              };
              coverage = coverage;
            }))))
      else ok none

  -- One round of the loop of `materialize`: `none` where it goes round again.
  unfoldable pub attempt_materialize :
      Bytes → List (Bytes × LedgerKey) → Rpc World (Option Materialized)
  unfolding check_protocol gather_chunks chunks conclude
  attempt_materialize config_id requested = do
    before ← call t.latest_ledger
    check_protocol before.protocol_version
    gathered ←
        gather_chunks config_id before.sequence (chunks max_keys_per_batch requested) ([], none)
    after ← call t.latest_ledger
    lift (conclude before after gathered)

  unfoldable pub materialize_loop : ℕ → Bytes → List (Bytes × LedgerKey) → Rpc World Materialized
  unfolding attempt_materialize
  materialize_loop zero config_id requested =
      lift (err (incoherent_ledger b.max_coherence_attempts))
  materialize_loop (suc attempts) config_id requested = do
    found ← attempt_materialize config_id requested
    elim found [ some m ↦ returning m | none ↦ materialize_loop attempts config_id requested ]

  unfoldable pub materialize : KeyMap → Rpc World Materialized
  unfolding materialize_loop capture_id insert
  materialize keys = do
    config_id ← lift (capture_id c LedgerKey.state_archival)
    materialize_loop b.max_coherence_attempts config_id
        (insert config_id LedgerKey.state_archival keys)

  -- A round of `expand_code_closure` up to its return: the keys with those now required, and
  -- whether one was new; where none was, the closure must be present.
  unfoldable pub closure_step : KeyMap → Materialized → Rpc World (KeyMap × Bool)
  unfolding required_keys add_required ensure_executable_closure_present
  closure_step keys m = do
    required ← lift (required_keys c m.coverage m.coverage)
    grown ← lift (add_required c keys false required)
    lift (if grown.1 then ok tt else ensure_executable_closure_present c m.coverage)
    returning grown

  -- The loop, with how many rounds may follow this one.
  unfoldable pub closure_rounds : ℕ → KeyMap → Materialized → Rpc World (KeyMap × Materialized)
  unfolding closure_step materialize
  closure_rounds zero keys m = do
    grown ← closure_step keys m
    if grown.1
        then lift (err (executable_closure_limit max_executable_closure_rounds))
        else returning (grown.0, m)
  closure_rounds (suc rest) keys m = do
    grown ← closure_step keys m
    if grown.1 then materialize grown.0 >>= closure_rounds rest grown.0 else returning (grown.0, m)

  unfoldable pub expand_code_closure : KeyMap → Materialized → Rpc World (KeyMap × Materialized)
  unfolding closure_rounds
  expand_code_closure keys m = closure_rounds max_executable_closure_rounds keys m
