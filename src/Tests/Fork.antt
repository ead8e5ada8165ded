-- ===== src/Tests/Fork.antt =====
-- A fork over a small captured ledger: account 1 is present, account 9 is known to be absent.
use kanatoko.Prelude.{ℕ, [], ◌∷◌, none}
use kanatoko.Bytes.{Bytes, Bytes-discrete}
use kanatoko.Bytes.Encode.{be_bytes}
use kanatoko.Xdr.{
  ScAddress, LedgerKey, LedgerEntry, LedgerEntryData, LedgerSnapshot, LedgerKey-discrete,
  ScAddress-discrete,
}
use kanatoko.Fixture.{canonical_digest, encode_entries, sort_by_key, reject_duplicates, preimage}
use kanatoko.Ledger.{
  Coverage, present, absent, snapshot_map, state_diff, update_coverage, strip_new_mock_nonces,
  Value-discrete,
}
use kanatoko.Prelude.{◌≡◌, refl, arith, ok}
use kanatoko.BTree.{get}
use kanatoko.Ledger.Diff.{LedgerMap, Covers}
use kanatoko.Host.{InvokeRequest}
use kanatoko.Host.Calls.{
  network_ledger_snapshot, args_values, address_value, invocation_values, invoke_outcome,
  detached_snapshot_evidence, detached_diagnostics, is_success,
}
use kanatoko.Strict.{
  StrictFork, fresh_fork, ledger_snapshot, reject_unknown, auth_matches, commits, disposition_of,
  applied_auth, allow_mock_nonces, is_contract, is_present,
}
use kanatoko.Strict.Source.{strict_env, unknown_keys}
use kanatoko.Strict.Invoke.{invoke, attempt, run_child, authorize, strip_if, promote, settle}
use kanatoko.Strict.Candidate.{
  register_candidate, prepare, check_candidate, install, insert_address, insert_hash,
}
use kanatoko.Tests.Toy.{
  toy_codec, fields_of, toy_host, ToyEnv, empty_snapshot, bump, key_bytes, toy_key, data_bytes,
}

abbrev pub account_1 : LedgerKey
account_1 = LedgerKey.account (1 ∷ [])

abbrev pub entry_1 : LedgerEntry
entry_1 = record {
  last_modified_ledger_seq = 5;
  entry_data = LedgerEntryData.account (1 ∷ []) (fields_of (4 ∷ []));
  ext = [];
}

abbrev pub captured : LedgerSnapshot
captured = record empty_snapshot {
  protocol_version = 30;
  sequence_number = 7;
  ledger_entries = (account_1, entry_1, none) ∷ [];
}

abbrev pub account_id : ℕ → Bytes
account_id n = 0 ∷ 0 ∷ 0 ∷ 0 ∷ 0 ∷ 0 ∷ 0 ∷ 0 ∷ 1 ∷ n ∷ []

abbrev pub captured_coverage : Coverage
captured_coverage = (account_id 1, present entry_1 none) ∷ (account_id 9, absent) ∷ []

abbrev pub fork : StrictFork ToyEnv
fork = fresh_fork toy_codec toy_host 29 1 captured captured_coverage

abbrev pub bump_request : InvokeRequest
bump_request = record { contract = ScAddress.contract (5 ∷ []); function = bump; args = [] }

abbrev pub stray_request : InvokeRequest
stray_request = record { contract = ScAddress.contract (5 ∷ []); function = 3 ∷ []; args = [] }

-- What a run of `invoke` or `register_candidate` on the fork computes with.
unfoldable pub opened : ℕ
unfolding toy_host toy_key data_bytes fresh_fork invoke attempt run_child authorize strip_if promote
    settle ledger_snapshot canonical_digest encode_entries sort_by_key reject_duplicates preimage
    LedgerKey-discrete Bytes-discrete ScAddress-discrete Value-discrete unknown_keys reject_unknown
    strict_env invocation_values invoke_outcome detached_snapshot_evidence auth_matches
    network_ledger_snapshot state_diff detached_diagnostics commits disposition_of applied_auth
    allow_mock_nonces register_candidate prepare check_candidate install address_value args_values
    strip_new_mock_nonces update_coverage key_bytes be_bytes snapshot_map insert_address insert_hash
    is_success is_contract is_present
opened = 0

abbrev pub captured_map : LedgerMap
captured_map =
    (account_id 1, (account_1, record { entry = entry_1; live_until_ledger = none })) ∷ []

pub captured-Covers : Covers captured_coverage captured_map
unfolding get
captured-Covers id = ground arith

pub captured_map_lem : snapshot_map toy_codec captured ≡ ok captured_map
unfolding opened
captured_map_lem = refl
