-- ===== src/Strict/Candidate.antt =====
-- `StrictFork::register_candidate` of src/strict.rs.
pub mod Atomic
use kanatoko.Prelude.{
  List, [], ◌∷◌, Option, none, some, Bool, true, false, not, ℕ, Result, ok, err, ◌>>=◌, ◌>>◌, guard,
  ok_or, map_err, holds, if◌then◌else◌,
}
use kanatoko.Bytes.{Bytes, Bytes-discrete}
use kanatoko.BTree.{get}
use kanatoko.Xdr.{Codec, Hash, ScAddress, ScAddress-discrete, ScVal, LedgerSnapshot}
use kanatoko.Fixture.{canonical_digest}
use kanatoko.Ledger.{
  StrictForkError, candidate_address_not_contract, candidate_address_occupied, wasm_hash_mismatch,
  candidate_registration_failed, fixture, StateChange, contract_instance_key, has_address, has_hash,
  key_id, state_diff, update_coverage,
}
use kanatoko.Host.{Host}
use kanatoko.Host.Calls.{network_ledger_snapshot, args_values, address_value}
use kanatoko.Strict.{
  CandidateInstallMode, CandidateRegistration, StrictFork, is_contract, is_present, reject_unknown,
  ledger_snapshot,
}
use kanatoko.Strict.Source.{strict_env, unknown_keys}

-- `BTreeSet::insert` on the local addresses and the local code hashes.
unfoldable pub insert_address : ScAddress → List ScAddress → List ScAddress
unfolding has_address
insert_address a xs = if has_address a xs then xs else a ∷ xs

unfoldable pub insert_hash : Hash → List Hash → List Hash
unfolding has_hash
insert_hash a xs = if has_hash a xs then xs else a ∷ xs

-- What is ready before the fork is changed.
pub record Prepared (Env : Type 0) : Type 0 where
  pub child : Env
  pub contracts : List ScAddress
  pub hashes : List Hash
  pub registration : CandidateRegistration

module _ {Env : Type 0} (c : Codec) (h : Host Env) (supported : ℕ) where
  unfoldable pub check_candidate :
      StrictFork Env → ScAddress → Bytes → Hash → Result StrictForkError (Unit {0})
  unfolding is_contract key_id is_present get
  check_candidate f address wasm expected = do
    guard (is_contract address) candidate_address_not_contract
    guard (holds (Bytes-discrete (c.sha256 wasm) expected))
        (wasm_hash_mismatch expected (c.sha256 wasm))
    id ← key_id c (contract_instance_key address)
    guard (not (is_present (get id f.coverage))) candidate_address_occupied

  -- Everything up to the update of the fork's coverage.
  unfoldable pub prepare :
      StrictFork Env → ScAddress → Bytes → Hash → List ScVal → Result StrictForkError (Prepared Env)
  prepare f address wasm expected constructor_args = do
    check_candidate f address wasm expected
    let before = ledger_snapshot c h supported f
    before_digest ← map_err fixture (canonical_digest c before)
    let contracts = insert_address address f.local_contracts
    let hashes = insert_hash (c.sha256 wasm) f.local_code_hashes
    let fresh = strict_env c h supported before f.coverage contracts hashes false
    target ← address_value h fresh.0 address
    args ← args_values h fresh.0 constructor_args
    let installed = h.register_at fresh.0 target wasm args
    unknown ← unknown_keys c h supported installed.0 fresh.1
    reject_unknown unknown
    found ← ok_or installed.1 candidate_registration_failed
    guard (holds (ScAddress-discrete found address)) candidate_registration_failed
    let after = network_ledger_snapshot h supported installed.0 f.network_protocol_version
    after_digest ← map_err fixture (canonical_digest c after)
    changes ← state_diff c before after
    ok (record {
      child = installed.0;
      contracts = contracts;
      hashes = hashes;
      registration = record {
        address = address;
        wasm_sha256 = c.sha256 wasm;
        install_mode = CandidateInstallMode.local_injection;
        state_changes = changes;
        before_digest = before_digest;
        after_digest = after_digest;
        upstream_reads = 0;
      };
    })

  -- The update in place: an error of `update_coverage` would leave the fork half changed.
  unfoldable pub install :
      StrictFork Env → Prepared Env → StrictFork Env × Result StrictForkError CandidateRegistration
  unfolding update_coverage
  install f p =
      let updated = update_coverage c f.coverage p.registration.state_changes in
      elim updated.1 [
        | ok u ↦ (
          record f {
            coverage = updated.0;
            local_contracts = p.contracts;
            local_code_hashes = p.hashes;
            env = p.child;
          },
          ok p.registration,
        )
        | err e ↦ (record f { coverage = updated.0 }, err e)
      ]

  unfoldable pub register_candidate :
      StrictFork Env
      → ScAddress
      → Bytes
      → Hash
      → List ScVal
      → StrictFork Env × Result StrictForkError CandidateRegistration
  unfolding prepare install
  register_candidate f address wasm expected constructor_args =
      elim (prepare f address wasm expected constructor_args) [
        | ok p ↦ install f p
        | err e ↦ (f, err e)
      ]
