-- ===== src/Strict.antt =====
-- src/strict.rs: a mutable offline fork that fails closed outside its Present/Absent coverage.
-- Each method that may fail returns the fork that it leaves behind with its result.
pub mod Source
pub mod Invoke
pub mod Candidate
pub mod Checkpoint
pub mod Soundness
pub mod Reopen
pub mod History
use kanatoko.Prelude.{
  ℕ, suc, ◌+◌, ◌%◌, ◌^◌, List, [], ◌∷◌, ◌++◌, Option, none, some, Bool, true, false, ◌&&◌, Result,
  ok, err, ◌>>=◌, ◌>>◌, guard, ok_or, map_err, holds, ite, if◌then◌else◌, ◌==◌, ℕ_discrete,
}
use kanatoko.Bytes.{Bytes, Bytes-discrete}
use kanatoko.BTree.{get}
use kanatoko.Xdr.{Codec, Hash, ScAddress, ScAddress-discrete, ScVal, LedgerSnapshot}
use kanatoko.Fixture.{FixtureError, canonical_digest}
use kanatoko.Ledger.{
  StrictForkError, unknown_ledger_keys, auth_tree_mismatch, checkpoint_mismatch,
  candidate_address_not_contract, candidate_address_occupied, wasm_hash_mismatch,
  candidate_registration_failed, invalid_authorization_entries, fixture, LookupState, present,
  Coverage, StateChange, contract_instance_key, key_id, state_diff, update_coverage,
  strip_new_mock_nonces,
}
use kanatoko.Host.{AuthorizationTree, DetachedEvent, Host, InvokeRequest, InvokeOutcome}
use kanatoko.Host.Calls.{
  is_success, network_ledger_snapshot, args_values, address_value, invocation_values,
  invoke_outcome, detached_snapshot_evidence, detached_diagnostics,
}
use Source.{StrictSource, strict_env, unknown_keys}

pub data AuthMode : Type 0 where
  recording : AuthMode
  mock_exact : List AuthorizationTree → AuthMode
  -- the signed authorization entries (opaque)
  enforce : List Bytes → AuthMode

pub data AppliedAuthMode : Type 0 where
  record_mock_satisfied mock_exact enforce : AppliedAuthMode

pub data ExecutionMode : Type 0 where
  preview apply : ExecutionMode

pub data ReceiptDisposition : Type 0 where
  previewed committed rejected : ReceiptDisposition

pub data CandidateInstallMode : Type 0 where
  local_injection : CandidateInstallMode

pub record CandidateRegistration : Type 0 where
  pub address : ScAddress
  pub wasm_sha256 : Hash
  pub install_mode : CandidateInstallMode
  pub state_changes : List StateChange
  pub before_digest : Hash
  pub after_digest : Hash
  pub upstream_reads : ℕ

pub record Receipt : Type 0 where
  pub request : InvokeRequest
  pub outcome : InvokeOutcome
  pub auth_mode : AppliedAuthMode
  pub authorization : List AuthorizationTree
  pub events : List DetachedEvent
  pub diagnostics : List DetachedEvent
  pub state_changes : List StateChange
  pub before_digest : Hash
  pub after_digest : Hash
  pub disposition : ReceiptDisposition
  pub upstream_reads : ℕ

pub record StrictCheckpoint : Type 0 where
  pub fork_id : ℕ
  pub snapshot : LedgerSnapshot
  pub coverage : Coverage
  pub local_contracts : List ScAddress
  pub local_code_hashes : List Hash

pub record StrictFork (Env : Type 0) : Type 0 where
  pub id : ℕ
  pub env : Env
  pub network_protocol_version : ℕ
  pub coverage : Coverage
  pub local_contracts : List ScAddress
  pub local_code_hashes : List Hash
  pub receipts : List Receipt

unfoldable pub Trees-discrete : Discrete (List AuthorizationTree)
unfolding ℕ_discrete
Trees-discrete = hlevel ℕ_discrete

unfoldable pub allow_mock_nonces : AuthMode → Bool
allow_mock_nonces recording = true
allow_mock_nonces (AuthMode.mock_exact trees) = true
allow_mock_nonces (AuthMode.enforce entries) = false

unfoldable pub applied_auth : AuthMode → AppliedAuthMode
applied_auth recording = AppliedAuthMode.record_mock_satisfied
applied_auth (AuthMode.mock_exact trees) = AppliedAuthMode.mock_exact
applied_auth (AuthMode.enforce entries) = AppliedAuthMode.enforce

-- `expected_auth.is_some_and(|expected| expected != authorization)`, negated.
unfoldable pub auth_matches : AuthMode → List AuthorizationTree → Bool
auth_matches (AuthMode.mock_exact expected) trees = holds (Trees-discrete expected trees)
auth_matches _ trees = true

unfoldable pub commits : ExecutionMode → InvokeOutcome → Bool
unfolding is_success
commits preview outcome = false
commits apply outcome = is_success outcome

unfoldable pub disposition_of : ExecutionMode → Bool → ReceiptDisposition
disposition_of preview commit = previewed
disposition_of apply true = committed
disposition_of apply false = rejected

-- The `matches!` on an address: is it a contract's?
unfoldable pub is_contract : ScAddress → Bool
is_contract (ScAddress.contract h) = true
is_contract _ = false

-- The `matches!` on a lookup: is an entry known to be there?
unfoldable pub is_present : Option LookupState → Bool
is_present (some (present entry live_until)) = true
is_present _ = false

-- `if !unknown.is_empty() { return Err(..) }`
unfoldable pub reject_unknown : List Bytes → Result StrictForkError (Unit {0})
reject_unknown [] = ok tt
reject_unknown (id ∷ ids) = err (unknown_ledger_keys (id ∷ ids))

module _ {Env : Type 0} (c : Codec) (h : Host Env) (supported : ℕ) where
  -- The fork that `from_captured` builds.
  unfoldable pub fresh_fork : ℕ → LedgerSnapshot → Coverage → StrictFork Env
  unfolding strict_env
  fresh_fork id snapshot coverage = record {
    id = id;
    env = (strict_env c h supported snapshot coverage [] [] false).0;
    network_protocol_version = snapshot.protocol_version;
    coverage = coverage;
    local_contracts = [];
    local_code_hashes = [];
    receipts = [];
  }

  -- `next_id` is the process-wide counter; `none` is the panic on an exhausted identifier space.
  unfoldable pub from_captured : ℕ → LedgerSnapshot → Coverage → ℕ × Option (StrictFork Env)
  from_captured next_id snapshot coverage = (
    (next_id + 1) % 2 ^ 64,
    if next_id == 0 then none else some (fresh_fork next_id snapshot coverage),
  )

  unfoldable pub ledger_snapshot : StrictFork Env → LedgerSnapshot
  unfolding network_ledger_snapshot
  ledger_snapshot f = network_ledger_snapshot h supported f.env f.network_protocol_version

  unfoldable pub ledger_digest : StrictFork Env → Result FixtureError Hash
  unfolding ledger_snapshot
  ledger_digest f = canonical_digest c (ledger_snapshot f)

  unfoldable pub checkpoint : StrictFork Env → StrictCheckpoint
  unfolding ledger_snapshot
  checkpoint f = record {
    fork_id = f.id;
    snapshot = ledger_snapshot f;
    coverage = f.coverage;
    local_contracts = f.local_contracts;
    local_code_hashes = f.local_code_hashes;
  }

  unfoldable pub revert :
      StrictFork Env → StrictCheckpoint → StrictFork Env × Result StrictForkError (Unit {0})
  unfolding strict_env
  revert f k =
      if k.fork_id == f.id
      then (
        record f {
          env =
              (strict_env c h supported k.snapshot k.coverage k.local_contracts k.local_code_hashes
                false).0;
          coverage = k.coverage;
          local_contracts = k.local_contracts;
          local_code_hashes = k.local_code_hashes;
          receipts = [];
        },
        ok tt,
      )
      else (f, err checkpoint_mismatch)
