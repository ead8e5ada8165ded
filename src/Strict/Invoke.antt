-- ===== src/Strict/Invoke.antt =====
-- `StrictFork::invoke` of src/strict.rs.
pub mod Effects
pub mod Gate
pub mod Stages
use kanatoko.Prelude.{
  List, [], ◌∷◌, ◌++◌, Option, none, some, Bool, true, false, ℕ, Result, ok, err, ◌>>=◌, ◌>>◌,
  guard, ok_or, map_err, if◌then◌else◌,
}
use kanatoko.Bytes.{Bytes}
use kanatoko.Xdr.{Codec, LedgerSnapshot}
use kanatoko.Fixture.{canonical_digest}
use kanatoko.Ledger.{
  StrictForkError, auth_tree_mismatch, invalid_authorization_entries, fixture, Coverage,
  StateChange, state_diff, update_coverage, strip_new_mock_nonces,
}
use kanatoko.Host.{Host, InvokeRequest, InvokeOutcome}
use kanatoko.Host.Calls.{
  network_ledger_snapshot, invocation_values, invoke_outcome, detached_snapshot_evidence,
  detached_diagnostics,
}
use kanatoko.Strict.{
  AuthMode, recording, ExecutionMode, Receipt, StrictFork, allow_mock_nonces, applied_auth,
  auth_matches, commits, disposition_of, reject_unknown, ledger_snapshot,
}
use kanatoko.Strict.Source.{StrictSource, strict_env, unknown_keys}

-- What an invocation leaves behind if no step of it fails: the isolated child, and its outcome.
pub record Run (Env : Type 0) : Type 0 where
  pub child : Env
  pub source : StrictSource
  pub outcome : InvokeOutcome

pub record Attempt (Env : Type 0) : Type 0 where
  pub receipt : Receipt
  pub promoted : Option (Coverage × Env)

module _ {Env : Type 0} (c : Codec) (h : Host Env) (supported : ℕ) where
  -- The match on the authorization mode, as it changes the child.
  unfoldable pub authorize : AuthMode → Env → Result StrictForkError Env
  authorize recording child = ok (h.mock_all_auths child)
  authorize (AuthMode.mock_exact trees) child = ok (h.mock_all_auths child)
  authorize (AuthMode.enforce entries) child =
      ok_or (h.set_authorization_entries entries child) invalid_authorization_entries

  -- From the child's creation to the call.
  unfoldable pub run_child :
      StrictFork Env → InvokeRequest → AuthMode → Result StrictForkError (Run Env)
  run_child f request auth = do
    let fresh =
        strict_env c h supported (ledger_snapshot c h supported f) f.coverage f.local_contracts
          f.local_code_hashes (allow_mock_nonces auth)
    values ← invocation_values h fresh.0 request
    child ← authorize auth fresh.0
    let called = invoke_outcome h child values.0 values.1 values.2
    ok (record { child = called.0; source = fresh.1; outcome = called.1 })

  -- `if allow_mock_nonces { strip_new_mock_nonces(&before, &mut after)?; }`
  unfoldable pub strip_if :
      Bool → LedgerSnapshot → LedgerSnapshot → Result StrictForkError LedgerSnapshot
  unfolding strip_new_mock_nonces
  strip_if mocks before after = if mocks then strip_new_mock_nonces c before after else ok after

  -- The block under `if commit`, up to its assignments to the fork.
  unfoldable pub promote :
      Bool
      → StrictFork Env
      → LedgerSnapshot
      → List StateChange
      → Result StrictForkError (Option (Coverage × Env))
  unfolding update_coverage strict_env
  promote commit f after changes =
      if commit
      then (let updated = update_coverage c f.coverage changes in
          (updated.1 >>= λ _. ok (
            some (
              updated.0,
              (strict_env c h supported after updated.0 f.local_contracts f.local_code_hashes
                  false).0,
            ))))
      else ok none

  -- The whole of `invoke` before it assigns to the fork.
  unfoldable pub attempt :
      StrictFork Env
      → InvokeRequest
      → ExecutionMode
      → AuthMode
      → Result StrictForkError (Attempt Env)
  attempt f request mode auth = do
    let before = ledger_snapshot c h supported f
    before_digest ← map_err fixture (canonical_digest c before)
    run ← run_child f request auth
    unknown ← unknown_keys c h supported run.child run.source
    reject_unknown unknown
    let evidence = detached_snapshot_evidence h run.child
    guard (auth_matches auth evidence.0) auth_tree_mismatch
    after ←
        strip_if (allow_mock_nonces auth) before
          (network_ledger_snapshot h supported run.child f.network_protocol_version)
    after_digest ← map_err fixture (canonical_digest c after)
    changes ← state_diff c before after
    diagnostics ← detached_diagnostics h run.child
    let commit = commits mode run.outcome
    promoted ← promote commit f after changes
    ok (record {
      receipt = record {
        request = request;
        outcome = run.outcome;
        auth_mode = applied_auth auth;
        authorization = evidence.0;
        events = evidence.1;
        diagnostics = diagnostics;
        state_changes = changes;
        before_digest = before_digest;
        after_digest = after_digest;
        disposition = disposition_of mode commit;
        upstream_reads = 0;
      };
      promoted = promoted;
    })

  -- The assignments: the promoted state if there is one, and the receipt.
  unfoldable pub settle : StrictFork Env → Attempt Env → StrictFork Env
  settle f a = elim a.promoted [
    | none ↦ record f { receipts = f.receipts ++ a.receipt ∷ [] }
    | some (coverage, env) ↦ record f {
      env = env;
      coverage = coverage;
      receipts = f.receipts ++ a.receipt ∷ [];
    }
  ]

  unfoldable pub invoke :
      StrictFork Env
      → InvokeRequest
      → ExecutionMode
      → AuthMode
      → StrictFork Env × Result StrictForkError Receipt
  invoke f request mode auth = elim (attempt f request mode auth) [
    | ok a ↦ (settle f a, ok a.receipt)
    | err e ↦ (f, err e)
  ]
