-- ===== src/Strict/Invoke/Stages.antt =====
-- The intermediate results that a successful invocation has gone through.
use kanatoko.Prelude.{◌≡◌, [], true, ℕ, ok, err, arith, Result-cases, inl, inr}
use kanatoko.Xdr.{Codec, LedgerSnapshot}
use kanatoko.Fixture.{canonical_digest}
use kanatoko.Ledger.{StrictForkError, state_diff}
use kanatoko.Host.{Host, InvokeRequest}
use kanatoko.Host.Calls.{network_ledger_snapshot, detached_snapshot_evidence}
use kanatoko.Strict.{
  AuthMode, ExecutionMode, StrictFork, reject_unknown, ledger_snapshot, auth_matches, commits,
  allow_mock_nonces, disposition_of,
}
use kanatoko.Strict.Source.{unknown_keys}
use kanatoko.Strict.Invoke.{Run, Attempt, run_child, attempt, promote, strip_if}

module _ {Env : Type 0} (c : Codec) (h : Host Env) (supported : ℕ) where
  pub record Stages (f : StrictFork Env) (request : InvokeRequest) (mode : ExecutionMode)
      (auth : AuthMode) (a : Attempt Env) (run : Run Env) (after : LedgerSnapshot) : Type 0 where
    pub ran : run_child c h supported f request auth ≡ ok run
    pub closed : unknown_keys c h supported run.child run.source ≡ ok []
    pub matches : auth_matches auth (detached_snapshot_evidence h run.child).0 ≡ true
    pub stripped :
        strip_if c h supported
          (allow_mock_nonces auth)
          (ledger_snapshot c h supported f)
          (network_ledger_snapshot h supported run.child f.network_protocol_version)
        ≡ ok after
    pub changes : state_diff c (ledger_snapshot c h supported f) after ≡ ok a.receipt.state_changes
    pub promoted :
        promote c h supported (commits mode run.outcome) f after a.receipt.state_changes
        ≡ ok a.promoted
    pub outcome : a.receipt.outcome ≡ run.outcome
    pub disposition : a.receipt.disposition ≡ disposition_of mode (commits mode run.outcome)
    pub before_digest :
        canonical_digest c (ledger_snapshot c h supported f) ≡ ok a.receipt.before_digest
    pub after_digest : canonical_digest c after ≡ ok a.receipt.after_digest

  no_run :
      (f : StrictFork Env) (request : InvokeRequest) (mode : ExecutionMode) (auth : AuthMode)
      (a : Attempt Env) (x : StrictForkError)
      → run_child c h supported f request auth ≡ err x
      → ¬ (attempt c h supported f request mode auth ≡ ok a)
  unfolding attempt
  no_run f request mode auth a x p e = ground arith

  no_strip :
      (f : StrictFork Env) (request : InvokeRequest) (mode : ExecutionMode) (auth : AuthMode)
      (a : Attempt Env) (run : Run Env) (x : StrictForkError)
      → run_child c h supported f request auth ≡ ok run
      → strip_if c h supported
          (allow_mock_nonces auth)
          (ledger_snapshot c h supported f)
          (network_ledger_snapshot h supported run.child f.network_protocol_version)
        ≡ err x
      → ¬ (attempt c h supported f request mode auth ≡ ok a)
  unfolding attempt
  no_strip f request mode auth a run x p q e = ground arith

  Stages-at :
      (f : StrictFork Env) (request : InvokeRequest) (mode : ExecutionMode) (auth : AuthMode)
      (a : Attempt Env) (run : Run Env) (after : LedgerSnapshot)
      → run_child c h supported f request auth ≡ ok run
      → strip_if c h supported
          (allow_mock_nonces auth)
          (ledger_snapshot c h supported f)
          (network_ledger_snapshot h supported run.child f.network_protocol_version)
        ≡ ok after
      → attempt c h supported f request mode auth ≡ ok a
      → Stages f request mode auth a run after
  unfolding attempt reject_unknown
  Stages-at f request mode auth a run after p q e = ground arith

  pub attempt-Stages :
      (f : StrictFork Env) (request : InvokeRequest) (mode : ExecutionMode) (auth : AuthMode)
      (a : Attempt Env)
      → attempt c h supported f request mode auth ≡ ok a
      → (run : Run Env) × (after : LedgerSnapshot) × Stages f request mode auth a run after
  attempt-Stages f request mode auth a e =
      elim (Result-cases (run_child c h supported f request auth)) [
        | inr (x, p) ↦ absurd (no_run f request mode auth a x p e)
        | inl (run, p) ↦
            elim (Result-cases (
              strip_if c h supported (allow_mock_nonces auth) (ledger_snapshot c h supported f)
                (network_ledger_snapshot h supported run.child f.network_protocol_version))) [
                  | inr (x, q) ↦ absurd (no_strip f request mode auth a run x p q e)
                  | inl (after, q) ↦ (run, after, Stages-at f request mode auth a run after p q e)
                ]
      ]
