-- ===== src/Host/Calls.antt =====
-- The code that is a thin layer over the environment: `fork_env`, `network_ledger_snapshot` and
-- `configure_fork_env` of src/runtime.rs, `invoke_once` and the functions that detach evidence in
-- src/strict.rs.
use kanatoko.Prelude.{
  ℕ, ◌-◌, ◌^◌, List, [], ◌∷◌, Option, none, some, Bool, true, false, Result, ok, err, ◌>>=◌, ok_or,
  if◌then◌else◌,
}
use mathlib.Core.List.{get_last?}
use kanatoko.Bytes.{Bytes}
use kanatoko.Xdr.{ScAddress, ScVal, LedgerSnapshot}
use kanatoko.Protocol.{executed_version, restore}
use kanatoko.Ledger.{StrictForkError, invalid_invocation_xdr, host_inspection}
use kanatoko.Host.{
  AuthorizationTree, DetachedEvent, HostEvent, LedgerInfo, SourceInput, Snapshot, ScError,
  CallResult, Host, InvokeRequest, InvokeErrorKind, InvocationFailure, InvokeOutcome,
}

unfoldable pub is_success : InvokeOutcome → Bool
is_success (InvokeOutcome.success v) = true
is_success (InvokeOutcome.failure e k) = false

-- The match of `invoke_once`.
unfoldable pub classify : CallResult → Result InvocationFailure ScVal
classify CallResult.unwound = err (record { error = none; kind = InvokeErrorKind.abort })
classify CallResult.invoke_abort = err (record { error = none; kind = InvokeErrorKind.abort })
classify (CallResult.returned value) = ok value
classify CallResult.not_converted =
    err (record { error = none; kind = InvokeErrorKind.result_conversion })
classify (CallResult.failed e) = err (record {
  error = e.sc_error;
  kind = if e.is_contract then InvokeErrorKind.contract e.code else InvokeErrorKind.abort;
})
classify (CallResult.invoke_contract code) =
    err (record { error = some (ScError.contract code); kind = InvokeErrorKind.contract code })

unfoldable pub outcome_of : Result InvocationFailure ScVal → InvokeOutcome
outcome_of (ok value) = InvokeOutcome.success value
outcome_of (err f) = InvokeOutcome.failure f.error f.kind

abbrev pub u64_max : ℕ
u64_max = 2 ^ 64 - 1

-- `ForkEnvSeed`
pub data ForkEnvSeed : Type 0 where
  ledger : SourceInput → ForkEnvSeed
  snapshot : Snapshot → ForkEnvSeed

abbrev lower_info : ℕ → Option LedgerInfo → Option LedgerInfo
lower_info supported none = none
lower_info supported (some info) =
    some (record info { protocol_version = executed_version supported info.protocol_version })

abbrev last_auth : Option (List AuthorizationTree) → List AuthorizationTree
last_auth none = []
last_auth (some trees) = trees

unfoldable pub keep_diagnostic : List HostEvent → List DetachedEvent
keep_diagnostic [] = []
keep_diagnostic (e ∷ es) =
    if e.is_diagnostic
    then record { event = e.event; failed_call = e.failed_call } ∷ keep_diagnostic es
    else keep_diagnostic es

module _ {Env : Type 0} (h : Host Env) where
  unfoldable pub configure_fork_env : Env → Env
  configure_fork_env env =
      h.set_shadow_budget_limits u64_max u64_max (h.set_capture_snapshot_at_drop false env)

  seed_env : ℕ → ForkEnvSeed → Env
  unfolding executed_version
  seed_env supported (ForkEnvSeed.ledger input) =
      h.from_ledger_snapshot (record input { ledger_info = lower_info supported input.ledger_info })
  seed_env supported (ForkEnvSeed.snapshot s) = h.from_snapshot (record s {
    ledger = record s.ledger {
      protocol_version = executed_version supported s.ledger.protocol_version;
    };
  })

  unfoldable pub fork_env : ℕ → ForkEnvSeed → Env
  unfolding seed_env configure_fork_env
  fork_env supported seed = configure_fork_env (seed_env supported seed)

  unfoldable pub network_ledger_snapshot : ℕ → Env → ℕ → LedgerSnapshot
  unfolding restore
  network_ledger_snapshot supported env network =
      let s = h.to_ledger_snapshot env in
      record s { protocol_version = restore supported s.protocol_version network }

  convert_args : Env → List ScVal → Result StrictForkError (List Bytes)
  convert_args env [] = ok []
  convert_args env (v ∷ vs) = do
    x ← ok_or (h.to_val env v) invalid_invocation_xdr
    xs ← convert_args env vs
    ok (x ∷ xs)

  -- `map(try_from_val).collect::<Result<Vec<_>, _>>()`
  unfoldable pub args_values : Env → List ScVal → Result StrictForkError (List Bytes)
  unfolding convert_args
  args_values env args = convert_args env args

  unfoldable pub address_value : Env → ScAddress → Result StrictForkError Bytes
  address_value env a = ok_or (h.to_address env a) invalid_invocation_xdr

  unfoldable pub invocation_values :
      Env → InvokeRequest → Result StrictForkError (Bytes × Bytes × List Bytes)
  unfolding args_values address_value
  invocation_values env request = do
    address ← address_value env request.contract
    function ← ok_or (h.to_symbol env request.function) invalid_invocation_xdr
    args ← args_values env request.args
    ok (address, function, args)

  unfoldable pub invoke_once :
      Env → Bytes → Bytes → List Bytes → Env × Result InvocationFailure ScVal
  unfolding classify
  invoke_once env address function args =
      let (env', call) = h.try_invoke_contract env address function args in (env', classify call)

  unfoldable pub invoke_outcome : Env → Bytes → Bytes → List Bytes → Env × InvokeOutcome
  unfolding invoke_once outcome_of
  invoke_outcome env address function args =
      let (env', r) = invoke_once env address function args in (env', outcome_of r)

  unfoldable pub detached_snapshot_evidence : Env → List AuthorizationTree × List DetachedEvent
  detached_snapshot_evidence env =
      let s = h.to_snapshot env in (last_auth (get_last? s.auth), s.events)

  unfoldable pub detached_diagnostics : Env → Result StrictForkError (List DetachedEvent)
  unfolding keep_diagnostic
  detached_diagnostics env = do
    events ← ok_or (h.diagnostic_events env) host_inspection
    ok (keep_diagnostic events)
