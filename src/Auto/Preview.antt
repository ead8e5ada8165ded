-- ===== src/Auto/Preview.antt =====
-- `ScenarioFork::{try_invoke, preview}` and `InvocationReport` of src/auto.rs: an invocation of an
-- isolated copy of the scenario's environment, whose reads are forwarded to the scenario's source.
pub mod Reads
pub mod Closed
use kanatoko.Prelude.{
  ℕ, ◌-◌, List, [], ◌∷◌, Option, none, some, Bool, true, false, Result, ok, err, ◌>>=◌, ◌>>◌, guard,
  ok_or, map_err, holds, if◌then◌else◌,
}
use kanatoko.Bytes.{Bytes}
use kanatoko.Xdr.{Codec, ScAddress, ScVal, LedgerKey, LedgerSnapshot}
use kanatoko.Protocol.{executed_version, restore}
use kanatoko.Fixture.{canonical_digest}
use kanatoko.Ledger.{
  StrictForkError, invalid_invocation_xdr, host_inspection, auth_tree_mismatch, fixture, is_nonce,
  state_diff, strip_new_mock_nonces,
}
use kanatoko.Host.{
  Host, Answer, AuthorizationTree, Snapshot, InvokeRequest, InvokeErrorKind, InvocationFailure,
  InvokeOutcome,
}
use kanatoko.Host.Calls.{
  ForkEnvSeed, fork_env, network_ledger_snapshot, invocation_values, invoke_once, invoke_outcome,
  detached_snapshot_evidence, detached_diagnostics,
}
use kanatoko.Strict.{
  AppliedAuthMode, ReceiptDisposition, previewed, Receipt, Trees-discrete, reject_unknown,
}
use kanatoko.Capture.Rpc.{Transport}
use kanatoko.Capture.Source.{TrackingSource, get_tracking}

pub data PreviewAuth : Type 0 where
  recorded : PreviewAuth
  exact : List AuthorizationTree → PreviewAuth

-- The resources are the Host's, and are not looked into.
pub record InvocationReport : Type 0 where
  pub receipt : Receipt
  pub resources : Option Bytes
  pub network_protocol_version : ℕ

unfoldable pub report_executed_version : ℕ → InvocationReport → ℕ
unfolding executed_version
report_executed_version supported r = executed_version supported r.network_protocol_version

-- `InvocationReport::result`; `convert` is the SDK's conversion of a value to the type wanted.
unfoldable pub result :
    {R : Type 0} → (ScVal → Option R) → InvocationReport → Result InvocationFailure R
result convert r = elim r.receipt.outcome [
  | InvokeOutcome.success value ↦
      ok_or (convert value) (record { error = none; kind = InvokeErrorKind.result_conversion })
  | InvokeOutcome.failure error kind ↦ err (record { error = error; kind = kind })
]

unfoldable pub preview_auth_mode : PreviewAuth → AppliedAuthMode
preview_auth_mode recorded = AppliedAuthMode.record_mock_satisfied
preview_auth_mode (exact expected) = AppliedAuthMode.mock_exact

-- `expected.is_some_and(|expected| expected != authorization)`, negated.
unfoldable pub preview_auth_matches : PreviewAuth → List AuthorizationTree → Bool
unfolding Trees-discrete
preview_auth_matches recorded trees = true
preview_auth_matches (exact expected) trees = holds (Trees-discrete expected trees)

abbrev pub has_failed : Answer → Bool
has_failed none = true
has_failed (some found) = false

-- The request, the child environment after the call, and what the call gave.
pub record Called (Env : Type 0) : Type 0 where
  pub request : InvokeRequest
  pub before : LedgerSnapshot
  pub before_digest : Bytes
  pub child : Env
  pub outcome : InvokeOutcome

module _ {Env : Type 0} (h : Host Env) where
  -- `try_invoke`: the values are `none` where preparing them fails or panics.
  unfoldable pub try_invoke :
      Env → Bytes → Option (Bytes × List Bytes) → Env × Result InvocationFailure ScVal
  unfolding invoke_once
  try_invoke env contract none = (env, err (record { error = none; kind = InvokeErrorKind.abort }))
  try_invoke env contract (some (function, args)) = invoke_once h env contract function args

module _ {World : Type 0} (c : Codec) (t : Transport World) where
  -- The loop of `forward_preview_reads`, with whether an inspection has failed so far.
  unfoldable pub observe_all :
      List LedgerKey → Bool → TrackingSource → World → World × TrackingSource × Bool
  unfolding is_nonce get_tracking
  observe_all [] failed s w = (w, s, failed)
  observe_all (key ∷ keys) failed s w =
      let skipped = observe_all keys failed s w in
      let g = get_tracking c t s key w in
      let observed = observe_all keys (if has_failed g.2 then true else failed) g.1 g.0 in
      if is_nonce key then skipped else observed

  -- What follows the loop.
  unfoldable pub forwarded : ℕ → TrackingSource → Bool → Result StrictForkError ℕ
  unfolding reject_unknown
  forwarded reads_before s failed = do
    reject_unknown s.unknown
    guard (if failed then false else true) host_inspection
    ok (s.rpc_reads - reads_before)

  unfoldable pub forward_stored :
      Option (List LedgerKey)
      → TrackingSource
      → World
      → World × Option TrackingSource × Result StrictForkError ℕ
  unfolding observe_all forwarded
  forward_stored none s w = (w, some s, err host_inspection)
  forward_stored (some keys) s w =
      let o = observe_all keys false s w in (o.0, some o.1, forwarded s.rpc_reads o.1 o.2)

  unfoldable pub forward_preview_reads :
      Option (List LedgerKey)
      → Option TrackingSource
      → World
      → World × Option TrackingSource × Result StrictForkError ℕ
  unfolding forward_stored
  forward_preview_reads stored none w = (w, none, ok 0)
  forward_preview_reads stored (some s) w = forward_stored stored s w

module _ {Env World : Type 0} (c : Codec) (h : Host Env) (t : Transport World) (supported : ℕ)
    (resources : Env → Option Bytes) where
  -- The child environment: a copy of the scenario's, at the network's protocol.
  unfoldable pub preview_child : Env → ℕ → Env
  unfolding restore fork_env
  preview_child env network =
      let s = h.to_snapshot env in
      let seed = ForkEnvSeed.snapshot (record s {
        ledger = record s.ledger {
          protocol_version = restore supported s.ledger.protocol_version network;
        };
      }) in
      h.mock_all_auths (fork_env h supported seed)

  -- From the request to the call. The function's name and the arguments are `none` where they do
  -- not convert.
  unfoldable pub call_preview :
      Env → ℕ → ScAddress → Option Bytes → Option (List ScVal) → Result StrictForkError (Called Env)
  unfolding network_ledger_snapshot canonical_digest preview_child invocation_values invoke_outcome
  call_preview env network address symbol values = do
    function ← ok_or symbol invalid_invocation_xdr
    args ← ok_or values invalid_invocation_xdr
    let request : InvokeRequest = record { contract = address; function = function; args = args }
    let before = network_ledger_snapshot h supported env network
    before_digest ← map_err fixture (canonical_digest c before)
    let child = preview_child env network
    call ← invocation_values h child request
    let called = invoke_outcome h child call.0 call.1 call.2
    ok (record {
      request = request;
      before = before;
      before_digest = before_digest;
      child = called.0;
      outcome = called.1;
    })

  -- What follows the forwarded reads.
  unfoldable pub report : ℕ → PreviewAuth → Called Env → ℕ → Result StrictForkError InvocationReport
  unfolding detached_snapshot_evidence preview_auth_mode preview_auth_matches
      network_ledger_snapshot strip_new_mock_nonces canonical_digest state_diff detached_diagnostics
  report network auth call upstream_reads = do
    let evidence = detached_snapshot_evidence h call.child
    guard (preview_auth_matches auth evidence.0) auth_tree_mismatch
    after ←
        strip_new_mock_nonces c call.before (network_ledger_snapshot h supported call.child network)
    after_digest ← map_err fixture (canonical_digest c after)
    changes ← state_diff c call.before after
    diagnostics ← detached_diagnostics h call.child
    ok (record {
      receipt = record {
        request = call.request;
        outcome = call.outcome;
        auth_mode = preview_auth_mode auth;
        authorization = evidence.0;
        events = evidence.1;
        diagnostics = diagnostics;
        state_changes = changes;
        before_digest = call.before_digest;
        after_digest = after_digest;
        disposition = previewed;
        upstream_reads = upstream_reads;
      };
      resources = resources call.child;
      network_protocol_version = network;
    })

  unfoldable pub forward_and_report :
      ℕ
      → PreviewAuth
      → Called Env
      → Option TrackingSource
      → World
      → World × Option TrackingSource × Result StrictForkError InvocationReport
  unfolding forward_preview_reads report
  forward_and_report network auth call source w =
      let f = forward_preview_reads c t (h.stored_entries call.child) source w in
      (f.0, f.1, (f.2 >>= λ upstream_reads. report network auth call upstream_reads))

  unfoldable pub preview :
      Env
      → Option TrackingSource
      → ℕ
      → ScAddress
      → Option Bytes
      → Option (List ScVal)
      → PreviewAuth
      → World
      → World × Option TrackingSource × Result StrictForkError InvocationReport
  unfolding call_preview forward_and_report
  preview env source network address symbol values auth w =
      elim (call_preview env network address symbol values) [
        | err e ↦ (w, source, err e)
        | ok call ↦ forward_and_report network auth call source w
      ]
