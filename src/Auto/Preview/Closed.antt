-- ===== src/Auto/Preview/Closed.antt =====
-- What a preview of src/auto.rs reports, and what it has looked up.
use kanatoko.Prelude.{
  ℕ, ◌≡◌, inl, inr, refl, ◌∙◌, ap, subst, List, [], ◌∷◌, Option, none, some, Bool, true, false,
  Result, ok, err, Result-cases, guard, ok_or, map_err, >>=-eq-ok, arith, of_holds, Option-cases,
}
use kanatoko.Bytes.{Bytes}
use kanatoko.Strict.{previewed, Trees-discrete}
use kanatoko.Host.Calls.{
  network_ledger_snapshot, detached_snapshot_evidence, detached_diagnostics, invocation_values,
  address_value, args_values, invoke_outcome, invoke_once, classify, outcome_of, fork_env,
  ForkEnvSeed,
}
use kanatoko.Xdr.{Codec, ScAddress, ScVal, LedgerKey, LedgerSnapshot}
use kanatoko.Fixture.{canonical_digest}
use kanatoko.Ledger.{
  fixture, auth_tree_mismatch, invalid_invocation_xdr, state_diff, strip_new_mock_nonces,
}
use kanatoko.Host.{Host, AuthorizationTree, InvokeRequest}
use kanatoko.Capture.Rpc.{Transport}
use kanatoko.Protocol.{restore}
use kanatoko.Capture.Source.{TrackingSource}
use kanatoko.Auto.Preview.{
  PreviewAuth, exact, recorded, preview_auth_matches, InvocationReport, Called, observe_all,
  forward_stored, forward_preview_reads, call_preview, preview_child, report, forward_and_report,
  preview,
}
use kanatoko.Auto.Preview.Reads.{IsForwarded, forward_stored-IsForwarded}

map_err-ok : {E F A : Type 0} (f : E → F) (r : Result E A) (a : A) → map_err f r ≡ ok a → r ≡ ok a
map_err-ok f (ok b) a e = ground (arith, e)
map_err-ok f (err x) a e = cc

ok_or-some : {E A : Type 0} (o : Option A) (x : E) (a : A) → ok_or o x ≡ ok a → o ≡ some a
ok_or-some (some b) x a e = ground (arith, e)
ok_or-some none x a e = cc

ok-ok : {E A : Type 0} {a b : A} → ◌≡◌ {A = Result E A} (ok a) (ok b) → a ≡ b
ok-ok e = cc

guard-true : {E : Type 0} (b : Bool) (x : E) (z : Unit {0}) → guard b x ≡ ok z → b ≡ true
guard-true true x z e = refl
guard-true false x z e = cc

matches :
    (auth : PreviewAuth) (trees : List AuthorizationTree)
    → preview_auth_matches auth trees ≡ true
    → (expected : List AuthorizationTree) → auth ≡ exact expected
    → expected ≡ trees
unfolding preview_auth_matches
matches recorded trees m expected e = cc
matches (exact wanted) trees m expected e =
    let same = of_holds (Trees-discrete wanted trees) m in cc

module _ {Env World : Type 0} (c : Codec) (h : Host Env) (t : Transport World) (supported : ℕ)
    (resources : Env → Option Bytes) where
  -- A receipt of a call tells the digests of the ledger before and after it and what differs, and
  -- has the expected authorization.
  abbrev pub Reports : Called Env → ℕ → PreviewAuth → ℕ → InvocationReport → Type 0
  Reports call network auth reads r =
      (after : LedgerSnapshot) × (strip_new_mock_nonces c call.before
          (network_ledger_snapshot h supported call.child network)
        ≡ ok after)
      × (canonical_digest c after ≡ ok r.receipt.after_digest)
      × (state_diff c call.before after ≡ ok r.receipt.state_changes)
      × (r.receipt.request ≡ call.request)
      × (r.receipt.outcome ≡ call.outcome)
      × (r.receipt.before_digest ≡ call.before_digest)
      × (r.receipt.disposition ≡ previewed)
      × (r.receipt.upstream_reads ≡ reads)
      × ((expected : List AuthorizationTree)
          → auth ≡ exact expected
          → expected ≡ r.receipt.authorization)

  report-Reports :
      (network : ℕ) (auth : PreviewAuth) (call : Called Env) (reads : ℕ) (r : InvocationReport)
      → report c h t supported resources network auth call reads ≡ ok r
      → Reports call network auth reads r
  unfolding report canonical_digest
  report-Reports network auth call reads r e0 =
      let trees = (detached_snapshot_evidence h call.child).0 in
      let (z, guarded, e1) =
        >>=-eq-ok (guard (preview_auth_matches auth trees) auth_tree_mismatch) _ e0 in
      let (after, a, e2) =
        >>=-eq-ok
          (strip_new_mock_nonces c call.before
            (network_ledger_snapshot h supported call.child network))
          _ e1 in
      let (digest, b, e3) = >>=-eq-ok (map_err fixture (canonical_digest c after)) _ e2 in
      let (changes, d, e4) = >>=-eq-ok (state_diff c call.before after) _ e3 in
      let (diagnostics, f, e5) = >>=-eq-ok (detached_diagnostics h call.child) _ e4 in
      (
        after,
        a,
        map_err-ok fixture (canonical_digest c after) digest b ∙ ap ok (ground (arith, e5)),
        d ∙ ap ok (ground (arith, e5)),
        ground (arith, e5),
        ground (arith, e5),
        ground (arith, e5),
        ground (arith, e5),
        ground (arith, e5),
        λ expected p.
            matches auth trees
              (guard-true (preview_auth_matches auth trees) auth_tree_mismatch z guarded) expected p
            ∙ ground (arith, e5),
      )

  -- A preview of a scenario that has a source.
  abbrev pub IsPreviewed :
      TrackingSource
      → Called Env
      → ℕ
      → PreviewAuth
      → Option TrackingSource
      → InvocationReport
      → Type 0
  IsPreviewed s call network auth source r =
      (keys : List LedgerKey) × (s' : TrackingSource) × (reads : ℕ) × (source ≡ some s')
      × (h.stored_entries call.child ≡ some keys)
      × IsForwarded c t keys s s' reads
      × Reports call network auth reads r

  forward_and_report-IsPreviewed :
      (network : ℕ) (auth : PreviewAuth) (call : Called Env) (s : TrackingSource) (w w' : World)
      (source : Option TrackingSource) (r : InvocationReport)
      → forward_and_report c h t supported resources network auth call (some s) w
        ≡ (w', source, ok r)
      → IsPreviewed s call network auth source r
  unfolding forward_and_report forward_preview_reads
  forward_and_report-IsPreviewed network auth call s w w' source r e =
      elim (Option-cases (h.stored_entries call.child)) [
        | inl n ↦ absurd (ground (arith, e, n))
        | inr (keys, p) ↦
            let o = observe_all c t keys false s w in
            elim (Result-cases (forward_stored c t (some keys) s w).2) [
              | inr (x, q) ↦ absurd (ground (arith, e, p, q))
              | inl (reads, q) ↦ (
                keys,
                o.1,
                reads,
                ground (arith, e, p, q),
                p,
                forward_stored-IsForwarded c t keys s w reads q,
                report-Reports network auth call reads r (ground (arith, e, p, q)),
              )
            ]
      ]

  -- The environment of a preview: a new one, of the environment's snapshot at the network's protocol,
  -- in which every authorization is mocked.
  abbrev pub IsChild : Env → ℕ → Env → Type 0
  IsChild env network child =
      let s = h.to_snapshot env in
      child
      ≡ h.mock_all_auths (
          fork_env h supported (
            ForkEnvSeed.snapshot (record s {
              ledger = record s.ledger {
                protocol_version = restore supported s.ledger.protocol_version network;
              };
            })))

  -- Values and what they convert to in an environment.
  pub Converted : Env → List ScVal → List Bytes → Type 0
  Converted env [] [] = Unit {0}
  Converted env (v ∷ vs) (x ∷ xs) = (h.to_val env v ≡ some x) × Converted env vs xs
  Converted env _ _ = ⊥

  args_values-Converted :
      (env : Env) (vs : List ScVal) (xs : List Bytes)
      → args_values h env vs ≡ ok xs
      → Converted env vs xs
  unfolding args_values Converted
  args_values-Converted env [] xs e = subst (Converted env []) (ok-ok e) tt
  args_values-Converted env (v ∷ vs) xs e =
      let (x, a, e1) = >>=-eq-ok (ok_or (h.to_val env v) invalid_invocation_xdr) _ e in
      let (rest, b, e2) = >>=-eq-ok (args_values h env vs) _ e1 in
      subst (Converted env (v ∷ vs)) (ok-ok e2) (
        ok_or-some (h.to_val env v) invalid_invocation_xdr x a,
        args_values-Converted env vs rest b,
      )

  -- The call of a preview: the request is of the function and arguments asked for, the ledger before
  -- is the environment's at the network's protocol, whose digest it has; and the outcome and the
  -- environment are those of invoking, in the preview's environment, what the request's address,
  -- function and arguments convert to there.
  abbrev pub IsCall : Env → ℕ → ScAddress → Option Bytes → Option (List ScVal) → Called Env → Type 0
  IsCall env network address symbol values call =
      (symbol ≡ some call.request.function)
      × (values ≡ some call.request.args)
      × (call.request.contract ≡ address)
      × (call.before ≡ network_ledger_snapshot h supported env network)
      × (canonical_digest c call.before ≡ ok call.before_digest)
      × (child : Env) × IsChild env network child
      × (address' : Bytes) × (function : Bytes) × (args : List Bytes) × (h.to_address child address
          ≡ some address')
      × (h.to_symbol child call.request.function ≡ some function)
      × Converted child call.request.args args
      × (call.child ≡ (h.try_invoke_contract child address' function args).0)
      × (call.outcome
          ≡ outcome_of (classify (h.try_invoke_contract child address' function args).1))

  values-Converted :
      (child : Env) (request : InvokeRequest) (v : Bytes × Bytes × List Bytes)
      → invocation_values h child request ≡ ok v
      → (h.to_address child request.contract ≡ some v.0)
        × (h.to_symbol child request.function ≡ some v.1)
        × Converted child request.args v.2
  unfolding invocation_values address_value
  values-Converted child request v e =
      let (address, a, e1) = >>=-eq-ok (address_value h child request.contract) _ e in
      let (function, f, e2) =
        >>=-eq-ok (ok_or (h.to_symbol child request.function) invalid_invocation_xdr) _ e1 in
      let (args, g, e3) = >>=-eq-ok (args_values h child request.args) _ e2 in
      subst
        (λ v.
          (h.to_address child request.contract ≡ some v.0)
          × (h.to_symbol child request.function ≡ some v.1)
          × Converted child request.args v.2)
        (ok-ok e3)
        (
          ok_or-some (h.to_address child request.contract) invalid_invocation_xdr address a,
          ok_or-some (h.to_symbol child request.function) invalid_invocation_xdr function f,
          args_values-Converted child request.args args g,
        )

  call_preview-IsCall :
      (env : Env) (network : ℕ) (address : ScAddress) (symbol : Option Bytes)
      (values : Option (List ScVal)) (call : Called Env)
      → call_preview c h t supported resources env network address symbol values ≡ ok call
      → IsCall env network address symbol values call
  unfolding call_preview preview_child invoke_outcome invoke_once
  call_preview-IsCall env network address none values call e = cc
  call_preview-IsCall env network address (some function) none call e = cc
  call_preview-IsCall env network address (some function) (some args) call e0 =
      let before = network_ledger_snapshot h supported env network in
      let request : InvokeRequest = record {
        contract = address;
        function = function;
        args = args;
      } in
      let (digest, b, e1) = >>=-eq-ok (map_err fixture (canonical_digest c before)) _ e0 in
      let child = preview_child c h t supported resources env network in
      let (v, d, e2) = >>=-eq-ok (invocation_values h child request) _ e1 in
      let (a, f, g) = values-Converted child request v d in
      subst (IsCall env network address (some function) (some args)) (ok-ok e2) (
        refl,
        refl,
        refl,
        refl,
        map_err-ok fixture (canonical_digest c before) digest b,
        child,
        refl,
        v.0,
        v.1,
        v.2,
        a,
        f,
        g,
        refl,
        refl,
      )

  -- A preview that succeeds, of a scenario that has a source, invoked the function with the arguments
  -- asked for, as they convert there, in a new environment made of the scenario's snapshot at the
  -- network's protocol, with all authorizations mocked; the receipt tells the outcome, the digests of
  -- the ledger before the call and after it, less new mocked nonces, their difference, and the expected
  -- authorization, where one is expected. Every key that the new environment then stores, but nonces, is
  -- local to the source or has a cached state; the source has no unanswered key; and the reads counted
  -- are the source's.
  pub preview-IsPreviewed :
      (env : Env) (s : TrackingSource) (network : ℕ) (address : ScAddress) (symbol : Option Bytes)
      (values : Option (List ScVal)) (auth : PreviewAuth) (w w' : World)
      (source : Option TrackingSource) (r : InvocationReport)
      → preview c h t supported resources env (some s) network address symbol values auth w
        ≡ (w', source, ok r)
      → (call : Called Env) × IsCall env network address symbol values call
        × IsPreviewed s call network auth source r
  unfolding preview
  preview-IsPreviewed env s network address symbol values auth w w' source r e =
      elim (Result-cases
        (call_preview c h t supported resources env network address symbol values)) [
          | inr (x, q) ↦ absurd (ground (arith, e, q))
          | inl (call, q) ↦ (
            call,
            call_preview-IsCall env network address symbol values call q,
            forward_and_report-IsPreviewed network auth call s w w' source r (ground (arith, e, q)),
          )
        ]
