-- ===== src/Strict/Invoke/Effects.antt =====
-- What an invocation does to the fork on every branch.
use kanatoko.Prelude.{◌≡◌, inl, inr, ◌≢◌, [], ◌∷◌, ◌++◌, none, ℕ, ok, Result-cases, arith}
use kanatoko.Xdr.{Codec}
use kanatoko.Host.{Host, InvokeRequest}
use kanatoko.Host.Calls.{is_success}
use kanatoko.Strict.{
  AuthMode, ExecutionMode, Receipt, committed, StrictFork, commits, disposition_of,
}
use kanatoko.Strict.Invoke.{Attempt, attempt, promote, settle, invoke}

module _ {Env : Type 0} (c : Codec) (h : Host Env) (supported : ℕ) where
  -- What a receipt says of the fork `g` that it leaves behind `f`.
  pub record Settled (f g : StrictFork Env) (mode : ExecutionMode) (r : Receipt) : Type 0 where
    pub recorded : g.receipts ≡ f.receipts ++ r ∷ []
    pub id : g.id ≡ f.id
    pub network_protocol_version : g.network_protocol_version ≡ f.network_protocol_version
    pub local_contracts : g.local_contracts ≡ f.local_contracts
    pub local_code_hashes : g.local_code_hashes ≡ f.local_code_hashes
    pub disposition : r.disposition ≡ disposition_of mode (is_success r.outcome)
    pub unchanged : r.disposition ≢ committed → (g.coverage ≡ f.coverage) × (g.env ≡ f.env)

  -- The facts about the promotion in a successful attempt.
  record Outcome (f : StrictFork Env) (mode : ExecutionMode) (a : Attempt Env) : Type 0 where
    pub disposition : a.receipt.disposition ≡ disposition_of mode (is_success a.receipt.outcome)
    pub promoted : a.receipt.disposition ≢ committed → a.promoted ≡ none

  attempt-Outcome :
      (f : StrictFork Env) (request : InvokeRequest) (mode : ExecutionMode) (auth : AuthMode)
      (a : Attempt Env)
      → attempt c h supported f request mode auth ≡ ok a
      → Outcome f mode a
  unfolding attempt promote commits disposition_of
  attempt-Outcome f request mode auth a q = ground arith

  settle_lem :
      (f : StrictFork Env) (mode : ExecutionMode) (a : Attempt Env)
      → Outcome f mode a
      → Settled f (settle c h supported f a) mode a.receipt
  unfolding settle
  settle_lem f mode a o = ground (arith, o.promoted)

  -- A successful invocation appends its receipt, keeps the identity and the local sets, labels the
  -- receipt by the mode and the outcome, and changes coverage and environment only if it committed.
  pub invoke-Settled :
      (f : StrictFork Env) (request : InvokeRequest) (mode : ExecutionMode) (auth : AuthMode)
      (r : Receipt)
      → (invoke c h supported f request mode auth).1 ≡ ok r
      → Settled f (invoke c h supported f request mode auth).0 mode r
  unfolding invoke
  invoke-Settled f request mode auth r q =
      elim (Result-cases (attempt c h supported f request mode auth)) [
        | inl (a, g) ↦
            let same : a.receipt ≡ r = ground (arith, g) in
            rw (g, invoke)
              (rw (← same) (settle_lem f mode a (attempt-Outcome f request mode auth a g)))
        | inr (e, g) ↦ absurd (ground arith)
      ]
