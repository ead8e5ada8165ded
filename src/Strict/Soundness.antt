-- ===== src/Strict/Soundness.antt =====
-- The coverage of a fork always tells what the fork's own ledger holds.
use kanatoko.Prelude.{
  ◌≡◌, sym, ◌∙◌, ap, subst, ◌⊎◌, inl, inr, List, Option, none, some, Bool, false, ℕ, ok, ◌==◌,
  Result-cases, arith, Bool-cases,
}
use kanatoko.Bytes.{Bytes}
use kanatoko.Xdr.{Codec, Hash, ScAddress, ScVal, LedgerSnapshot}
use kanatoko.Ledger.{Coverage, StateChange, snapshot_map, state_diff, update_coverage}
use kanatoko.Ledger.Diff.{LedgerMap, Covers}
use kanatoko.Ledger.Promote.{state_diff-update_coverage}
use kanatoko.Host.{Host, InvokeRequest}
use kanatoko.Host.Calls.{network_ledger_snapshot}
use kanatoko.Strict.{
  AuthMode, ExecutionMode, StrictFork, ledger_snapshot, commits, checkpoint, revert,
}
use kanatoko.Strict.Source.{strict_env}
use kanatoko.Strict.Reopen.{ReopensSnapshots}
use kanatoko.Strict.Invoke.{Attempt, attempt, promote, settle, invoke}
use kanatoko.Strict.Invoke.Stages.{attempt-Stages}
use kanatoko.Strict.Candidate.{Prepared, prepare, install, register_candidate}
use kanatoko.Strict.Candidate.Atomic.{prepare-Facts, install_ok}

module _ {Env : Type 0} (c : Codec) (h : Host Env) (supported : ℕ) where
  -- Every entry of the fork's ledger is covered as it is, and nothing else is covered as present.
  abbrev pub IsSound : StrictFork Env → Type 0
  IsSound f =
      (m : LedgerMap) × (snapshot_map c (ledger_snapshot c h supported f) ≡ ok m)
      × Covers f.coverage m

  pub same_entries :
      (s t : LedgerSnapshot)
      → s.ledger_entries ≡ t.ledger_entries
      → snapshot_map c s ≡ snapshot_map c t
  unfolding snapshot_map
  same_entries s t e = ground arith

  pub reopened_entries :
      ReopensSnapshots c h supported
      → (s : LedgerSnapshot) (coverage : Coverage) (contracts : List ScAddress) (hashes : List Hash)
        (mocks : Bool) (network : ℕ)
      → (network_ledger_snapshot h supported
          (strict_env c h supported s coverage contracts hashes mocks).0
          network).ledger_entries
        ≡ s.ledger_entries
  unfolding network_ledger_snapshot strict_env
  reopened_entries law s coverage contracts hashes mocks network =
      ap (λ t. t.ledger_entries) (law.reopened s _)

  diff_maps :
      (before after : LedgerSnapshot) (changes : List StateChange)
      → state_diff c before after ≡ ok changes
      → (a : LedgerMap) × (snapshot_map c after ≡ ok a)
  unfolding state_diff
  diff_maps before after changes e = ground arith

  -- Coverage after the changes between two snapshots, whatever the update returned.
  promoted_Covers :
      (before after : LedgerSnapshot) (changes : List StateChange) (from : Coverage) (b : LedgerMap)
      → state_diff c before after ≡ ok changes
      → snapshot_map c before ≡ ok b
      → Covers from b
      → (a : LedgerMap) × (snapshot_map c after ≡ ok a)
        × Covers (update_coverage c from changes).0 a
  promoted_Covers before after changes from b d p v =
      let (a, q) = diff_maps before after changes d in
      let (changes', d', to, u, r) = state_diff-update_coverage c before after b a from p q v in
      let same : changes' ≡ changes = cc (d, d') in
      let first : (update_coverage c from changes).0 ≡ to =
        ap (λ x. x.0) (subst (λ x. update_coverage c from x ≡ (to, ok tt)) same u) in
      (a, q, subst (λ x. Covers x a) (sym first) r.covers)

  promote_cases :
      (commit : Bool) (f : StrictFork Env) (after : LedgerSnapshot) (changes : List StateChange)
      (o : Option (Coverage × Env))
      → promote c h supported commit f after changes ≡ ok o
      → (o ≡ none)
        ⊎ (o
            ≡ some (
              (update_coverage c f.coverage changes).0,
              (strict_env c h supported after
                  (update_coverage c f.coverage changes).0
                  f.local_contracts
                  f.local_code_hashes
                  false).0,
            ))
  unfolding promote
  promote_cases commit f after changes o e = ground arith

  settle-IsSound :
      ReopensSnapshots c h supported
      → (f : StrictFork Env) (a : Attempt Env) (after : LedgerSnapshot)
      → state_diff c (ledger_snapshot c h supported f) after ≡ ok a.receipt.state_changes
      → (a.promoted ≡ none)
        ⊎ (a.promoted
            ≡ some (
              (update_coverage c f.coverage a.receipt.state_changes).0,
              (strict_env c h supported after
                  (update_coverage c f.coverage a.receipt.state_changes).0
                  f.local_contracts
                  f.local_code_hashes
                  false).0,
            ))
      → IsSound f
      → IsSound (settle c h supported f a)
  unfolding settle ledger_snapshot
  settle-IsSound law f a after d (inl e) (b, p, v) = rw (e, settle) (b, p, v)
  settle-IsSound law f a after d (inr e) (b, p, v) =
      let (m, q, w) =
        promoted_Covers (ledger_snapshot c h supported f) after a.receipt.state_changes f.coverage b
          d p v in
      rw (e, settle)
        (
          m,
          same_entries _ after (
                reopened_entries law after (update_coverage c f.coverage a.receipt.state_changes).0
                  f.local_contracts f.local_code_hashes false f.network_protocol_version)
              ∙ q,
          w,
        )

  -- An invocation of a sound fork leaves a sound fork, whether it fails, previews or commits.
  pub invoke-IsSound :
      ReopensSnapshots c h supported
      → (f : StrictFork Env) (request : InvokeRequest) (mode : ExecutionMode) (auth : AuthMode)
      → IsSound f
      → IsSound (invoke c h supported f request mode auth).0
  unfolding invoke
  invoke-IsSound law f request mode auth s =
      elim (Result-cases (attempt c h supported f request mode auth)) [
        | inr (e, g) ↦ rw (g, invoke) s
        | inl (a, g) ↦
            let (run, after, t) = attempt-Stages c h supported f request mode auth a g in
            rw (g, invoke)
              (settle-IsSound law f a after t.changes
                (promote_cases (commits mode run.outcome) f after a.receipt.state_changes a.promoted
                  t.promoted)
                s)
      ]

  install-IsSound :
      (f : StrictFork Env) (p : Prepared Env)
      → state_diff c
          (ledger_snapshot c h supported f)
          (network_ledger_snapshot h supported p.child f.network_protocol_version)
        ≡ ok p.registration.state_changes
      → (install c h supported f p).1 ≡ ok p.registration
      → IsSound f
      → IsSound (install c h supported f p).0
  unfolding install ledger_snapshot
  install-IsSound f p d done (b, q, v) =
      let (m, q', w) =
        promoted_Covers (ledger_snapshot c h supported f)
          (network_ledger_snapshot h supported p.child f.network_protocol_version)
          p.registration.state_changes f.coverage b d q v in
      elim (Result-cases (update_coverage c f.coverage p.registration.state_changes).1) [
        | inl (u, e) ↦ rw (e, install) (m, q', w)
        | inr (x, e) ↦ absurd (ground arith)
      ]

  -- So does a candidate's registration.
  pub register_candidate-IsSound :
      (f : StrictFork Env) (address : ScAddress) (wasm : Bytes) (expected : Hash)
      (args : List ScVal)
      → IsSound f
      → IsSound (register_candidate c h supported f address wasm expected args).0
  unfolding register_candidate
  register_candidate-IsSound f address wasm expected args s =
      elim (Result-cases (prepare c h supported f address wasm expected args)) [
        | inr (x, g) ↦ rw (g, register_candidate) s
        | inl (p, g) ↦
            let d = (prepare-Facts c h supported f address wasm expected args p g).changes in
            rw (g, register_candidate) (install-IsSound f p d (install_ok c h supported f p d) s)
      ]

  -- Reverting a fork to a checkpoint taken of a sound fork gives a sound fork.
  pub revert-IsSound :
      ReopensSnapshots c h supported
      → (f g : StrictFork Env) → IsSound f
      → IsSound g
      → IsSound (revert c h supported f (checkpoint c h supported g)).0
  unfolding revert checkpoint ledger_snapshot
  revert-IsSound law f g s (b, p, v) = elim (Bool-cases (g.id == f.id)) [
    | inr e ↦ rw (e, revert) s
    | inl e ↦
        rw (e, revert)
          (
            b,
            same_entries _ (ledger_snapshot c h supported g) (
                  reopened_entries law (ledger_snapshot c h supported g) g.coverage
                    g.local_contracts g.local_code_hashes false f.network_protocol_version)
                ∙ p,
            v,
          )
  ]
