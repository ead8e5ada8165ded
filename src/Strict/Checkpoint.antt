-- ===== src/Strict/Checkpoint.antt =====
-- Taking a checkpoint and reverting to it.
use kanatoko.Prelude.{
  false, ◌≡◌, refl, sym, ◌∙◌, subst, ◌≢◌, List, [], ℕ, ok, err, arith, ◌==◌, Bool-cases, inl, inr,
}
use kanatoko.Xdr.{Codec, Hash, ScAddress, LedgerSnapshot}
use kanatoko.Protocol.{executed_version, restore}
use kanatoko.Protocol.Window.{restore-executed}
use kanatoko.Ledger.{Coverage, checkpoint_mismatch}
use kanatoko.Host.{Host}
use kanatoko.Host.Calls.{network_ledger_snapshot}
use kanatoko.Strict.{StrictFork, StrictCheckpoint, ledger_snapshot, checkpoint, revert}
use kanatoko.Strict.Source.{strict_env}
use kanatoko.Strict.Reopen.{ReopensSnapshots}

module _ {Env : Type 0} (c : Codec) (h : Host Env) (supported : ℕ) where
  -- A checkpoint of another fork is refused, and changes nothing.
  pub revert_mismatch :
      (f : StrictFork Env) (k : StrictCheckpoint)
      → k.fork_id ≢ f.id
      → revert c h supported f k ≡ (f, err checkpoint_mismatch)
  unfolding revert
  revert_mismatch f k n = ground arith

  -- A fresh strict environment over a snapshot of the network's protocol shows that snapshot.
  pub reopened_snapshot :
      ReopensSnapshots c h supported
      → (s : LedgerSnapshot) (coverage : Coverage) (contracts : List ScAddress) (hashes : List Hash)
        (network : ℕ)
      → s.protocol_version ≡ network
      → network_ledger_snapshot h supported
          (strict_env c h supported s coverage contracts hashes false).0
          network
        ≡ s
  unfolding network_ledger_snapshot strict_env
  reopened_snapshot law s coverage contracts hashes network e = rw (law.reopened s _) (λ i.
      record s {
        protocol_version =
            (subst (λ n. restore supported (executed_version supported n) network ≡ n) (sym e)
                (restore-executed supported network))
              i;
      })

  -- What a fork is once it was reverted to a checkpoint of `g`.
  pub record Restored (g f : StrictFork Env) : Type 0 where
    pub ledger : ledger_snapshot c h supported f ≡ ledger_snapshot c h supported g
    pub coverage : f.coverage ≡ g.coverage
    pub local_contracts : f.local_contracts ≡ g.local_contracts
    pub local_code_hashes : f.local_code_hashes ≡ g.local_code_hashes
    pub receipts : f.receipts ≡ []
    pub id : f.id ≡ g.id

  revert_ok :
      (f g : StrictFork Env)
      → g.id ≡ f.id
      → (revert c h supported f (checkpoint c h supported g)).1 ≡ ok tt
  unfolding revert checkpoint
  revert_ok f g e = ground arith

  restored_lem :
      ReopensSnapshots c h supported
      → (f g : StrictFork Env) → g.id ≡ f.id
      → f.network_protocol_version ≡ g.network_protocol_version
      → (ledger_snapshot c h supported g).protocol_version ≡ g.network_protocol_version
      → (revert c h supported f (checkpoint c h supported g)).1 ≡ ok tt
      → Restored g (revert c h supported f (checkpoint c h supported g)).0
  unfolding revert checkpoint ledger_snapshot
  restored_lem law f g same n p done = elim (Bool-cases (g.id == f.id)) [
    | inr e ↦ absurd (ground arith)
    | inl e ↦
        rw (e, revert)
          (record {
            ledger =
                reopened_snapshot law (ledger_snapshot c h supported g) g.coverage g.local_contracts
                  g.local_code_hashes f.network_protocol_version (p ∙ sym n);
            coverage = refl;
            local_contracts = refl;
            local_code_hashes = refl;
            receipts = refl;
            id = sym same;
          })
  ]

  -- Reverting a fork to its own checkpoint succeeds, with the ledger, the coverage and the local sets of
  -- that moment and an empty evidence log, where the ledger stood at the network's protocol.
  pub revert-checkpoint :
      ReopensSnapshots c h supported
      → (f g : StrictFork Env) → g.id ≡ f.id
      → f.network_protocol_version ≡ g.network_protocol_version
      → (ledger_snapshot c h supported g).protocol_version ≡ g.network_protocol_version
      → ((revert c h supported f (checkpoint c h supported g)).1 ≡ ok tt)
        × Restored g (revert c h supported f (checkpoint c h supported g)).0
  revert-checkpoint law f g same n p =
      let done = revert_ok f g same in (done, restored_lem law f g same n p done)
