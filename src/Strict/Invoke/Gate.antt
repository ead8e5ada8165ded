-- ===== src/Strict/Invoke/Gate.antt =====
-- Failing closed: no receipt without every touched key accounted for.
use kanatoko.Prelude.{
  ◌≡◌, refl, ◌⊎◌, inl, inr, ◌≢◌, List, [], ◌∷◌, none, some, true, ◌||◌, ℕ, ok, Result-cases, arith,
  In, Bool-cases, subst, ap, sym, ◌∙◌, Option-cases,
}
use kanatoko.Bytes.{Bytes}
use kanatoko.BTree.{get, insert_key}
use kanatoko.BTree.Lookup.{insert_key-In}
use kanatoko.Xdr.{Codec, LedgerKey}
use kanatoko.Ledger.{is_local_key}
use kanatoko.Host.{Host, InvokeRequest}
use kanatoko.Strict.{AuthMode, ExecutionMode, Receipt, StrictFork, allow_mock_nonces}
use kanatoko.Strict.Source.{
  StrictSource, is_covered, get_source, after_reads, add_unknown, unknown_keys, strict_env,
}
use kanatoko.Strict.Invoke.Stages.{attempt-Stages}
use kanatoko.Strict.Invoke.{Run, run_child, attempt, invoke}

module _ (c : Codec) where
  -- The key encodes to an identifier that is covered, or the key is local.
  abbrev pub Accounted : StrictSource → LedgerKey → Type 0
  Accounted s key =
      (is_local_key key s.local_contracts s.local_code_hashes s.allow_mock_nonces ≡ true)
      ⊎ ((id : Bytes) × (c.key_xdr key ≡ some id) × (is_covered (get id s.coverage) ≡ true))

  insert_key-ne-nil : (id : Bytes) (s : List Bytes) → insert_key id s ≢ []
  insert_key-ne-nil id s e = subst (In id) e (insert_key-In id id s (inl refl))

  -- The set of unknown identifiers never shrinks to nothing.
  add_unknown_ne :
      (s : StrictSource) (u : List Bytes) (ks : List LedgerKey) (v : List Bytes)
      → u ≢ []
      → add_unknown c s u ks ≡ ok v
      → v ≢ []
  unfolding add_unknown
  add_unknown_ne s u [] v n h = λ e. n (cc)
  add_unknown_ne s u (k ∷ ks) v n h = elim (Option-cases (c.key_xdr k)) [
    | inl p ↦ absurd (ground arith)
    | inr (id, p) ↦
        elim (Bool-cases (
          is_covered (get id s.coverage)
          || is_local_key k s.local_contracts s.local_code_hashes s.allow_mock_nonces)) [
            | inl b ↦ add_unknown_ne s u ks v n (ground (arith, p, b, h))
            | inr b ↦
                add_unknown_ne s (insert_key id u) ks v (insert_key-ne-nil id u)
                  (ground (arith, p, b, h))
          ]
  ]

  add_unknown_sound :
      (s : StrictSource) (u : List Bytes) (ks : List LedgerKey)
      → add_unknown c s u ks ≡ ok []
      → (u ≡ []) × ((k : LedgerKey) → In k ks → Accounted s k)
  unfolding add_unknown
  add_unknown_sound s u [] h = (cc, λ k m. absurd m)
  add_unknown_sound s u (k ∷ ks) h = elim (Option-cases (c.key_xdr k)) [
    | inl p ↦ absurd (ground arith)
    | inr (id, p) ↦
        elim (Bool-cases (
          is_covered (get id s.coverage)
          || is_local_key k s.local_contracts s.local_code_hashes s.allow_mock_nonces)) [
            | inl b ↦
                let rest = add_unknown_sound s u ks (ground (arith, p, b, h)) in
                let this : Accounted s k = ground (arith, b, p) in
                (
                  rest.0,
                  λ j m. elim m [ inl e ↦ subst (Accounted s) e this | inr m' ↦ rest.1 j m' ],
                )
            | inr b ↦ absurd (
                add_unknown_ne s (insert_key id u) ks [] (insert_key-ne-nil id u)
                  (ground (arith, p, b, h)) refl)
          ]
  ]

  -- A lookup leaves the source alone, or adds one identifier to the unknown ones.
  get_source_cases :
      (s : StrictSource) (k : LedgerKey)
      → (((get_source c s k).0 ≡ s) × ((c.key_xdr k ≡ none) ⊎ Accounted s k))
        ⊎ ((id : Bytes) × ((get_source c s k).0 ≡ record s { unknown = insert_key id s.unknown }))
  unfolding get_source is_covered
  get_source_cases s k = elim (Option-cases (c.key_xdr k)) [
    | inl p ↦ inl (ground arith, inl p)
    | inr (id, p) ↦ elim (Option-cases (get id s.coverage)) [
      | inr (state, q) ↦ inl (ground arith, inr (inr (id, p, ground arith)))
      | inl q ↦
          elim (Bool-cases
            (is_local_key k s.local_contracts s.local_code_hashes s.allow_mock_nonces)) [
              | inl b ↦ inl (ground arith, inr (inl b))
              | inr b ↦ inr (id, ground arith)
            ]
    ]
  ]

  reads_kept :
      (s : StrictSource) (ks : List LedgerKey) → s.unknown ≢ [] → (after_reads c s ks).unknown ≢ []
  unfolding after_reads
  reads_kept s [] n = n
  reads_kept s (k ∷ ks) n = elim (get_source_cases s k) [
    | inl (e, a) ↦ subst (λ t. (after_reads c t ks).unknown ≢ []) (sym e) (reads_kept s ks n)
    | inr (id, e) ↦
        subst (λ t. (after_reads c t ks).unknown ≢ []) (sym e)
          (reads_kept (record s { unknown = insert_key id s.unknown }) ks
            (insert_key-ne-nil id s.unknown))
  ]

  reads_sound :
      (s : StrictSource) (ks : List LedgerKey)
      → (after_reads c s ks).unknown ≡ []
      → (k : LedgerKey) → In k ks
      → (c.key_xdr k ≡ none) ⊎ Accounted s k
  unfolding after_reads
  reads_sound s [] h k m = absurd m
  reads_sound s (j ∷ ks) h k m = elim (get_source_cases s j) [
    | inl (e, a) ↦ elim m [
      | inl q ↦ subst (λ x. (c.key_xdr x ≡ none) ⊎ Accounted s x) q a
      | inr m' ↦ reads_sound s ks (subst (λ t. (after_reads c t ks).unknown ≡ []) e h) k m'
    ]
    | inr (id, e) ↦ absurd (
        reads_kept (record s { unknown = insert_key id s.unknown }) ks
          (insert_key-ne-nil id s.unknown) (subst (λ t. (after_reads c t ks).unknown ≡ []) e h))
  ]

module _ {Env : Type 0} (c : Codec) (h : Host Env) (supported : ℕ) where
  -- Every key that an environment stores, and every key that it asked its source for, is accounted for;
  -- a key that does not encode was answered with an error.
  pub record IsClosed (env : Env) (s : StrictSource) : Type 0 where
    pub stored :
        (ks : List LedgerKey)
        → h.stored_entries env ≡ some ks
        → (k : LedgerKey) → In k ks
        → Accounted c s k
    pub reads : (k : LedgerKey) → In k (h.source_reads env) → (c.key_xdr k ≡ none) ⊎ Accounted c s k

  pub unknown_keys_sound :
      (env : Env) (s : StrictSource) → unknown_keys c h supported env s ≡ ok [] → IsClosed env s
  unfolding unknown_keys
  unknown_keys_sound env s e = elim (Option-cases (h.stored_entries env)) [
    | inl p ↦ absurd (ground arith)
    | inr (ks, p) ↦
        let same : (ls : List LedgerKey) → h.stored_entries env ≡ some ls → ls ≡ ks =
          λ ls q. cc (p, q) in
        let sound =
          add_unknown_sound c s (after_reads c s (h.source_reads env)).unknown ks
            (ground (arith, p, e)) in
        record {
          stored = λ ls q k m. sound.1 k (subst (In k) (same ls q) m);
          reads = reads_sound c s (h.source_reads env) sound.0;
        }
  ]

  -- The source that answers an invocation of the fork.
  pub gate_source : StrictFork Env → AuthMode → StrictSource
  gate_source f auth = record {
    coverage = f.coverage;
    local_contracts = f.local_contracts;
    local_code_hashes = f.local_code_hashes;
    allow_mock_nonces = allow_mock_nonces auth;
    unknown = [];
  }

  run_child_source :
      (f : StrictFork Env) (request : InvokeRequest) (auth : AuthMode) (run : Run Env)
      → run_child c h supported f request auth ≡ ok run
      → run.source ≡ gate_source f auth
  unfolding run_child strict_env gate_source
  run_child_source f request auth run e = ground arith

  -- An invocation that gives a receipt has run a child environment that touched no key outside the
  -- fork's coverage and its local keys, and the receipt tells that child's outcome.
  pub invoke-IsClosed :
      (f : StrictFork Env) (request : InvokeRequest) (mode : ExecutionMode) (auth : AuthMode)
      (r : Receipt)
      → (invoke c h supported f request mode auth).1 ≡ ok r
      → (run : Run Env) × (run_child c h supported f request auth ≡ ok run)
        × (r.outcome ≡ run.outcome)
        × IsClosed run.child (gate_source f auth)
  unfolding invoke
  invoke-IsClosed f request mode auth r q =
      elim (Result-cases (attempt c h supported f request mode auth)) [
        | inr (e, g) ↦ absurd (ground arith)
        | inl (a, g) ↦
            let (run, after, s) = attempt-Stages c h supported f request mode auth a g in
            let same : a.receipt ≡ r = ground (arith, g) in
            (
              run,
              s.ran,
              ap (λ x. x.outcome) (sym same) ∙ s.outcome,
              subst (IsClosed run.child) (run_child_source f request auth run s.ran)
                  (unknown_keys_sound run.child run.source s.closed),
            )
      ]
