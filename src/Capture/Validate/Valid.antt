-- ===== src/Capture/Validate/Valid.antt =====
-- What `validate_coverage` of src/capture.rs accepts, said of the coverage's entries.
use kanatoko.Prelude.{
  ◌≡◌, ◌⊎◌, inl, inr, refl, subst, ℕ, ◌+◌, ◌-◌, ◌^◌, ◌≤◌, ◌<◌, [], ◌∷◌, Option, none, some, true,
  ok, In, arith, of_holds,
}
use kanatoko.Bytes.{Bytes, Bytes-discrete}
use kanatoko.Xdr.{Codec, Durability, LedgerEntry, LedgerEntryData}
use kanatoko.Ledger.{Coverage, present}
use kanatoko.Capture.{capture_id}
use kanatoko.Capture.Validate.{
  validate_entry_metadata, code_hash_fits, validate_state, validate_coverage,
}

-- The entry lives from the ledger to the last one that it may; a persistent one may be archived.
pub LivesUntil : LedgerEntryData → Option ℕ → ℕ → ℕ → Type 0
LivesUntil (LedgerEntryData.contract_code h code ext) (some ttl) low high =
    (ttl ≡ 0) ⊎ ((low ≤ ttl) × (ttl ≤ high))
LivesUntil (LedgerEntryData.contract_data d) (some ttl) low high =
    ((d.durability ≡ Durability.persistent) × (ttl ≡ 0)) ⊎ ((low ≤ ttl) × (ttl ≤ high))
LivesUntil (LedgerEntryData.account a f) none low high = Unit {0}
LivesUntil (LedgerEntryData.trustline a asset f) none low high = Unit {0}
LivesUntil _ _ low high = ⊥

-- Code is under its hash.
pub HasOwnHash : Codec → LedgerEntryData → Type 0
HasOwnHash c (LedgerEntryData.contract_code h code ext) = h ≡ c.sha256 code
HasOwnHash c _ = Unit {0}

metadata-LivesUntil :
    (entry_data : LedgerEntryData) (live_until : Option ℕ) (entry : LedgerEntry)
    (sequence max_ttl : ℕ)
    → entry.entry_data ≡ entry_data
    → validate_entry_metadata entry live_until sequence max_ttl ≡ true
    → LivesUntil entry_data live_until sequence (sequence + (max_ttl - 1))
unfolding validate_entry_metadata LivesUntil
metadata-LivesUntil (LedgerEntryData.contract_code h code ext) (some ttl) entry sequence max_ttl e
      v =
    grind (arith, e, v)
metadata-LivesUntil (LedgerEntryData.contract_data d) (some ttl) entry sequence max_ttl e v =
    grind (arith, e, v)
metadata-LivesUntil (LedgerEntryData.account a f) none entry sequence max_ttl e v = tt
metadata-LivesUntil (LedgerEntryData.trustline a asset f) none entry sequence max_ttl e v = tt
metadata-LivesUntil (LedgerEntryData.contract_code h code ext) none entry sequence max_ttl e v =
    absurd (grind (arith, e, v))
metadata-LivesUntil (LedgerEntryData.contract_data d) none entry sequence max_ttl e v =
    absurd (grind (arith, e, v))
metadata-LivesUntil (LedgerEntryData.account a f) (some ttl) entry sequence max_ttl e v =
    absurd (grind (arith, e, v))
metadata-LivesUntil (LedgerEntryData.trustline a asset f) (some ttl) entry sequence max_ttl e v =
    absurd (grind (arith, e, v))
metadata-LivesUntil (LedgerEntryData.state_archival a) live_until entry sequence max_ttl e v =
    absurd (grind (arith, e, v))
metadata-LivesUntil (LedgerEntryData.other b) live_until entry sequence max_ttl e v =
    absurd (grind (arith, e, v))

data-HasOwnHash :
    (c : Codec) (entry_data : LedgerEntryData)
    → code_hash_fits c entry_data ≡ true
    → HasOwnHash c entry_data
unfolding code_hash_fits HasOwnHash
data-HasOwnHash c (LedgerEntryData.contract_code h code ext) v =
    of_holds (Bytes-discrete h (c.sha256 code)) v
data-HasOwnHash c (LedgerEntryData.contract_data d) v = tt
data-HasOwnHash c (LedgerEntryData.account a f) v = tt
data-HasOwnHash c (LedgerEntryData.trustline a asset f) v = tt
data-HasOwnHash c (LedgerEntryData.state_archival a) v = tt
data-HasOwnHash c (LedgerEntryData.other b) v = tt

module _ (c : Codec) (sequence max_ttl : ℕ) where
  -- A present entry is under its own key, code under its own hash too; it was not modified after the
  -- ledger, and it lives.
  pub record IsValid (id : Bytes) (entry : LedgerEntry) (live_until : Option ℕ) : Type 0 where
    pub own_key : c.key_xdr (c.to_key entry) ≡ some id
    pub own_hash : HasOwnHash c entry.entry_data
    pub modified : entry.last_modified_ledger_seq ≤ sequence
    pub fits : sequence + (max_ttl - 1) < 2 ^ 32
    pub lives : LivesUntil entry.entry_data live_until sequence (sequence + (max_ttl - 1))

  -- All present entries are valid.
  abbrev pub AreValid : Coverage → Type 0
  AreValid coverage =
      (id : Bytes) (entry : LedgerEntry) (live_until : Option ℕ)
      → In (id, present entry live_until) coverage
      → IsValid id entry live_until

  state_checks :
      (id : Bytes) (entry : LedgerEntry) (live_until : Option ℕ)
      → validate_state c id (present entry live_until) sequence max_ttl ≡ ok tt
      → (c.key_xdr (c.to_key entry) ≡ some id)
        × (code_hash_fits c entry.entry_data ≡ true)
        × (validate_entry_metadata entry live_until sequence max_ttl ≡ true)
  unfolding validate_state capture_id
  state_checks id entry live_until h = grind (arith, h)

  metadata_bounds :
      (entry : LedgerEntry) (live_until : Option ℕ)
      → validate_entry_metadata entry live_until sequence max_ttl ≡ true
      → (entry.last_modified_ledger_seq ≤ sequence) × (sequence + (max_ttl - 1) < 2 ^ 32)
  unfolding validate_entry_metadata
  metadata_bounds entry live_until h = grind (arith, h)

  state-IsValid :
      (id : Bytes) (entry : LedgerEntry) (live_until : Option ℕ)
      → validate_state c id (present entry live_until) sequence max_ttl ≡ ok tt
      → IsValid id entry live_until
  state-IsValid id entry live_until h =
      let (a, b, d) = state_checks id entry live_until h in
      let (m, f) = metadata_bounds entry live_until d in
      record {
        own_key = a;
        own_hash = data-HasOwnHash c entry.entry_data b;
        modified = m;
        fits = f;
        lives = metadata-LivesUntil entry.entry_data live_until entry sequence max_ttl refl d;
      }

  pub coverage-AreValid :
      (coverage : Coverage)
      → validate_coverage c coverage sequence max_ttl ≡ ok tt
      → AreValid coverage
  unfolding validate_coverage
  coverage-AreValid [] h id entry live_until m = absurd m
  coverage-AreValid ((i, state) ∷ rest) h id entry live_until (inl e) =
      state-IsValid id entry live_until
        (subst (λ p. validate_state c p.0 p.1 sequence max_ttl ≡ ok tt) e (ground (arith, h)))
  coverage-AreValid ((i, state) ∷ rest) h id entry live_until (inr m) =
      coverage-AreValid rest (ground (arith, h)) id entry live_until m
