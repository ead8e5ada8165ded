-- ===== src/Capture/Materialize/Checked.antt =====
-- What the checks of `CaptureBuilder::materialize` of src/capture.rs leave, and the snapshot made of it.
use kanatoko.Prelude.{
  ℕ, zero, suc, ◌≡◌, refl, List, [], ◌∷◌, ◌++◌, Option, none, some, Bool, true, false, Result, ok,
  err, arith, ap, sym, ◌∙◌, subst, holds, ok_or, inl, inr, ◌⊎◌, Option-cases, chunks, In,
  if◌then◌else◌, ◌==◌,
}
use kanatoko.Prelude
use kanatoko.Bytes.{Bytes}
use kanatoko.BTree.{get}
use kanatoko.Xdr.{Codec, LedgerKey, LedgerSnapshot, SnapshotEntry}
use kanatoko.Ledger.{Coverage, LookupState, present, absent}
use kanatoko.Capture.{Materialized, capture_id, is_state_archival_key}
use kanatoko.Capture.Validate.{
  validate_state, validate_coverage, snapshot_entry, snapshot_entries, snapshot_from_materialized,
}
use kanatoko.Capture.Validate.Valid.{AreValid, coverage-AreValid}

-- What the checks leave: the coverage is valid at the anchor and without the archival settings.
pub record IsChecked (c : Codec) (m : Materialized) : Type 0 where
  pub validated :
      validate_coverage c m.coverage m.anchor.sequence m.ledger_info.max_entry_ttl ≡ ok tt
  pub without_settings :
      (id : Bytes) → c.key_xdr LedgerKey.state_archival ≡ some id → get id m.coverage ≡ none
  pub sequence : m.ledger_info.sequence_number ≡ m.anchor.sequence
  pub protocol : m.ledger_info.protocol_version ≡ m.anchor.protocol_version

-- The ledger is the anchor's: its present entries are valid there, and the archival settings are
-- left out.
pub record IsCoherent (c : Codec) (m : Materialized) : Type 0 where
  pub valid : AreValid c m.anchor.sequence m.ledger_info.max_entry_ttl m.coverage
  pub without_settings :
      (id : Bytes) → c.key_xdr LedgerKey.state_archival ≡ some id → get id m.coverage ≡ none
  pub sequence : m.ledger_info.sequence_number ≡ m.anchor.sequence
  pub protocol : m.ledger_info.protocol_version ≡ m.anchor.protocol_version

pub checked-IsCoherent : (c : Codec) (m : Materialized) → IsChecked c m → IsCoherent c m
checked-IsCoherent c m i = record {
  valid = coverage-AreValid c m.anchor.sequence m.ledger_info.max_entry_ttl m.coverage i.validated;
  without_settings = i.without_settings;
  sequence = i.sequence;
  protocol = i.protocol;
}

archival_key : (k : LedgerKey) → is_state_archival_key k ≡ true → k ≡ LedgerKey.state_archival
unfolding is_state_archival_key
archival_key k h = ground arith

pub encoded :
    (c : Codec) (key : LedgerKey) (id : Bytes) → capture_id c key ≡ ok id → c.key_xdr key ≡ some id
unfolding capture_id
encoded c key id h = ground (arith, h)

module _ (c : Codec) where
  -- A state that is valid, under another key than the settings', becomes an entry.
  snapshot_entry_ok :
      (id config_id : Bytes) (state : LookupState) (sequence max_ttl : ℕ)
      → c.key_xdr LedgerKey.state_archival ≡ some config_id
      → ¬ (id ≡ config_id)
      → validate_state c id state sequence max_ttl ≡ ok tt
      → (es : List SnapshotEntry) × (snapshot_entry c id state ≡ ok es)
  unfolding snapshot_entry validate_state capture_id
  snapshot_entry_ok id config_id absent sequence max_ttl k n h = ([], refl)
  snapshot_entry_ok id config_id (present entry live_until) sequence max_ttl k n h =
      ((c.to_key entry, entry, live_until) ∷ [], ground (arith, archival_key (c.to_key entry)))

  validated_cons :
      (id : Bytes) (state : LookupState) (coverage : Coverage) (sequence max_ttl : ℕ)
      → validate_coverage c ((id, state) ∷ coverage) sequence max_ttl ≡ ok tt
      → (validate_state c id state sequence max_ttl ≡ ok tt)
        × (validate_coverage c coverage sequence max_ttl ≡ ok tt)
  unfolding validate_coverage
  validated_cons id state coverage sequence max_ttl h = ground arith

  get-none_cons :
      (k id : Bytes) (state : LookupState) (coverage : Coverage)
      → get k ((id, state) ∷ coverage) ≡ none
      → (¬ (id ≡ k)) × (get k coverage ≡ none)
  unfolding get
  get-none_cons k id state coverage h = ground arith

  snapshot_entries_ok :
      (config_id : Bytes) (coverage : Coverage) (sequence max_ttl : ℕ)
      → c.key_xdr LedgerKey.state_archival ≡ some config_id
      → get config_id coverage ≡ none
      → validate_coverage c coverage sequence max_ttl ≡ ok tt
      → (es : List SnapshotEntry) × (snapshot_entries c coverage ≡ ok es)
  unfolding snapshot_entries
  snapshot_entries_ok config_id [] sequence max_ttl k g h = ([], refl)
  snapshot_entries_ok config_id ((id, state) ∷ coverage) sequence max_ttl k g h =
      let v = validated_cons id state coverage sequence max_ttl h in
      let n = get-none_cons config_id id state coverage g in
      let here = snapshot_entry_ok id config_id state sequence max_ttl k n.0 v.0 in
      let rest = snapshot_entries_ok config_id coverage sequence max_ttl k n.1 v.1 in
      (here.0 ++ rest.0, rw here.1 (rw rest.1 refl))

  pub snapshot_ok :
      (m : Materialized) (config_id : Bytes)
      → c.key_xdr LedgerKey.state_archival ≡ some config_id
      → IsChecked c m
      → (s : LedgerSnapshot) × (snapshot_from_materialized c m ≡ ok s)
  unfolding snapshot_from_materialized
  snapshot_ok m config_id k i =
      let es =
        snapshot_entries_ok config_id m.coverage m.anchor.sequence m.ledger_info.max_entry_ttl k
          (i.without_settings config_id k) i.validated in
      Prelude.ok_of (snapshot_from_materialized c m) (rw es.1 refl)
