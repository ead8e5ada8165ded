-- ===== src/Capture/Validate.antt =====
-- src/capture.rs: the checks of an RPC batch and of a ledger's coverage.
pub mod Valid
use kanatoko.Prelude.{
  ℕ, ◌+◌, ◌-◌, ◌^◌, List, [], ◌∷◌, ◌++◌, Option, none, some, Bool, true, false, not, ◌&&◌, ◌||◌,
  Result, ok, err, ◌>>=◌, ◌>>◌, guard, holds, ltb, leb, ◌==◌, if◌then◌else◌,
}
use kanatoko.Bytes.{Bytes, Bytes-discrete}
use kanatoko.BTree.{BTreeMap, get, insert}
use kanatoko.Xdr.{
  Codec, Durability, LedgerKey, LedgerEntry, LedgerEntryData, LedgerSnapshot, SnapshotEntry,
  ArchivalSettings,
}
use kanatoko.Ledger.{Coverage, LookupState, present, absent, has_hash, key_set}
use kanatoko.Capture.{
  CaptureError, malformed_rpc, missing_state_archival, internal_invariant, get_ledger_entries,
  FetchedEntry, Materialized, capture_id, is_state_archival_key,
}

abbrev is_some {ℓ} : {A : Type ℓ} → Option A → Bool
is_some none = false
is_some (some a) = true

module _ (c : Codec) where
  unfoldable pub key_ids : List LedgerKey → Result CaptureError (List Bytes)
  unfolding capture_id
  key_ids [] = ok []
  key_ids (k ∷ ks) = do id ← capture_id c k; ids ← key_ids ks; ok (id ∷ ids)

  -- The loop of `validate_batch`: an entry must have been asked for, and be the first of its key.
  unfoldable pub collect_batch :
      List Bytes
      → BTreeMap FetchedEntry
      → List FetchedEntry
      → Result CaptureError (BTreeMap FetchedEntry)
  unfolding capture_id has_hash get insert
  collect_batch requested returned [] = ok returned
  collect_batch requested returned (fetched ∷ es) = do
    id ← capture_id c (c.to_key fetched.entry)
    guard (has_hash id requested && not (is_some (get id returned)))
        (malformed_rpc get_ledger_entries)
    collect_batch requested (insert id fetched returned) es

  unfoldable pub validate_batch :
      List LedgerKey → List FetchedEntry → Result CaptureError (BTreeMap FetchedEntry)
  unfolding key_ids collect_batch key_set
  validate_batch requested entries = do
    ids ← key_ids requested
    collect_batch (key_set ids) [] entries

settings_of : LedgerEntryData → Result CaptureError ArchivalSettings
settings_of (LedgerEntryData.state_archival s) = ok s
settings_of _ = err (malformed_rpc get_ledger_entries)

unfoldable pub extract_archival : Option FetchedEntry → Result CaptureError ArchivalSettings
unfolding settings_of
extract_archival none = err missing_state_archival
extract_archival (some e) = settings_of e.entry.entry_data

-- The match on the entry's data, where a contract entry may live from `low` to `high`.
metadata_fits : LedgerEntryData → Option ℕ → ℕ → ℕ → Bool
metadata_fits (LedgerEntryData.contract_code h code ext) (some ttl) low high =
    (ttl == 0) || (leb low ttl && leb ttl high)
metadata_fits (LedgerEntryData.contract_data d) (some ttl) low high = elim (d.durability) [
  | Durability.persistent ↦ (ttl == 0) || (leb low ttl && leb ttl high)
  | Durability.temporary ↦ leb low ttl && leb ttl high
]
metadata_fits (LedgerEntryData.account a f) none low high = true
metadata_fits (LedgerEntryData.trustline a asset f) none low high = true
metadata_fits _ _ low high = false

-- `checked_add` fails from 2 ^ 32 on; the subtraction saturates at 0, as that of ℕ does.
unfoldable pub validate_entry_metadata : LedgerEntry → Option ℕ → ℕ → ℕ → Bool
unfolding metadata_fits
validate_entry_metadata entry live_until ledger_sequence max_entry_ttl =
    if ltb ledger_sequence entry.last_modified_ledger_seq || max_entry_ttl == 0
    then false
    else (if ltb (ledger_sequence + (max_entry_ttl - 1)) (2 ^ 32)
        then metadata_fits entry.entry_data live_until ledger_sequence
            (ledger_sequence + (max_entry_ttl - 1))
        else false)

module _ (c : Codec) where
  -- Code must hash to its key.
  unfoldable pub code_hash_fits : LedgerEntryData → Bool
  unfolding Bytes-discrete
  code_hash_fits (LedgerEntryData.contract_code h code ext) =
      holds (Bytes-discrete h (c.sha256 code))
  code_hash_fits _ = true

  -- One round of the loop of `validate_coverage`.
  unfoldable pub validate_state : Bytes → LookupState → ℕ → ℕ → Result CaptureError (Unit {0})
  unfolding capture_id code_hash_fits validate_entry_metadata
  validate_state id absent ledger_sequence max_entry_ttl = ok tt
  validate_state id (present entry live_until) ledger_sequence max_entry_ttl = do
    own ← capture_id c (c.to_key entry)
    guard (holds (Bytes-discrete id own)) (malformed_rpc get_ledger_entries)
    guard (code_hash_fits entry.entry_data) (malformed_rpc get_ledger_entries)
    guard (validate_entry_metadata entry live_until ledger_sequence max_entry_ttl)
        (malformed_rpc get_ledger_entries)

  unfoldable pub validate_coverage : Coverage → ℕ → ℕ → Result CaptureError (Unit {0})
  unfolding validate_state
  validate_coverage [] ledger_sequence max_entry_ttl = ok tt
  validate_coverage ((id, state) ∷ coverage) ledger_sequence max_entry_ttl = do
    validate_state id state ledger_sequence max_entry_ttl
    validate_coverage coverage ledger_sequence max_entry_ttl

  -- One round of the loop of `snapshot_from_materialized`: nothing for an absent key.
  unfoldable pub snapshot_entry : Bytes → LookupState → Result CaptureError (List SnapshotEntry)
  unfolding capture_id is_state_archival_key
  snapshot_entry id absent = ok []
  snapshot_entry id (present entry live_until) = do
    guard (not (is_state_archival_key (c.to_key entry))) internal_invariant
    own ← capture_id c (c.to_key entry)
    guard (holds (Bytes-discrete id own)) internal_invariant
    ok ((c.to_key entry, entry, live_until) ∷ [])

  unfoldable pub snapshot_entries : Coverage → Result CaptureError (List SnapshotEntry)
  unfolding snapshot_entry
  snapshot_entries [] = ok []
  snapshot_entries ((id, state) ∷ coverage) = do
    here ← snapshot_entry id state
    rest ← snapshot_entries coverage
    ok (here ++ rest)

  unfoldable pub snapshot_from_materialized : Materialized → Result CaptureError LedgerSnapshot
  unfolding snapshot_entries
  snapshot_from_materialized m = do
    entries ← snapshot_entries m.coverage
    ok (record {
      protocol_version = m.ledger_info.protocol_version;
      sequence_number = m.ledger_info.sequence_number;
      timestamp = m.ledger_info.timestamp;
      network_id = m.ledger_info.network_id;
      base_reserve = m.ledger_info.base_reserve;
      min_persistent_entry_ttl = m.ledger_info.min_persistent_entry_ttl;
      min_temp_entry_ttl = m.ledger_info.min_temp_entry_ttl;
      max_entry_ttl = m.ledger_info.max_entry_ttl;
      ledger_entries = entries;
    })
