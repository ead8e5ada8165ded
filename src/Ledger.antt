-- ===== src/Ledger.antt =====
-- What src/strict.rs and src/capture.rs know of the ledger: Present/Absent coverage by key identifier
-- (`LookupState`), and the difference of two snapshots (`state_diff`, `update_coverage`,
-- `strip_new_mock_nonces` of src/strict.rs).
pub mod Diff
pub mod Promote
use kanatoko.Prelude.{
  ℕ, List, [], ◌∷◌, ◌++◌, Option, none, some, Bool, true, false, ◌&&◌, ◌||◌, Result, ok, err, ◌>>=◌,
  ok_or, ite, holds, if◌then◌else◌, ℕ_discrete,
}
use kanatoko.Bytes.{Bytes, Bytes-discrete}
use kanatoko.BTree.{BTreeMap, get, insert, keys, insert_key}
use kanatoko.Xdr.{
  Codec, Hash, ScAddress, ScAddress-discrete, Durability, ScVal, DataKey, LedgerKey, LedgerEntry,
  LedgerSnapshot, SnapshotEntry,
}
use kanatoko.Fixture.{FixtureError}

-- `StrictForkError` of src/strict.rs.
pub data StrictForkError : Type 0 where
  unknown_ledger_keys : List Bytes → StrictForkError
  auth_tree_mismatch checkpoint_mismatch candidate_address_not_contract : StrictForkError
  candidate_address_occupied : StrictForkError
  -- expected, actual
  wasm_hash_mismatch : Hash → Hash → StrictForkError
  candidate_registration_failed invalid_invocation_xdr : StrictForkError
  invalid_authorization_entries host_inspection xdr : StrictForkError
  fixture : FixtureError → StrictForkError

pub data LookupState : Type 0 where
  present : LedgerEntry → Option ℕ → LookupState
  absent : LookupState

abbrev pub Coverage : Type 0
Coverage = BTreeMap LookupState

pub record LedgerValue : Type 0 where
  pub entry : LedgerEntry
  pub live_until_ledger : Option ℕ

pub record StateChange : Type 0 where
  pub key : LedgerKey
  pub before : Option LedgerValue
  pub after : Option LedgerValue

unfoldable pub Value-discrete : Discrete (Option LedgerValue)
unfolding ℕ_discrete
Value-discrete = hlevel ℕ_discrete

-- Membership in a `BTreeSet` of addresses or hashes.
unfoldable pub has_address : ScAddress → List ScAddress → Bool
has_address a [] = false
has_address a (x ∷ xs) = holds (ScAddress-discrete x a) || has_address a xs

unfoldable pub has_hash : Bytes → List Bytes → Bool
has_hash h [] = false
has_hash h (x ∷ xs) = holds (Bytes-discrete x h) || has_hash h xs

is_nonce_key : ScVal → Durability → Bool
is_nonce_key (ScVal.ledger_key_nonce n) Durability.temporary = true
is_nonce_key _ _ = false

unfoldable pub is_nonce_data : DataKey → Bool
unfolding is_nonce_key
is_nonce_data d = is_nonce_key d.key d.durability

unfoldable pub is_nonce : LedgerKey → Bool
unfolding is_nonce_data
is_nonce (LedgerKey.contract_data d) = is_nonce_data d
is_nonce _ = false

unfoldable pub is_local_key : LedgerKey → List ScAddress → List Hash → Bool → Bool
unfolding has_address has_hash is_nonce_data
is_local_key (LedgerKey.contract_data d) contracts hashes allow_mock_nonces =
    has_address d.contract contracts || (allow_mock_nonces && is_nonce_data d)
is_local_key (LedgerKey.contract_code h) contracts hashes allow_mock_nonces = has_hash h hashes
is_local_key _ contracts hashes allow_mock_nonces = false

-- Every key of a list, in order and once: `collect::<BTreeSet<_>>()`.
unfoldable pub key_set : List Bytes → List Bytes
unfolding insert_key
key_set [] = []
key_set (k ∷ ks) = insert_key k (key_set ks)

abbrev pub contract_instance_key : ScAddress → LedgerKey
contract_instance_key a = LedgerKey.contract_data (record {
  contract = a;
  key = ScVal.ledger_key_contract_instance;
  durability = Durability.persistent;
})

module _ (c : Codec) where
  -- `key_id` of src/strict.rs
  unfoldable pub key_id : LedgerKey → Result StrictForkError Bytes
  key_id k = ok_or (c.key_xdr k) xdr

  -- The entries collected into a map by identifier: a later entry replaces an earlier one.
  unfoldable pub collect_entries :
      BTreeMap (LedgerKey × LedgerValue)
      → List SnapshotEntry
      → Result StrictForkError (BTreeMap (LedgerKey × LedgerValue))
  unfolding key_id insert
  collect_entries m [] = ok m
  collect_entries m ((key, entry, live_until) ∷ es) = do
    id ← key_id key
    collect_entries (insert id (key, record { entry = entry; live_until_ledger = live_until }) m) es

  unfoldable pub snapshot_map :
      LedgerSnapshot → Result StrictForkError (BTreeMap (LedgerKey × LedgerValue))
  unfolding collect_entries
  snapshot_map s = collect_entries [] s.ledger_entries

abbrev pub value_of : Option (LedgerKey × LedgerValue) → Option LedgerValue
value_of none = none
value_of (some (key, value)) = some value

abbrev first_key :
    Option (LedgerKey × LedgerValue) → Option (LedgerKey × LedgerValue) → Option LedgerKey
first_key (some (key, value)) after = some key
first_key none (some (key, value)) = some key
first_key none none = none

abbrev pub state_of : Option LedgerValue → LookupState
state_of none = absent
state_of (some v) = present v.entry v.live_until_ledger

-- One round of the loop of `state_diff`: nothing, or a change.
unfoldable pub diff_one :
    Option (LedgerKey × LedgerValue)
    → Option (LedgerKey × LedgerValue)
    → Result StrictForkError (Option StateChange)
diff_one before after = ite (Value-discrete (value_of before) (value_of after)) (ok none) (
    ok_or (first_key before after) host_inspection >>= λ key.
    ok (some (record { key = key; before = value_of before; after = value_of after })))

abbrev push_change : Option StateChange → List StateChange → List StateChange
push_change none rest = rest
push_change (some change) rest = change ∷ rest

unfoldable pub diff_ids :
    BTreeMap (LedgerKey × LedgerValue)
    → BTreeMap (LedgerKey × LedgerValue)
    → List Bytes
    → Result StrictForkError (List StateChange)
unfolding diff_one get
diff_ids before after [] = ok []
diff_ids before after (id ∷ ids) = do
  change ← diff_one (get id before) (get id after)
  rest ← diff_ids before after ids
  ok (push_change change rest)

module _ (c : Codec) where
  unfoldable pub state_diff :
      LedgerSnapshot → LedgerSnapshot → Result StrictForkError (List StateChange)
  unfolding snapshot_map diff_ids key_set keys
  state_diff before after = do
    b ← snapshot_map c before
    a ← snapshot_map c after
    diff_ids b a (key_set (keys b ++ keys a))

  -- The map is changed in place, so what was inserted before an error stays.
  unfoldable pub update_coverage :
      Coverage → List StateChange → Coverage × Result StrictForkError (Unit {0})
  unfolding key_id insert
  update_coverage coverage [] = (coverage, ok tt)
  update_coverage coverage (change ∷ changes) = elim (key_id c change.key) [
    | ok id ↦ update_coverage (insert id (state_of change.after) coverage) changes
    | err e ↦ (coverage, err e)
  ]

  -- The identifiers of the nonces of a snapshot.
  unfoldable pub nonce_ids : List SnapshotEntry → Result StrictForkError (List Bytes)
  unfolding is_nonce key_id
  nonce_ids [] = ok []
  nonce_ids ((key, entry, live_until) ∷ es) =
      let rest = nonce_ids es in
      if is_nonce key then (key_id c key >>= λ id. rest >>= λ ids. ok (id ∷ ids)) else rest

  -- The loop that keeps an entry unless it is a nonce that was not there before.
  unfoldable pub retain_known_nonces :
      List Bytes → List SnapshotEntry → Result StrictForkError (List SnapshotEntry)
  unfolding is_nonce key_id has_hash
  retain_known_nonces before [] = ok []
  retain_known_nonces before ((key, entry, live_until) ∷ es) =
      let rest = retain_known_nonces before es in
      if is_nonce key
      then (do
        id ← key_id c key
        kept ← rest
        ok (if has_hash id before then (key, entry, live_until) ∷ kept else kept))
      else (rest >>= λ kept. ok ((key, entry, live_until) ∷ kept))

  unfoldable pub strip_new_mock_nonces :
      LedgerSnapshot → LedgerSnapshot → Result StrictForkError LedgerSnapshot
  unfolding nonce_ids retain_known_nonces
  strip_new_mock_nonces before after = do
    ids ← nonce_ids before.ledger_entries
    kept ← retain_known_nonces ids after.ledger_entries
    ok (record after { ledger_entries = kept })
