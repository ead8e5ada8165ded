-- ===== src/Fixture.antt =====
-- src/fixture.rs: immutable ledger snapshots, how they are loaded, and their canonical digest.
pub mod Order
pub mod Preimage
pub mod Binding
use kanatoko.Prelude.{
  ℕ, suc, List, [], ◌∷◌, ◌++◌, Option, none, some, Bool, true, false, Result, ok, err, ◌>>=◌, ◌>>◌,
  guard, ok_or, map_err, holds, length, ite,
}
use Prim.Native.Nat.{Ordering}
use kanatoko.Bytes.{Bytes, Bytes-discrete, cmp}
use kanatoko.Bytes.Encode.{be_bytes, u32_be, u64_be, field}
use kanatoko.Xdr.{
  Codec, Hash, LedgerKey, LedgerKey-discrete, LedgerEntry, LedgerSnapshot, SnapshotEntry,
}
use kanatoko.Protocol
use kanatoko.Protocol.{Policy, UnsupportedProtocol, check, executed_version}

-- How `LedgerSnapshot::read_file` fails: an I/O error, or a Serde error of either kind.
pub data ReadError : Type 0 where
  io serde_io serde_syntax : ReadError

pub data FixtureError : Type 0 where
  read : Bytes → ReadError → FixtureError
  parse : Bytes → ReadError → FixtureError
  unsupported_protocol : UnsupportedProtocol → FixtureError
  -- expected, found
  network_mismatch : Hash → Hash → FixtureError
  ledger_key_mismatch : ℕ → FixtureError
  duplicate_ledger_key : Bytes → FixtureError
  xdr : FixtureError

pub record FrozenFixture : Type 0 where
  pub snapshot : LedgerSnapshot
  pub ledger_digest : Hash

-- An entry as the digest sees it: key XDR, entry XDR, live-until ledger.
pub record Encoded : Type 0 where
  pub key : Bytes
  pub entry : Bytes
  pub live_until : Option ℕ

-- b"KANATOKO\0LEDGER-SNAPSHOT\0V1\0"
abbrev pub ledger_digest_domain : Bytes
ledger_digest_domain =
    b'K' ∷ b'A' ∷ b'N' ∷ b'A' ∷ b'T' ∷ b'O' ∷ b'K' ∷ b'O' ∷ 0 ∷ b'L' ∷ b'E' ∷ b'D' ∷ b'G' ∷ b'E'
    ∷ b'R' ∷ b'-' ∷ b'S' ∷ b'N' ∷ b'A' ∷ b'P' ∷ b'S' ∷ b'H' ∷ b'O' ∷ b'T' ∷ 0 ∷ b'V' ∷ b'1' ∷ 0 ∷ []

module _ (c : Codec) where
  -- One round of the first loop: the key must be the entry's own, and both must encode.
  unfoldable pub encode_entry : ℕ → SnapshotEntry → Result FixtureError Encoded
  encode_entry index (key, entry, live_until) = do
    guard (holds (LedgerKey-discrete key (c.to_key entry))) (ledger_key_mismatch index)
    key_xdr ← ok_or (c.key_xdr key) xdr
    entry_xdr ← ok_or (c.entry_xdr entry) xdr
    ok (record { key = key_xdr; entry = entry_xdr; live_until = live_until })

  unfoldable pub encode_entries : ℕ → List SnapshotEntry → Result FixtureError (List Encoded)
  unfolding encode_entry
  encode_entries index [] = ok []
  encode_entries index (e ∷ es) = do
    x ← encode_entry index e
    xs ← encode_entries (suc index) es
    ok (x ∷ xs)

-- `sort_unstable_by` on the key XDR.
unfoldable pub insert_sorted : Encoded → List Encoded → List Encoded
unfolding cmp
insert_sorted x [] = x ∷ []
insert_sorted x (y ∷ ys) =
    let rest = insert_sorted x ys in
    elim (cmp x.key y.key) [ Ordering.gt ↦ y ∷ rest | _ ↦ x ∷ y ∷ ys ]

unfoldable pub sort_by_key : List Encoded → List Encoded
unfolding insert_sorted
sort_by_key [] = []
sort_by_key (x ∷ xs) = insert_sorted x (sort_by_key xs)

-- The loop over `windows(2)`.
unfoldable pub reject_duplicates : List Encoded → Result FixtureError (Unit {0})
reject_duplicates [] = ok tt
reject_duplicates (x ∷ []) = ok tt
reject_duplicates (x ∷ y ∷ r) =
    let rest = reject_duplicates (y ∷ r) in
    ite (Bytes-discrete x.key y.key) (err (duplicate_ledger_key x.key)) rest

abbrev pub live_until_bytes : Option ℕ → Bytes
live_until_bytes (some sequence) = 1 ∷ u32_be sequence
live_until_bytes none = 0 ∷ []

abbrev pub encoded_bytes : Encoded → Bytes
encoded_bytes x = field x.key ++ (field x.entry ++ live_until_bytes x.live_until)

abbrev pub entries_bytes : List Encoded → Bytes
entries_bytes [] = []
entries_bytes (x ∷ xs) = encoded_bytes x ++ entries_bytes xs

-- What the hash is fed for the fields of the snapshot and its sorted entries.
unfoldable pub preimage : LedgerSnapshot → List Encoded → Bytes
unfolding be_bytes
preimage s sorted =
    ledger_digest_domain
    ++ (u32_be s.protocol_version
        ++ (u32_be s.sequence_number
            ++ (u64_be s.timestamp
                ++ (s.network_id
                    ++ (u32_be s.base_reserve
                        ++ (u32_be s.min_persistent_entry_ttl
                            ++ (u32_be s.min_temp_entry_ttl
                                ++ (u32_be s.max_entry_ttl
                                    ++ (u64_be (length sorted) ++ entries_bytes sorted)))))))))

module _ (c : Codec) where
  unfoldable pub canonical_digest : LedgerSnapshot → Result FixtureError Hash
  unfolding encode_entries sort_by_key reject_duplicates preimage
  canonical_digest s = do
    encoded ← encode_entries c 0 s.ledger_entries
    let sorted = sort_by_key encoded
    reject_duplicates sorted
    ok (c.sha256 (preimage s sorted))

  unfoldable pub from_snapshot_with_policy :
      ℕ → LedgerSnapshot → Bytes → Policy → Result FixtureError FrozenFixture
  unfolding check canonical_digest
  from_snapshot_with_policy supported snapshot expected_passphrase policy = do
    map_err unsupported_protocol (check supported policy snapshot.protocol_version)
    let expected = c.sha256 expected_passphrase
    guard (holds (Bytes-discrete snapshot.network_id expected))
        (network_mismatch expected snapshot.network_id)
    digest ← canonical_digest snapshot
    ok (record { snapshot = snapshot; ledger_digest = digest })

  unfoldable pub from_snapshot : ℕ → LedgerSnapshot → Bytes → Result FixtureError FrozenFixture
  unfolding from_snapshot_with_policy
  from_snapshot supported snapshot passphrase =
      from_snapshot_with_policy supported snapshot passphrase Policy.exact

  unfoldable pub from_snapshot_allowing_newer_protocol :
      ℕ → LedgerSnapshot → Bytes → Result FixtureError FrozenFixture
  unfolding from_snapshot_with_policy
  from_snapshot_allowing_newer_protocol supported snapshot passphrase =
      from_snapshot_with_policy supported snapshot passphrase Policy.allow_newer

-- The classification of a read error.
abbrev read_failure : Bytes → ReadError → FixtureError
read_failure path io = read path io
read_failure path serde_io = read path serde_io
read_failure path serde_syntax = parse path serde_syntax

-- `read_file` is the snapshot library's reader, over the file system.
module _ (c : Codec) (read_file : Bytes → Result ReadError LedgerSnapshot) where
  unfoldable pub from_file_with_policy :
      ℕ → Bytes → Bytes → Policy → Result FixtureError FrozenFixture
  unfolding from_snapshot_with_policy
  from_file_with_policy supported path expected_passphrase policy = do
    snapshot ← map_err (read_failure path) (read_file path)
    from_snapshot_with_policy c supported snapshot expected_passphrase policy

abbrev pub fixture_executed_version : ℕ → FrozenFixture → ℕ
fixture_executed_version supported f = executed_version supported f.snapshot.protocol_version
