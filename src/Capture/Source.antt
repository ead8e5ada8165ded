-- ===== src/Capture/Source.antt =====
-- `TrackingSource` of src/capture.rs: the snapshot source that answers a scenario's lookups, and
-- what it keeps track of.
use kanatoko.Prelude.{
  ℕ, suc, List, [], ◌∷◌, Option, none, some, Bool, Result, ok, err, if◌then◌else◌,
}
use kanatoko.Bytes.{Bytes}
use kanatoko.BTree.{get, insert, insert_key}
use kanatoko.Xdr.{Codec, Hash, ScAddress, LedgerKey}
use kanatoko.Ledger.{Coverage}
use kanatoko.Host.{Answer}
use kanatoko.Strict.Source.{entry_of}
use kanatoko.Capture.{
  Operation, ledger_key_encode, get_ledger_entries, EntryBatch, LocalLedger, owns, fetched_state,
  KeyMap,
}
use kanatoko.Capture.Rpc.{Transport}
use kanatoko.Capture.Validate.{validate_batch}

-- `online` says whether the source has a transport; the failure is the first operation that failed.
pub record TrackingSource : Type 0 where
  pub cache : Coverage
  pub requested : KeyMap
  pub unknown : List Bytes
  pub online : Bool
  pub local : LocalLedger
  pub network_protocol_version : ℕ
  pub rpc_reads : ℕ
  pub failure : Option Operation

unfoldable pub new_source : Coverage → Bool → LocalLedger → ℕ → TrackingSource
new_source cache online local network_protocol_version = record {
  cache = cache;
  requested = [];
  unknown = [];
  online = online;
  local = local;
  network_protocol_version = network_protocol_version;
  rpc_reads = 0;
  failure = none;
}

abbrev host_error : Answer
host_error = none

abbrev fail_source : Operation → TrackingSource → TrackingSource
fail_source operation s = record s { failure = some operation }

module _ {World : Type 0} (c : Codec) (t : Transport World) where
  -- What is cached of the batch that answers a lookup.
  accept_batch :
      TrackingSource → LedgerKey → Bytes → Result Operation EntryBatch → TrackingSource × Answer
  unfolding validate_batch get insert fetched_state entry_of
  accept_batch s key id (err operation) = (fail_source operation s, host_error)
  accept_batch s key id (ok batch) = elim (validate_batch c (key ∷ []) batch.entries) [
    | err e ↦ (fail_source get_ledger_entries s, host_error)
    | ok returned ↦ (
      record s { cache = insert id (fetched_state (get id returned)) s.cache },
      some (entry_of (fetched_state (get id returned))),
    )
  ]

  -- A lookup of a key that is not cached: recorded as unknown offline, fetched online.
  fetch : TrackingSource → LedgerKey → Bytes → World → World × TrackingSource × Answer
  unfolding accept_batch
  fetch s key id w =
      if s.online
      then (let (w', r) = t.ledger_entries (key ∷ []) w in
          let a = accept_batch (record s { rpc_reads = suc s.rpc_reads }) key id r in
          (w', a.0, a.1))
      else (w, record s { unknown = insert_key id s.unknown }, host_error)

  -- A lookup of a key of the network: noted, then answered from the cache or fetched.
  lookup_network : TrackingSource → LedgerKey → Bytes → World → World × TrackingSource × Answer
  unfolding fetch get insert entry_of
  lookup_network s key id w =
      let noted = record s { requested = insert id key s.requested } in
      elim (get id s.cache) [
        | some state ↦ (w, noted, some (entry_of state))
        | none ↦ fetch noted key id w
      ]

  -- `TrackingSource::get`
  unfoldable pub get_tracking : TrackingSource → LedgerKey → World → World × TrackingSource × Answer
  unfolding lookup_network owns
  get_tracking s key w = elim (s.failure) [
    | some operation ↦ (w, s, host_error)
    | none ↦ elim (c.key_xdr key) [
      | none ↦ (w, fail_source ledger_key_encode s, host_error)
      | some id ↦ if owns s.local key then (w, s, some none) else lookup_network s key id w
    ]
  ]

-- A scenario over its environment, as far as the program sees it: lookups in its source, whose
-- answers decide how it goes on, addresses and code hashes that it marks as local, and how it ends:
-- whether it panicked, and the stored keys of its environment (`none` where inspecting them fails).
pub data Script : Type 0 where
  read : LedgerKey → (Answer → Script) → Script
  mark_address : ScAddress → Script → Script
  mark_code : Hash → Script → Script
  finish : Bool → Option (List LedgerKey) → Script

pub record Ran (World : Type 0) : Type 0 where
  pub world : World
  pub source : TrackingSource
  pub panicked : Bool
  pub stored : Option (List LedgerKey)

abbrev pub own_address : ScAddress → TrackingSource → TrackingSource
own_address a s = record s { local = record s.local { addresses = a ∷ s.local.addresses } }

abbrev pub own_code : Hash → TrackingSource → TrackingSource
own_code h s = record s { local = record s.local { code_hashes = h ∷ s.local.code_hashes } }

module _ {World : Type 0} (c : Codec) (t : Transport World) where
  unfoldable pub run_script : Script → TrackingSource → World → Ran World
  unfolding get_tracking
  run_script (read key next) s w = let g = get_tracking c t s key w in run_script (next g.2) g.1 g.0
  run_script (mark_address a rest) s w = run_script rest (own_address a s) w
  run_script (mark_code h rest) s w = run_script rest (own_code h s) w
  run_script (finish panicked stored) s w = record {
    world = w;
    source = s;
    panicked = panicked;
    stored = stored;
  }
