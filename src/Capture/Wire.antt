-- ===== src/Capture/Wire.antt =====
-- `HttpTransport` of src/capture.rs: what it makes of the answers of a JSON-RPC server. The request
-- with its retries and the JSON reader are parameters, as are the XDR decoders.
pub mod Bound
use kanatoko.Prelude.{
  ℕ, List, [], ◌∷◌, Option, none, some, Bool, true, false, not, ◌&&◌, Result, ok, err, ◌>>=◌, ◌>>◌,
  guard, ok_or, holds, ◌==◌, if◌then◌else◌,
}
use kanatoko.Bytes.{Bytes, Bytes-discrete}
use kanatoko.Xdr.{Codec, LedgerKey, LedgerKey-discrete, LedgerEntry, LedgerEntryData}
use kanatoko.Capture.{
  Operation, get_network, get_latest_ledger, get_ledger_entries, Network, Anchor, FetchedEntry,
  EntryBatch,
}
use kanatoko.Capture.Hex.{hex}
use kanatoko.Capture.Rpc.{Transport}

pub record NetworkWire : Type 0 where
  pub passphrase : Bytes
  pub protocol_version : ℕ

pub record LatestWire : Type 0 where
  pub id : Bytes
  pub protocol_version : ℕ
  pub sequence : ℕ
  pub close_time : Bytes
  pub header_xdr : Bytes

pub record EntryWire : Type 0 where
  pub key : Bytes
  pub xdr : Bytes
  pub last_modified_ledger_seq : ℕ
  pub live_until_ledger_seq : Option ℕ
  pub ext_xdr : Option Bytes

pub record EntriesWire : Type 0 where
  pub entries : Option (List EntryWire)
  pub latest_ledger : ℕ

-- Of an error only its presence is read.
pub record RpcResponse (T : Type 0) : Type 0 where
  pub result : Option T
  pub failed : Bool

-- The fields of a ledger header that are read.
pub record LedgerHeader : Type 0 where
  pub ledger_seq : ℕ
  pub close_time : ℕ
  pub base_reserve : ℕ

-- The decoders `LedgerHeader::from_xdr`, `LedgerEntryData::from_xdr`, `LedgerEntryExt::from_xdr`.
pub record WireCodec : Type 0 where
  pub header_of_xdr : Bytes → Option LedgerHeader
  pub data_of_xdr : Bytes → Option LedgerEntryData
  pub ext_of_xdr : Bytes → Option Bytes
  -- `str::parse::<u64>`
  pub parse_u64 : Bytes → Option ℕ

-- A request with its retries, up to the response's JSON; `none` where either fails.
pub record Http (World : Type 0) : Type 0 where
  pub network : World → World × Option (RpcResponse NetworkWire)
  pub latest_ledger : World → World × Option (RpcResponse LatestWire)
  pub ledger_entries : List Bytes → World → World × Option (RpcResponse EntriesWire)

-- What follows the response's JSON in `HttpTransport::rpc`.
unfoldable pub rpc : {T : Type 0} → Operation → Option (RpcResponse T) → Result Operation T
rpc operation response = do
  body ← ok_or response operation
  guard (not body.failed) operation
  ok_or body.result operation

-- `unwrap_or_default`
abbrev pub listed : Option (List EntryWire) → List EntryWire
listed (some entries) = entries
listed none = []

abbrev pub mapped : {World A B : Type 0} → (A → B) → World × A → World × B
mapped f (w, a) = (w, f a)

module _ (c : Codec) (x : WireCodec) where
  unfoldable pub decode_wire_entry : Operation → EntryWire → Result Operation FetchedEntry
  decode_wire_entry operation wire = do
    key_bytes ← ok_or (c.base64_decode wire.key) operation
    key ← ok_or (c.key_of_xdr key_bytes) operation
    entry_bytes ← ok_or (c.base64_decode wire.xdr) operation
    entry_data ← ok_or (x.data_of_xdr entry_bytes) operation
    encoded ← ok_or wire.ext_xdr operation
    ext_bytes ← ok_or (c.base64_decode encoded) operation
    ext ← ok_or (x.ext_of_xdr ext_bytes) operation
    let entry : LedgerEntry = record {
      last_modified_ledger_seq = wire.last_modified_ledger_seq;
      entry_data = entry_data;
      ext = ext;
    }
    guard (holds (LedgerKey-discrete (c.to_key entry) key)) operation
    ok (record { entry = entry; live_until = wire.live_until_ledger_seq })

  unfoldable pub decode_wire_entries :
      Operation → List EntryWire → Result Operation (List FetchedEntry)
  unfolding decode_wire_entry
  decode_wire_entries operation [] = ok []
  decode_wire_entries operation (wire ∷ wires) = do
    entry ← decode_wire_entry operation wire
    entries ← decode_wire_entries operation wires
    ok (entry ∷ entries)

  unfoldable pub network_of : Option (RpcResponse NetworkWire) → Result Operation Network
  unfolding rpc
  network_of response = do
    wire ← rpc get_network response
    ok (record { passphrase = wire.passphrase; protocol_version = wire.protocol_version })

  -- Does the header say what the response says?
  unfoldable pub header_agrees : LatestWire → Bytes → LedgerHeader → ℕ → Bool
  unfolding hex
  header_agrees wire bytes header timestamp =
      (header.ledger_seq == wire.sequence)
      && (header.close_time == timestamp)
      && holds (Bytes-discrete (hex (c.sha256 bytes)) wire.id)

  unfoldable pub anchor_of : Option (RpcResponse LatestWire) → Result Operation Anchor
  unfolding rpc header_agrees
  anchor_of response = do
    wire ← rpc get_latest_ledger response
    bytes ← ok_or (c.base64_decode wire.header_xdr) get_latest_ledger
    header ← ok_or (x.header_of_xdr bytes) get_latest_ledger
    timestamp ← ok_or (x.parse_u64 wire.close_time) get_latest_ledger
    guard (header_agrees wire bytes header timestamp) get_latest_ledger
    ok (record {
      sequence = wire.sequence;
      hash = wire.id;
      protocol_version = wire.protocol_version;
      timestamp = timestamp;
      base_reserve = header.base_reserve;
    })

  -- The keys of a request, encoded.
  unfoldable pub encode_keys : List LedgerKey → Result Operation (List Bytes)
  encode_keys [] = ok []
  encode_keys (key ∷ keys) = do
    xdr ← ok_or (c.key_xdr key) get_ledger_entries
    encoded ← encode_keys keys
    ok (c.base64_encode xdr ∷ encoded)

  unfoldable pub batch_of : Option (RpcResponse EntriesWire) → Result Operation EntryBatch
  unfolding rpc decode_wire_entries
  batch_of response = do
    wire ← rpc get_ledger_entries response
    entries ← decode_wire_entries get_ledger_entries (listed wire.entries)
    ok (record { latest_ledger = wire.latest_ledger; entries = entries })

  module _ {World : Type 0} (http : Http World) where
    unfoldable pub request_entries : List LedgerKey → World → World × Result Operation EntryBatch
    unfolding encode_keys batch_of
    request_entries keys w = elim (encode_keys keys) [
      | err operation ↦ (w, err operation)
      | ok encoded ↦ mapped batch_of (http.ledger_entries encoded w)
    ]

    -- `impl Transport for HttpTransport`
    unfoldable pub http_transport : Transport World
    unfolding network_of anchor_of request_entries
    http_transport = record {
      network = λ w. mapped network_of (http.network w);
      latest_ledger = λ w. mapped anchor_of (http.latest_ledger w);
      ledger_entries = request_entries;
    }
