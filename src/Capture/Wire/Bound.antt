-- ===== src/Capture/Wire/Bound.antt =====
-- What `HttpTransport` of src/capture.rs accepts is bound to the XDR that came with it.
use kanatoko.Prelude.{◌≡◌, List, [], ◌∷◌, Option, some, false}
use kanatoko.Bytes.{Bytes}
use kanatoko.Xdr.{Codec, LedgerKey}
use kanatoko.Capture.{Anchor, FetchedEntry, EntryBatch}
use kanatoko.Capture.Hex.{hex}
use kanatoko.Capture.Wire.{
  LatestWire, EntryWire, EntriesWire, RpcResponse, LedgerHeader, WireCodec, Http, listed,
}

-- The response is a body without an error that has this result.
abbrev pub Gives : {T : Type 0} → Option (RpcResponse T) → T → Type 0
Gives {T} response wire =
    (body : RpcResponse T) × (response ≡ some body)
    × (body.failed ≡ false)
    × (body.result ≡ some wire)

module _ (c : Codec) (x : WireCodec) where
  -- The anchor has what the response says, and its header, decoded from the response, agrees.
  abbrev pub IsHeader : Option (RpcResponse LatestWire) → Anchor → Type 0
  IsHeader response a =
      (wire : LatestWire) × (bytes : Bytes) × (header : LedgerHeader) × Gives response wire
      × (c.base64_decode wire.header_xdr ≡ some bytes)
      × (x.header_of_xdr bytes ≡ some header)
      × (a.sequence ≡ wire.sequence)
      × (a.protocol_version ≡ wire.protocol_version)
      × (a.sequence ≡ header.ledger_seq)
      × (a.timestamp ≡ header.close_time)
      × (a.base_reserve ≡ header.base_reserve)
      × (a.hash ≡ wire.id)
      × (a.hash ≡ hex (c.sha256 bytes))

  -- The entry is the one that the wire entry encodes, and the wire entry's key is the entry's key.
  abbrev pub IsDecoded : EntryWire → FetchedEntry → Type 0
  IsDecoded wire e =
      (key_bytes : Bytes) × (entry_bytes : Bytes) × (c.base64_decode wire.key ≡ some key_bytes)
      × (c.key_of_xdr key_bytes ≡ some (c.to_key e.entry))
      × (c.base64_decode wire.xdr ≡ some entry_bytes)
      × (x.data_of_xdr entry_bytes ≡ some e.entry.entry_data)
      × (e.entry.last_modified_ledger_seq ≡ wire.last_modified_ledger_seq)
      × (e.live_until ≡ wire.live_until_ledger_seq)

  -- The entries are those of the wire entries, one by one.
  pub AreDecoded : List EntryWire → List FetchedEntry → Type 0
  AreDecoded [] [] = Unit {0}
  AreDecoded (wire ∷ wires) (e ∷ es) = IsDecoded wire e × AreDecoded wires es
  AreDecoded _ _ = ⊥

  -- The batch is what the response says, entry by entry.
  abbrev pub IsBatch : Option (RpcResponse EntriesWire) → EntryBatch → Type 0
  IsBatch response batch =
      (wire : EntriesWire) × Gives response wire
      × (batch.latest_ledger ≡ wire.latest_ledger)
      × AreDecoded (listed wire.entries) batch.entries

  -- The texts are the Base64 forms of the keys' XDR, one by one.
  pub AreEncoded : List LedgerKey → List Bytes → Type 0
  AreEncoded [] [] = Unit {0}
  AreEncoded (key ∷ keys) (text ∷ texts) =
      ((xdr : Bytes) × (c.key_xdr key ≡ some xdr) × (text ≡ c.base64_encode xdr))
      × AreEncoded keys texts
  AreEncoded _ _ = ⊥

  module _ {World : Type 0} (http : Http World) where
    -- The batch is what the server answered to the encoded keys.
    abbrev pub IsAnswer : List LedgerKey → World → EntryBatch → Type 0
    IsAnswer keys w batch =
        (texts : List Bytes) × AreEncoded keys texts × IsBatch (http.ledger_entries texts w).1 batch
