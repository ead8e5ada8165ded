-- ===== src/Tests/Bundles.antt =====
-- Reading a bundle: that of the small captured ledger, under a hash that is one digest for all.
use kanatoko.Prelude.{◌≡◌, refl, some, none, [], ◌∷◌, ok, ok_of}
use kanatoko.Xdr.{
  Codec, ScAddress, ScVal, Durability, ContractExecutable, LedgerKey, LedgerEntry, LedgerEntryData,
  LedgerSnapshot,
}
use kanatoko.Ledger.{contract_instance_key}
use kanatoko.Protocol.{exact}
use kanatoko.Capture.{CapturedFixture}
use kanatoko.Capture.Hex.{hex}
use kanatoko.Capture.Bundle.{CaptureBundle}
use kanatoko.Capture.Bundle.Files.{from_bundle}
use kanatoko.Capture.Bundle.Sound.{IsFaithful, from_bundle-IsFaithful}
use kanatoko.Tests.Toy.{toy_codec, toy_key_of}
use kanatoko.Tests.Fork.{captured, account_1, entry_1, account_id, opened}
use kanatoko.Tests.Captures.{digest}

abbrev one_digest : Codec
one_digest = record toy_codec { sha256 = λ b. digest }

-- A contract instance and its code, whose hash is the one digest.
abbrev instance_entry : LedgerEntry
instance_entry = record {
  last_modified_ledger_seq = 5;
  entry_data = LedgerEntryData.contract_data (record {
    contract = ScAddress.contract (5 ∷ []);
    key = ScVal.ledger_key_contract_instance;
    durability = Durability.persistent;
    val = ScVal.contract_instance (ContractExecutable.wasm digest) [];
    ext = [];
  });
  ext = [];
}

abbrev stored_code : LedgerEntry
stored_code = record {
  last_modified_ledger_seq = 5;
  entry_data = LedgerEntryData.contract_code digest (8 ∷ []) [];
  ext = [];
}

abbrev snapshot : LedgerSnapshot
snapshot = record captured {
  protocol_version = 29;
  network_id = digest;
  max_entry_ttl = 100;
  ledger_entries =
      (account_1, entry_1, none)
      ∷ (contract_instance_key (ScAddress.contract (5 ∷ [])), instance_entry, some 50)
      ∷ (LedgerKey.contract_code digest, stored_code, some 60)
      ∷ [];
}

abbrev pub written : CaptureBundle
written = record {
  schema_version = 2;
  ledger_snapshot = snapshot;
  known_absent = account_id 9 ∷ [];
  report = record {
    discovery_rounds = 1;
    present_entries = 3;
    absent_entries = 1;
    final_replay_rpc_reads = 0;
  };
  provenance = record {
    rpc_origin = b'h' ∷ b't' ∷ b't' ∷ b'p' ∷ b':' ∷ b'/' ∷ b'/' ∷ b'r' ∷ [];
    network_passphrase = b'p' ∷ [];
    ledger_sequence = 7;
    ledger_hash = b'a' ∷ [];
    protocol_version = 29;
  };
  ledger_digest = hex digest;
  inventory_digest = hex digest;
  canonical_digest = hex digest;
}

accepted : (f : CapturedFixture) × (from_bundle one_digest 29 written (b'p' ∷ []) exact ≡ ok f)
unfolding opened from_bundle toy_key_of hex
accepted = ok_of _ refl

from_bundle-IsFaithful_example : IsFaithful one_digest written accepted.0
from_bundle-IsFaithful_example =
    from_bundle-IsFaithful one_digest 29 written (b'p' ∷ []) exact accepted.0 accepted.1
