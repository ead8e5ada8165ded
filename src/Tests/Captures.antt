-- ===== src/Tests/Captures.antt =====
-- The properties of captures and of the RPC at concrete inputs: a replay that reads account 1 of
-- the small captured ledger, and an RPC that serves that ledger.
use kanatoko.Prelude.{
  List, ◌≡◌, refl, ℕ, ◌+◌, ◌*◌, ◌≤◌, ◌<◌, [], ◌∷◌, none, some, true, false, ok, All, length, arith,
  ok_of, Bool, holds, if◌then◌else◌,
}
use kanatoko.Bytes.{Bytes}
use kanatoko.Ledger.{contract_instance_key}
use kanatoko.Xdr.{
  ScAddress, ScVal, Durability, ContractExecutable, LedgerKey, LedgerKey-discrete, LedgerEntry,
  LedgerEntryData, LedgerSnapshot,
}
use kanatoko.Protocol.{exact}
use kanatoko.Capture.{CapturedFixture, FetchedEntry, Anchor, Anchor-discrete, Materialized, KeyMap}
use kanatoko.Capture.Rpc.{Transport}
use kanatoko.Capture.Source.{read, finish}
use kanatoko.Capture.Discover.{Scenario}
use kanatoko.Capture.Validate.{snapshot_from_materialized}
use kanatoko.Capture.Materialize.{CaptureBuilder, materialize}
use kanatoko.Capture.Replay.{replay, replay_state, replay_run}
use kanatoko.Capture.Replay.Offline.{ReadsCovered, IsHeld, replay_source, replay-IsCovered}
use kanatoko.Capture.Hex.{hex, decode_hex_digest}
use kanatoko.Capture.Hex.RoundTrip.{decode_hex_digest-hex}
use kanatoko.Rpc.{
  Reply, status, new_limiter, request_interval, nanoseconds, send_read_rpc_with_retry,
  rpc_max_retry_after,
}
use kanatoko.Rpc.Spacing.{Request, grants, Paced, grants-Paced, request_interval_lem}
use kanatoko.Rpc.Attempts.{send_read_rpc_with_retry_lem}
use kanatoko.Tests.Toy.{toy_codec, toy_key, key_bytes}
use kanatoko.Tests.Fork.{captured, captured_coverage, account_1, entry_1, opened}

limited : 0 < (new_limiter 4).min_interval
unfolding new_limiter
limited = ground arith

abbrev requests : List Request
requests =
    record { asked = 0; late = 9 }
    ∷ record { asked = 5; late = 7 }
    ∷ record { asked = 300000000; late = 0 }
    ∷ []

grants-Paced_example : Paced (new_limiter 4).min_interval (grants (new_limiter 4) requests)
grants-Paced_example = grants-Paced (new_limiter 4) requests limited

request_interval_lem_example :
    (nanoseconds ≤ request_interval 3 * 3)
    × ((n : ℕ) → nanoseconds ≤ n * 3 → request_interval 3 ≤ n)
request_interval_lem_example = request_interval_lem 3 (omega arith)

abbrev unavailable : ℕ → Reply
unavailable n = status 503 none

send_read_rpc_with_retry_lem_example :
    (length (send_read_rpc_with_retry (λ b. none) unavailable).0 ≤ 3)
    × ((send_read_rpc_with_retry (λ b. none) unavailable).1
        ≡ unavailable (length (send_read_rpc_with_retry (λ b. none) unavailable).0))
    × All
        (λ delay. delay ≤ rpc_max_retry_after)
        (send_read_rpc_with_retry (λ b. none) unavailable).0
send_read_rpc_with_retry_lem_example = send_read_rpc_with_retry_lem (λ b. none) unavailable

abbrev pub digest : Bytes
digest =
    0 ∷ 1 ∷ 2 ∷ 3 ∷ 4 ∷ 5 ∷ 6 ∷ 7 ∷ 8 ∷ 9 ∷ 10 ∷ 11 ∷ 12 ∷ 13 ∷ 14 ∷ 15 ∷ 16 ∷ 17 ∷ 18 ∷ 19 ∷ 20
    ∷ 21 ∷ 22 ∷ 23 ∷ 24 ∷ 25 ∷ 26 ∷ 27 ∷ 28 ∷ 171 ∷ 254 ∷ 255 ∷ []

pub digest_fits : All (λ b. b < 256) digest
digest_fits = omega arith

decode_hex_digest-hex_example :
    (decode_hex_digest (hex digest) ≡ ok digest)
    × ((value : Bytes) → decode_hex_digest value ≡ ok digest → value ≡ hex digest)
decode_hex_digest-hex_example = decode_hex_digest-hex digest refl digest_fits

abbrev pub settings_entry : LedgerEntry
settings_entry = record {
  last_modified_ledger_seq = 1;
  entry_data =
      LedgerEntryData.state_archival
        (record { max_entry_ttl = 100; min_temporary_ttl = 1; min_persistent_ttl = 2 });
  ext = [];
}

abbrev pub anchor : Anchor
anchor = record {
  sequence = 7;
  hash = 1 ∷ [];
  protocol_version = 29;
  timestamp = 5;
  base_reserve = 3;
}

-- The world counts the calls.
abbrev pub serving : Transport ℕ
serving = record {
  network = λ w. (w + 1, ok (record { passphrase = []; protocol_version = 29 }));
  latest_ledger = λ w. (w + 1, ok anchor);
  ledger_entries = λ ks w. (
    w + 1,
    ok (record {
      latest_ledger = 7;
      entries =
          record { entry = settings_entry; live_until = none }
          ∷ record { entry = entry_1; live_until = none }
          ∷ [];
    }),
  );
}

abbrev builder : CaptureBuilder
builder = record {
  network_passphrase = [];
  rpc_origin = [];
  protocol_policy = exact;
  max_coherence_attempts = 8;
  max_discovery_rounds = 16;
}

abbrev wanted : KeyMap
wanted = (0 ∷ 0 ∷ 0 ∷ 0 ∷ 0 ∷ 0 ∷ 0 ∷ 0 ∷ 1 ∷ 1 ∷ [], account_1) ∷ []

abbrev fixture : CapturedFixture
fixture = record {
  fixture = record { snapshot = captured; ledger_digest = [] };
  coverage = captured_coverage;
  report = record {
    discovery_rounds = 1;
    present_entries = 1;
    absent_entries = 1;
    inventory_digest = [];
    final_replay_rpc_reads = 0;
  };
  provenance = record {
    rpc_origin = [];
    network_passphrase = [];
    ledger_sequence = 7;
    ledger_hash = [];
    protocol_version = 30;
  };
}

abbrev pub reading : Scenario
reading info snapshot = read account_1 (λ answer. finish false (some (account_1 ∷ [])))

replayable :
    (s : LedgerSnapshot) × (snapshot_from_materialized toy_codec (replay_state fixture) ≡ ok s)
unfolding opened snapshot_from_materialized replay_state
replayable = ok_of _ refl

replayed_ok : replay toy_codec serving fixture reading 0 ≡ (0, ok tt)
unfolding opened replay
replayed_ok = refl

replay-IsCovered_example :
    (◌≡◌ {A = ℕ} 0 0)
    × ((replay_run toy_codec serving fixture reading replayable.0 0).panicked ≡ false)
    × ReadsCovered toy_codec serving captured_coverage
        (reading (replay_state fixture).ledger_info replayable.0)
        (replay_source fixture)
        0
    × ((stored : List LedgerKey) × ((replay_run toy_codec serving fixture reading replayable.0
            0).stored
          ≡ some stored)
        × All
            (IsHeld toy_codec
              (replay_run toy_codec serving fixture reading replayable.0 0).source.local
              captured_coverage)
            stored)
replay-IsCovered_example =
    replay-IsCovered toy_codec serving fixture reading replayable.0 0 0 replayable.1 replayed_ok

-- A ledger with a contract instance and its code, of which a server answers what it is asked for.
abbrev pub pool_key : LedgerKey
pool_key = contract_instance_key (ScAddress.contract (5 ∷ []))

abbrev pub pool_entry : LedgerEntry
pool_entry = record {
  last_modified_ledger_seq = 5;
  entry_data = LedgerEntryData.contract_data (record {
    contract = ScAddress.contract (5 ∷ []);
    key = ScVal.ledger_key_contract_instance;
    durability = Durability.persistent;
    val = ScVal.contract_instance (ContractExecutable.wasm (8 ∷ [])) [];
    ext = [];
  });
  ext = [];
}

abbrev pub code_entry : LedgerEntry
code_entry = record {
  last_modified_ledger_seq = 5;
  entry_data = LedgerEntryData.contract_code (8 ∷ []) (8 ∷ []) [];
  ext = [];
}

abbrev ledger : List FetchedEntry
ledger =
    record { entry = settings_entry; live_until = none }
    ∷ record { entry = pool_entry; live_until = some 50 }
    ∷ record { entry = code_entry; live_until = some 60 }
    ∷ []

asked_for : LedgerKey → List LedgerKey → Bool
unfolding LedgerKey-discrete
asked_for key [] = false
asked_for key (k ∷ ks) = if holds (LedgerKey-discrete key k) then true else asked_for key ks

answers : List LedgerKey → List FetchedEntry → List FetchedEntry
unfolding asked_for
answers ks [] = []
answers ks (f ∷ fs) =
    let rest = answers ks fs in if asked_for (toy_key f.entry.entry_data) ks then f ∷ rest else rest

abbrev pool_server : Transport ℕ
pool_server = record {
  network = λ w. (w + 1, ok (record { passphrase = []; protocol_version = 29 }));
  latest_ledger = λ w. (w + 1, ok anchor);
  ledger_entries = λ ks w. (w + 1, ok (record { latest_ledger = 7; entries = answers ks ledger }));
}

abbrev pool_wanted : KeyMap
pool_wanted = (key_bytes pool_key, pool_key) ∷ []

pool_served :
    (m : Materialized) × (materialize toy_codec pool_server 29 builder pool_wanted 0 ≡ (3, ok m))
unfolding opened materialize Anchor-discrete answers
pool_served = (_, refl)
