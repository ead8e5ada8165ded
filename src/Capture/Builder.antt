-- ===== src/Capture/Builder.antt =====
-- The constructors and the remaining methods of `CaptureBuilder` of src/capture.rs.
use kanatoko.Prelude.{ℕ, List, [], ◌∷◌, Bool, true, false, Result, ok, err, holds, if◌then◌else◌}
use kanatoko.Prelude
use kanatoko.Bytes.{Bytes}
use kanatoko.Xdr.{Codec}
use kanatoko.Protocol.{exact, allow_newer}
use kanatoko.Capture.{CaptureError, Anchor-discrete, CapturedFixture}
use kanatoko.Capture.Rpc.{Transport, Rpc, lift, returning, ◌>>=◌, ◌>>◌}
use kanatoko.Capture.Origin.{redact_rpc_origin}
use kanatoko.Capture.Materialize.{CaptureBuilder, validate_network, current_anchor}
use kanatoko.Capture.Discover.{Scenario, capture_ref, capture_ref_from_keys}
use kanatoko.Capture.Bundle.{max_discovery_rounds}
use kanatoko.Capture.Replay.{fixture_anchor, inventory_keys}

abbrev pub max_coherence_attempts : ℕ
max_coherence_attempts = 8

-- "Public Global Stellar Network ; September 2015"
abbrev pub mainnet_passphrase : Bytes
mainnet_passphrase =
    b'P' ∷ b'u' ∷ b'b' ∷ b'l' ∷ b'i' ∷ b'c' ∷ 32 ∷ b'G' ∷ b'l' ∷ b'o' ∷ b'b' ∷ b'a' ∷ b'l' ∷ 32
    ∷ b'S' ∷ b't' ∷ b'e' ∷ b'l' ∷ b'l' ∷ b'a' ∷ b'r' ∷ 32 ∷ b'N' ∷ b'e' ∷ b't' ∷ b'w' ∷ b'o' ∷ b'r'
    ∷ b'k' ∷ 32 ∷ b';' ∷ 32 ∷ b'S' ∷ b'e' ∷ b'p' ∷ b't' ∷ b'e' ∷ b'm' ∷ b'b' ∷ b'e' ∷ b'r' ∷ 32
    ∷ b'2' ∷ b'0' ∷ b'1' ∷ b'5' ∷ []

-- "Test SDF Network ; September 2015"
abbrev pub testnet_passphrase : Bytes
testnet_passphrase =
    b'T' ∷ b'e' ∷ b's' ∷ b't' ∷ 32 ∷ b'S' ∷ b'D' ∷ b'F' ∷ 32 ∷ b'N' ∷ b'e' ∷ b't' ∷ b'w' ∷ b'o'
    ∷ b'r' ∷ b'k' ∷ 32 ∷ b';' ∷ 32 ∷ b'S' ∷ b'e' ∷ b'p' ∷ b't' ∷ b'e' ∷ b'm' ∷ b'b' ∷ b'e' ∷ b'r'
    ∷ 32 ∷ b'2' ∷ b'0' ∷ b'1' ∷ b'5' ∷ []

-- `CaptureBuilder::rpc`; the transport that it makes is passed beside the builder.
unfoldable pub rpc : Bytes → Bytes → Result CaptureError CaptureBuilder
unfolding redact_rpc_origin
rpc rpc_url network_passphrase = Prelude.◌>>=◌ (redact_rpc_origin rpc_url) (λ rpc_origin.
    ok (record {
      network_passphrase = network_passphrase;
      rpc_origin = rpc_origin;
      protocol_policy = exact;
      max_coherence_attempts = max_coherence_attempts;
      max_discovery_rounds = max_discovery_rounds;
    }))

-- `CaptureBuilder::{mainnet, testnet}`
unfoldable pub mainnet : Bytes → Result CaptureError CaptureBuilder
unfolding rpc
mainnet rpc_url = rpc rpc_url mainnet_passphrase

unfoldable pub testnet : Bytes → Result CaptureError CaptureBuilder
unfolding rpc
testnet rpc_url = rpc rpc_url testnet_passphrase

unfoldable pub allow_newer_protocol : CaptureBuilder → CaptureBuilder
allow_newer_protocol b = record b { protocol_policy = allow_newer }

module _ {World : Type 0} (c : Codec) (t : Transport World) (supported : ℕ)
    (b : CaptureBuilder) where
  -- `capture` and `capture_with_local`
  unfoldable pub capture : Scenario → Rpc World CapturedFixture
  unfolding capture_ref
  capture scenario = capture_ref c t supported b scenario

  unfoldable pub capture_with_inventory : CapturedFixture → Scenario → Rpc World CapturedFixture
  unfolding inventory_keys capture_ref_from_keys
  capture_with_inventory fixture scenario = do
    keys ← lift (inventory_keys c fixture.coverage)
    capture_ref_from_keys c t supported b scenario keys

  unfoldable pub cached_anchor_is_current : CapturedFixture → Rpc World Bool
  unfolding validate_network current_anchor fixture_anchor
  cached_anchor_is_current fixture = do
    validate_network c t supported b
    anchor ← current_anchor c t supported b
    returning (holds (Anchor-discrete anchor (fixture_anchor fixture)))
