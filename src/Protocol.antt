-- ===== src/Protocol.antt =====
-- The ledger protocol of a network against the one that the Host executes: `ProtocolPolicy` and
-- `executed_protocol_version` of src/fixture.rs, `restore_network_protocol` of src/runtime.rs.
-- `supported` stands for the Host's interface protocol, a constant of the Host.
pub mod Window
use kanatoko.Prelude.{ℕ, ◌+◌, Bool, true, false, ◌&&◌, ◌||◌, Result, ok, err, ◌==◌, if◌then◌else◌}

pub data Policy : Type 0 where
  exact allow_newer : Policy

pub record UnsupportedProtocol : Type 0 where
  pub found : ℕ
  pub supported : ℕ

abbrev pub newer : ℕ → ℕ
newer supported = supported + 1

allows_newer : Policy → Bool
allows_newer exact = false
allows_newer allow_newer = true

unfoldable pub check : ℕ → Policy → ℕ → Result UnsupportedProtocol (Unit {0})
unfolding allows_newer
check supported policy found =
    if found == supported || (allows_newer policy && found == newer supported)
    then ok tt
    else err (record { found = found; supported = supported })

unfoldable pub executed_version : ℕ → ℕ → ℕ
executed_version supported network = if network == newer supported then supported else network

-- The protocol of a Host snapshot, put back to the network's where the Host left it alone.
unfoldable pub restore : ℕ → ℕ → ℕ → ℕ
unfolding executed_version
restore supported current network =
    if current == executed_version supported network then network else current
