-- ===== src/Auto/Settings.antt =====
-- The settings of `AutoRunner` of src/auto.rs, and the methods that change them.
use kanatoko.Prelude.{ℕ, [], ◌∷◌, Option, none, some, Bool, true, false, if◌then◌else◌}
use kanatoko.Bytes.{Bytes}
use kanatoko.Xdr.{Hash}
use kanatoko.Protocol.{Policy, exact, allow_newer}
use kanatoko.Capture.Storage.{FilePath}
use kanatoko.Capture.Builder.{mainnet_passphrase, testnet_passphrase}
use kanatoko.Auto.Names.{CallSite, cache_directory, default_cache_name}

-- The runner's source is the URL of an RPC provider.
pub record AutoRunner : Type 0 where
  pub rpc_url : Bytes
  pub network_passphrase : Bytes
  pub rpc_rate_limit : ℕ
  pub protocol_policy : Policy
  pub cache : Option FilePath
  pub offline : Bool
  pub refresh : Bool

unfoldable pub with_rpc_url : Bytes → Bytes → AutoRunner
with_rpc_url rpc_url network_passphrase = record {
  rpc_url = rpc_url;
  network_passphrase = network_passphrase;
  rpc_rate_limit = 0;
  protocol_policy = exact;
  cache = none;
  offline = false;
  refresh = false;
}

-- The methods that change the runner's settings.
unfoldable pub with_rpc : Bytes → AutoRunner → AutoRunner
with_rpc url r = record r { rpc_url = url }

unfoldable pub rpc_rate_limit : ℕ → AutoRunner → AutoRunner
rpc_rate_limit max_requests_per_second r = record r { rpc_rate_limit = max_requests_per_second }

unfoldable pub allow_newer_protocol : AutoRunner → AutoRunner
allow_newer_protocol r = record r { protocol_policy = allow_newer }

unfoldable pub cache : FilePath → AutoRunner → AutoRunner
cache path r = record r { cache = some path }

unfoldable pub offline : AutoRunner → AutoRunner
offline r = record r { offline = true }

unfoldable pub refresh : AutoRunner → AutoRunner
refresh r = record r { refresh = true }

unfoldable pub default_cache_path : (Bytes → Hash) → CallSite → FilePath
unfolding default_cache_name
default_cache_path sha256 site = record {
  parent = some cache_directory;
  file_name = some (default_cache_name sha256 site);
}

-- `network_runner`; the thread's name is part of the call site.
unfoldable pub network_runner : (Bytes → Hash) → Bytes → CallSite → AutoRunner
unfolding with_rpc_url cache default_cache_path
network_runner sha256 rpc_url site =
    cache (default_cache_path sha256 site) (with_rpc_url rpc_url site.network_passphrase)

-- `self.protocol_policy == ProtocolPolicy::AllowNewer`
unfoldable pub is_newer : Policy → Bool
is_newer exact = false
is_newer allow_newer = true

-- "https://mainnet.sorobanrpc.com"
abbrev pub default_mainnet_rpc_url : Bytes
default_mainnet_rpc_url =
    b'h' ∷ b't' ∷ b't' ∷ b'p' ∷ b's' ∷ b':' ∷ b'/' ∷ b'/' ∷ b'm' ∷ b'a' ∷ b'i' ∷ b'n' ∷ b'n' ∷ b'e'
    ∷ b't' ∷ b'.' ∷ b's' ∷ b'o' ∷ b'r' ∷ b'o' ∷ b'b' ∷ b'a' ∷ b'n' ∷ b'r' ∷ b'p' ∷ b'c' ∷ b'.'
    ∷ b'c' ∷ b'o' ∷ b'm' ∷ []

-- "https://soroban-testnet.stellar.org"
abbrev pub default_testnet_rpc_url : Bytes
default_testnet_rpc_url =
    b'h' ∷ b't' ∷ b't' ∷ b'p' ∷ b's' ∷ b':' ∷ b'/' ∷ b'/' ∷ b's' ∷ b'o' ∷ b'r' ∷ b'o' ∷ b'b' ∷ b'a'
    ∷ b'n' ∷ b'-' ∷ b't' ∷ b'e' ∷ b's' ∷ b't' ∷ b'n' ∷ b'e' ∷ b't' ∷ b'.' ∷ b's' ∷ b't' ∷ b'e'
    ∷ b'l' ∷ b'l' ∷ b'a' ∷ b'r' ∷ b'.' ∷ b'o' ∷ b'r' ∷ b'g' ∷ []

-- `mainnet` and `testnet`, called at a place of the program by a thread.
unfoldable pub mainnet_runner : (Bytes → Hash) → CallSite → AutoRunner
unfolding network_runner
mainnet_runner sha256 site =
    network_runner sha256 default_mainnet_rpc_url
      (record site { network_passphrase = mainnet_passphrase })

unfoldable pub testnet_runner : (Bytes → Hash) → CallSite → AutoRunner
unfolding network_runner
testnet_runner sha256 site =
    network_runner sha256 default_testnet_rpc_url
      (record site { network_passphrase = testnet_passphrase })

-- `path.unwrap_or_default()`
abbrev pub path_or_default : Option FilePath → FilePath
path_or_default (some path) = path
path_or_default none = record { parent = none; file_name = none }

-- `cache.filter(|_| !self.refresh)`
unfoldable pub usable_cache : AutoRunner → Option FilePath
usable_cache r = if r.refresh then none else r.cache
