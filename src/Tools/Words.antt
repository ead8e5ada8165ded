-- ===== src/Tools/Words.antt =====
-- src/tools/kanatoko.rs: the texts that arguments are compared with, and the default values.
use kanatoko.Prelude.{[], ◌∷◌}
use kanatoko.Bytes.{Bytes}

-- "help"
abbrev pub help_word : Bytes
help_word = b'h' ∷ b'e' ∷ b'l' ∷ b'p' ∷ []

-- "--help"
abbrev pub help_long : Bytes
help_long = b'-' ∷ b'-' ∷ b'h' ∷ b'e' ∷ b'l' ∷ b'p' ∷ []

-- "-h"
abbrev pub help_short : Bytes
help_short = b'-' ∷ b'h' ∷ []

-- "capture"
abbrev pub capture_word : Bytes
capture_word = b'c' ∷ b'a' ∷ b'p' ∷ b't' ∷ b'u' ∷ b'r' ∷ b'e' ∷ []

-- "run"
abbrev pub run_word : Bytes
run_word = b'r' ∷ b'u' ∷ b'n' ∷ []

-- "aquarius-cp"
abbrev pub scenario_word : Bytes
scenario_word = b'a' ∷ b'q' ∷ b'u' ∷ b'a' ∷ b'r' ∷ b'i' ∷ b'u' ∷ b's' ∷ b'-' ∷ b'c' ∷ b'p' ∷ []

-- "--rpc-url"
abbrev pub rpc_url_option : Bytes
rpc_url_option = b'-' ∷ b'-' ∷ b'r' ∷ b'p' ∷ b'c' ∷ b'-' ∷ b'u' ∷ b'r' ∷ b'l' ∷ []

-- "--bundle"
abbrev pub bundle_option : Bytes
bundle_option = b'-' ∷ b'-' ∷ b'b' ∷ b'u' ∷ b'n' ∷ b'd' ∷ b'l' ∷ b'e' ∷ []

-- "--fixture"
abbrev pub fixture_option : Bytes
fixture_option = b'-' ∷ b'-' ∷ b'f' ∷ b'i' ∷ b'x' ∷ b't' ∷ b'u' ∷ b'r' ∷ b'e' ∷ []

-- "--allow-newer-protocol"
abbrev pub newer_option : Bytes
newer_option =
    b'-' ∷ b'-' ∷ b'a' ∷ b'l' ∷ b'l' ∷ b'o' ∷ b'w' ∷ b'-' ∷ b'n' ∷ b'e' ∷ b'w' ∷ b'e' ∷ b'r' ∷ b'-'
    ∷ b'p' ∷ b'r' ∷ b'o' ∷ b't' ∷ b'o' ∷ b'c' ∷ b'o' ∷ b'l' ∷ []

-- "--candidate-wasm"
abbrev pub candidate_wasm_option : Bytes
candidate_wasm_option =
    b'-' ∷ b'-' ∷ b'c' ∷ b'a' ∷ b'n' ∷ b'd' ∷ b'i' ∷ b'd' ∷ b'a' ∷ b't' ∷ b'e' ∷ b'-' ∷ b'w' ∷ b'a'
    ∷ b's' ∷ b'm' ∷ []

-- "--candidate-sha256"
abbrev pub candidate_sha256_option : Bytes
candidate_sha256_option =
    b'-' ∷ b'-' ∷ b'c' ∷ b'a' ∷ b'n' ∷ b'd' ∷ b'i' ∷ b'd' ∷ b'a' ∷ b't' ∷ b'e' ∷ b'-' ∷ b's' ∷ b'h'
    ∷ b'a' ∷ b'2' ∷ b'5' ∷ b'6' ∷ []

-- "--format"
abbrev pub format_option : Bytes
format_option = b'-' ∷ b'-' ∷ b'f' ∷ b'o' ∷ b'r' ∷ b'm' ∷ b'a' ∷ b't' ∷ []

-- "json"
abbrev pub json_word : Bytes
json_word = b'j' ∷ b's' ∷ b'o' ∷ b'n' ∷ []

-- "text"
abbrev pub text_word : Bytes
text_word = b't' ∷ b'e' ∷ b'x' ∷ b't' ∷ []

-- "https://mainnet.sorobanrpc.com"
abbrev pub default_rpc_url : Bytes
default_rpc_url =
    b'h' ∷ b't' ∷ b't' ∷ b'p' ∷ b's' ∷ b':' ∷ b'/' ∷ b'/' ∷ b'm' ∷ b'a' ∷ b'i' ∷ b'n' ∷ b'n' ∷ b'e'
    ∷ b't' ∷ b'.' ∷ b's' ∷ b'o' ∷ b'r' ∷ b'o' ∷ b'b' ∷ b'a' ∷ b'n' ∷ b'r' ∷ b'p' ∷ b'c' ∷ b'.'
    ∷ b'c' ∷ b'o' ∷ b'm' ∷ []

-- "fixtures/mainnet/aquarius-xlm-usdc-cp/capture.json"
abbrev pub default_bundle : Bytes
default_bundle =
    b'f' ∷ b'i' ∷ b'x' ∷ b't' ∷ b'u' ∷ b'r' ∷ b'e' ∷ b's' ∷ b'/' ∷ b'm' ∷ b'a' ∷ b'i' ∷ b'n' ∷ b'n'
    ∷ b'e' ∷ b't' ∷ b'/' ∷ b'a' ∷ b'q' ∷ b'u' ∷ b'a' ∷ b'r' ∷ b'i' ∷ b'u' ∷ b's' ∷ b'-' ∷ b'x'
    ∷ b'l' ∷ b'm' ∷ b'-' ∷ b'u' ∷ b's' ∷ b'd' ∷ b'c' ∷ b'-' ∷ b'c' ∷ b'p' ∷ b'/' ∷ b'c' ∷ b'a'
    ∷ b'p' ∷ b't' ∷ b'u' ∷ b'r' ∷ b'e' ∷ b'.' ∷ b'j' ∷ b's' ∷ b'o' ∷ b'n' ∷ []
