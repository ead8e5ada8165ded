-- ===== src/Capture/Origin.antt =====
-- `redact_rpc_origin` of src/capture.rs: a URL cut down to its scheme, host and port.
use kanatoko.Prelude.{
  ℕ, [], ◌∷◌, ◌++◌, Option, none, some, Bool, true, false, ◌||◌, not, Result, ok, ◌>>=◌, ◌>>◌,
  guard, ok_or, holds, ◌==◌, if◌then◌else◌,
}
use kanatoko.Bytes.{Bytes, Bytes-discrete}
use kanatoko.Capture.{CaptureError, invalid_rpc_url}

abbrev pub scheme_separator : Bytes
scheme_separator = b':' ∷ b'/' ∷ b'/' ∷ []

abbrev cons_first : ℕ → Option (Bytes × Bytes) → Option (Bytes × Bytes)
cons_first x none = none
cons_first x (some (before, after)) = some (x ∷ before, after)

-- What follows the separator, where the string starts with it.
unfoldable pub after_separator : Bytes → Option Bytes
after_separator (x ∷ y ∷ z ∷ rest) = elim (Bytes-discrete (x ∷ y ∷ z ∷ []) scheme_separator) [
  | yes e ↦ some rest
  | no n ↦ none
]
after_separator _ = none

-- `split_once("://")`
unfoldable pub split_scheme : Bytes → Option (Bytes × Bytes)
unfolding after_separator
split_scheme [] = none
split_scheme (x ∷ xs) =
    let later = cons_first x (split_scheme xs) in
    elim (after_separator (x ∷ xs)) [ some rest ↦ some ([], rest) | none ↦ later ]

abbrev pub ends_authority : ℕ → Bool
ends_authority x = (x == b'/') || (x == b'?') || (x == b'#')

-- The first part of `split(['/', '?', '#'])`.
unfoldable pub authority_of : Bytes → Bytes
authority_of [] = []
authority_of (x ∷ xs) = if ends_authority x then [] else x ∷ authority_of xs

-- What follows the last '@', if there is one.
unfoldable pub after_last_at : Bytes → Option Bytes
after_last_at [] = none
after_last_at (x ∷ xs) =
    let later = after_last_at xs in
    elim later [ some host ↦ some host | none ↦ if x == b'@' then some xs else none ]

unfoldable pub host_of : Bytes → Bytes
unfolding after_last_at
host_of authority = elim (after_last_at authority) [ some host ↦ host | none ↦ authority ]

abbrev http : Bytes
http = b'h' ∷ b't' ∷ b't' ∷ b'p' ∷ []

abbrev https : Bytes
https = b'h' ∷ b't' ∷ b't' ∷ b'p' ∷ b's' ∷ []

unfoldable pub is_http : Bytes → Bool
is_http scheme = holds (Bytes-discrete scheme http) || holds (Bytes-discrete scheme https)

abbrev pub is_empty : Bytes → Bool
is_empty [] = true
is_empty (x ∷ xs) = false

unfoldable pub redact_rpc_origin : Bytes → Result CaptureError Bytes
unfolding split_scheme is_http authority_of host_of
redact_rpc_origin raw = do
  parts ← ok_or (split_scheme raw) invalid_rpc_url
  guard (is_http parts.0) invalid_rpc_url
  guard (not (is_empty (authority_of parts.1))) invalid_rpc_url
  guard (not (is_empty (host_of (authority_of parts.1)))) invalid_rpc_url
  ok (parts.0 ++ (scheme_separator ++ host_of (authority_of parts.1)))
