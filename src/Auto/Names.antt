-- ===== src/Auto/Names.antt =====
-- `sanitize_cache_name` and `default_cache_path` of src/auto.rs: the cache file that a runner uses
-- when none is given. A text is the list of its characters' codes.
pub mod Sanitized
pub mod Binding
use kanatoko.Prelude.{
  ℕ, zero, suc, ◌+◌, ◌-◌, List, [], ◌∷◌, ◌++◌, Bool, true, false, not, ◌&&◌, ◌||◌, holds, ltb, leb,
  ◌==◌, if◌then◌else◌, length, take,
}
use kanatoko.Bytes.{Bytes}
use kanatoko.Bytes.Encode.{be_bytes, u32_be, field}
use kanatoko.Xdr.{Hash}
use kanatoko.Capture.Hex.{hex}
use kanatoko.Capture.Origin.{is_empty}

abbrev pub default_cache_name_max : ℕ
default_cache_name_max = 80

-- `is_ascii_alphanumeric`, or an underscore
unfoldable pub is_word : ℕ → Bool
is_word x =
    (leb b'0' x && leb x b'9')
    || (leb b'A' x && leb x b'Z')
    || (leb b'a' x && leb x b'z')
    || (x == b'_')

-- `String::push`
unfoldable pub push : Bytes → ℕ → Bytes
push [] x = x ∷ []
push (y ∷ ys) x = y ∷ push ys x

-- The separator that is due before the next character.
unfoldable pub push_separator : Bool → Bytes → Bytes
unfolding push
push_separator separator_pending sanitized =
    if separator_pending
      && not (is_empty sanitized)
      && ltb (length sanitized) default_cache_name_max
    then push sanitized b'-'
    else sanitized

-- The loop over the characters; it ends early where the name is full.
unfoldable pub sanitize_loop : Bytes → Bool → Bytes → Bytes
unfolding is_word push push_separator
sanitize_loop sanitized separator_pending [] = sanitized
sanitize_loop sanitized separator_pending (x ∷ xs) =
    let spaced = push_separator separator_pending sanitized in
    let skipped = sanitize_loop sanitized true xs in
    let pushed = sanitize_loop (push spaced x) false xs in
    if is_word x
    then (if length spaced == default_cache_name_max then spaced else pushed)
    else skipped

-- The loop that pops separators from the end.
unfoldable pub trim_separators : Bytes → Bytes
trim_separators [] = []
trim_separators (x ∷ xs) =
    let rest = trim_separators xs in if is_empty rest && (x == b'-') then [] else x ∷ rest

-- "scenario"
abbrev pub scenario_name : Bytes
scenario_name = b's' ∷ b'c' ∷ b'e' ∷ b'n' ∷ b'a' ∷ b'r' ∷ b'i' ∷ b'o' ∷ []

unfoldable pub sanitize_cache_name : Bytes → Bytes
unfolding sanitize_loop trim_separators
sanitize_cache_name raw =
    let sanitized = trim_separators (sanitize_loop [] false raw) in
    if is_empty sanitized then scenario_name else sanitized

-- b"kanatoko.default-cache.v2"
abbrev pub default_cache_domain : Bytes
default_cache_domain =
    b'k' ∷ b'a' ∷ b'n' ∷ b'a' ∷ b't' ∷ b'o' ∷ b'k' ∷ b'o' ∷ b'.' ∷ b'd' ∷ b'e' ∷ b'f' ∷ b'a' ∷ b'u'
    ∷ b'l' ∷ b't' ∷ b'-' ∷ b'c' ∷ b'a' ∷ b'c' ∷ b'h' ∷ b'e' ∷ b'.' ∷ b'v' ∷ b'2' ∷ []

-- Where a runner is made: the network, the thread's name and the source location of the caller.
pub record CallSite : Type 0 where
  pub network_passphrase : Bytes
  pub thread_name : Bytes
  pub caller_file : Bytes
  pub caller_line : ℕ
  pub caller_column : ℕ

-- What `default_cache_path` feeds the hash.
unfoldable pub cache_preimage : CallSite → Bytes
unfolding be_bytes
cache_preimage s =
    default_cache_domain
    ++ (field s.network_passphrase
        ++ (field s.thread_name
            ++ (field s.caller_file ++ (u32_be s.caller_line ++ u32_be s.caller_column))))

-- `DEFAULT_CACHE_HASH_HEX / 2` bytes of the digest are printed.
abbrev pub default_cache_hash_bytes : ℕ
default_cache_hash_bytes = 6

-- ".kanatoko", ".json"
abbrev pub cache_directory : Bytes
cache_directory = b'.' ∷ b'k' ∷ b'a' ∷ b'n' ∷ b'a' ∷ b't' ∷ b'o' ∷ b'k' ∷ b'o' ∷ []

abbrev pub json_extension : Bytes
json_extension = b'.' ∷ b'j' ∷ b's' ∷ b'o' ∷ b'n' ∷ []

-- The file's name; it stands in `cache_directory`.
unfoldable pub default_cache_name : (Bytes → Hash) → CallSite → Bytes
unfolding sanitize_cache_name cache_preimage hex
default_cache_name sha256 s =
    sanitize_cache_name s.thread_name
    ++ b'-' ∷ (hex (take default_cache_hash_bytes (sha256 (cache_preimage s))) ++ json_extension)
