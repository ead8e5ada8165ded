-- ===== src/Tools/Options.antt =====
-- `Options::parse` of src/tools/kanatoko.rs: the arguments of the command-line tool.
pub mod RoundTrip
use kanatoko.Prelude.{
  ℕ, ◌+◌, ◌-◌, ◌*◌, List, [], ◌∷◌, Option, none, some, Bool, true, false, ◌&&◌, ◌||◌, Result, ok,
  err, ◌>>=◌, ◌>>◌, guard, map_err, length, all, holds, ltb, leb, ◌==◌, if◌then◌else◌,
}
use kanatoko.Bytes.{Bytes, Bytes-discrete}
use kanatoko.Tools.Words.{
  help_word, help_long, help_short, capture_word, run_word, scenario_word, rpc_url_option,
  bundle_option, fixture_option, newer_option, candidate_wasm_option, candidate_sha256_option,
  format_option, json_word, text_word, default_rpc_url, default_bundle,
}
use kanatoko.Capture.Hex.{hex}

-- The messages of the errors, with the argument that a message names.
pub data OptionsError : Type 0 where
  expected_scenario : OptionsError
  unsupported_scenario : Bytes → OptionsError
  unknown_capture_option : Bytes → OptionsError
  unknown_run_option : Bytes → OptionsError
  needs_value : Bytes → OptionsError
  unsupported_format : Bytes → OptionsError
  incomplete_candidate : OptionsError
  hash_length : OptionsError
  hash_digit : OptionsError
  hash_form : OptionsError
  unknown_command : Bytes → OptionsError

pub data OutputFormat : Type 0 where
  text : OutputFormat
  json : OutputFormat

pub data CandidateArtifact : Type 0 where
  bundled : CandidateArtifact
  file : Bytes → Bytes → CandidateArtifact

pub record CaptureOptions : Type 0 where
  pub rpc_url : Bytes
  pub bundle : Bytes
  pub allow_newer_protocol : Bool

pub record RunOptions : Type 0 where
  pub fixture : Bytes
  pub candidate : CandidateArtifact
  pub format : OutputFormat
  pub allow_newer_protocol : Bool

-- The variables of the loop over the options of `run`.
pub record RunState : Type 0 where
  pub fixture : Bytes
  pub candidate_path : Option Bytes
  pub candidate_hash : Option Bytes
  pub format : OutputFormat
  pub allow_newer_protocol : Bool

pub data Options : Type 0 where
  help : Options
  capture : CaptureOptions → Options
  run : RunOptions → Options

unfoldable pub is_argument : Bytes → Bytes → Bool
unfolding Bytes-discrete
is_argument word argument = holds (Bytes-discrete argument word)

-- `hex_nibble`, which unlike the one of src/capture.rs fails with a text.
unfoldable pub hex_nibble : ℕ → Result OptionsError ℕ
hex_nibble v =
    if leb b'0' v && leb v b'9'
    then ok (v - b'0')
    else (if leb b'a' v && leb v b'f' then ok (v - b'a' + 10) else err hash_digit)

unfoldable pub hash_pairs : Bytes → Result OptionsError Bytes
unfolding hex_nibble
hash_pairs [] = ok []
hash_pairs (x ∷ []) = ok []
hash_pairs (x ∷ y ∷ rest) = do
  high ← hex_nibble x
  low ← hex_nibble y
  more ← hash_pairs rest
  ok ((high * 16 + low) ∷ more)

unfoldable pub parse_hash : Bytes → Result OptionsError Bytes
unfolding hash_pairs hex Bytes-discrete
parse_hash value = do
  guard ((length value == 64) && all (λ x. ltb x 128) value) hash_length
  hash ← hash_pairs value
  guard (holds (Bytes-discrete (hex hash) value)) hash_form
  ok hash

unfoldable pub parse_format : Bytes → Result OptionsError OutputFormat
unfolding is_argument
parse_format value =
    if is_argument json_word value
    then ok json
    else (if is_argument text_word value then ok text else err (unsupported_format value))

-- What an option of `capture` does with its value; `none` is an option that takes none.
unfoldable pub capture_value : Bytes → Bytes → CaptureOptions → Option CaptureOptions
unfolding is_argument
capture_value option value o =
    if is_argument rpc_url_option option
    then some (record o { rpc_url = value })
    else (if is_argument bundle_option option then some (record o { bundle = value }) else none)

unfoldable pub parse_capture : List Bytes → CaptureOptions → Result OptionsError CaptureOptions
unfolding is_argument capture_value
parse_capture [] o = ok o
parse_capture (option ∷ []) o =
    if is_argument newer_option option
    then ok (record o { allow_newer_protocol = true })
    else (elim (capture_value option [] o) [
      | none ↦ err (unknown_capture_option option)
      | some set ↦ err (needs_value option)
    ])
parse_capture (option ∷ value ∷ rest) o =
    let flagged = parse_capture (value ∷ rest) (record o { allow_newer_protocol = true }) in
    if is_argument newer_option option then flagged else (elim (capture_value option value o) [
      | none ↦ err (unknown_capture_option option)
      | some set ↦ parse_capture rest set
    ])

-- What an option of `run` does with its value; `none` is an option that takes none.
unfoldable pub run_value : Bytes → Bytes → RunState → Option (Result OptionsError RunState)
unfolding is_argument parse_hash parse_format
run_value option value s =
    if is_argument fixture_option option || is_argument bundle_option option
    then some (ok (record s { fixture = value }))
    else (if is_argument candidate_wasm_option option
        then some (ok (record s { candidate_path = some value }))
        else (if is_argument candidate_sha256_option option
            then some (parse_hash value >>= λ hash. ok (record s { candidate_hash = some hash }))
            else (if is_argument format_option option
                then some (parse_format value >>= λ format. ok (record s { format = format }))
                else none)))

unfoldable pub parse_run : List Bytes → RunState → Result OptionsError RunState
unfolding is_argument run_value
parse_run [] s = ok s
parse_run (option ∷ []) s =
    if is_argument newer_option option
    then ok (record s { allow_newer_protocol = true })
    else (elim (run_value option [] s) [
      | none ↦ err (unknown_run_option option)
      | some set ↦ err (needs_value option)
    ])
parse_run (option ∷ value ∷ rest) s =
    let flagged = parse_run (value ∷ rest) (record s { allow_newer_protocol = true }) in
    if is_argument newer_option option then flagged else (elim (run_value option value s) [
      | none ↦ err (unknown_run_option option)
      | some set ↦ set >>= parse_run rest
    ])

unfoldable pub candidate_of : RunState → Result OptionsError CandidateArtifact
candidate_of s = elim (s.candidate_path) [
  | none ↦ elim (s.candidate_hash) [ none ↦ ok bundled | some hash ↦ err incomplete_candidate ]
  | some path ↦ elim (s.candidate_hash) [
    | none ↦ err incomplete_candidate
    | some hash ↦ ok (file path hash)
  ]
]

unfoldable pub run_options : List Bytes → Result OptionsError RunOptions
unfolding parse_run candidate_of
run_options args = do
  s ← parse_run args (record {
    fixture = default_bundle;
    candidate_path = none;
    candidate_hash = none;
    format = text;
    allow_newer_protocol = false;
  })
  candidate ← candidate_of s
  ok (record {
    fixture = s.fixture;
    candidate = candidate;
    format = s.format;
    allow_newer_protocol = s.allow_newer_protocol;
  })

unfoldable pub capture_options : List Bytes → Result OptionsError CaptureOptions
unfolding parse_capture
capture_options args =
    parse_capture args
      (record { rpc_url = default_rpc_url; bundle = default_bundle; allow_newer_protocol = false })

unfoldable pub parse_command : Bytes → List Bytes → Result OptionsError Options
unfolding is_argument capture_options run_options
parse_command command [] = err expected_scenario
parse_command command (scenario ∷ args) =
    if is_argument scenario_word scenario
    then (if is_argument capture_word command
        then capture_options args >>= (λ o. ok (capture o))
        else (if is_argument run_word command
            then run_options args >>= (λ o. ok (run o))
            else err (unknown_command command)))
    else err (unsupported_scenario scenario)

-- `Options::parse`, of the arguments after the program's name.
unfoldable pub parse : List Bytes → Result OptionsError Options
unfolding is_argument parse_command
parse [] = ok help
parse (command ∷ args) =
    if is_argument help_word command
      || (is_argument help_long command || is_argument help_short command)
    then ok help
    else parse_command command args
