-- ===== src/Capture/Storage.antt =====
-- `atomic_write` of src/capture.rs, and how a captured fixture is written to a file and read back.
-- The calls of the operating system are a record of parameters.
pub mod Atomic
use kanatoko.Prelude
use kanatoko.Prelude.{
  ℕ, zero, suc, ◌+◌, ◌/◌, ◌%◌, List, [], ◌∷◌, ◌++◌, Option, none, some, Bool, true, false, Result,
  ok, err, ltb, if◌then◌else◌, ok_or,
}
use kanatoko.Bytes.{Bytes}
use kanatoko.Xdr.{Codec, ScAddress}
use kanatoko.Protocol.{Policy, exact, allow_newer}
use kanatoko.Capture.{CaptureError, capture_bundle_io, malformed_capture_bundle, CapturedFixture}
use kanatoko.Capture.Rpc.{Io, resume, returning, ◌>>=◌, ◌>>◌}
use kanatoko.Capture.Origin.{is_empty}
use kanatoko.Capture.Bundle.{CaptureBundle}
use kanatoko.Capture.Bundle.Files.{to_bundle, from_bundle_bytes, BundleReader}

-- `Path`, as its `parent()` and its `file_name()`.
pub record FilePath : Type 0 where
  pub parent : Option Bytes
  pub file_name : Option Bytes

-- What `create_new` does: a new file, or the error that one is there, or another error.
pub data Creation : Type 0 where
  created already_exists denied : Creation

-- The calls on files. A Boolean says whether the call succeeded.
pub record Files (World : Type 0) : Type 0 where
  pub exists : FilePath → World → Bool
  pub read : FilePath → World → World × Option Bytes
  pub create_dir_all : Bytes → World → World × Bool
  pub create_new : FilePath → World → World × Creation
  pub write_all : FilePath → Bytes → World → World × Bool
  pub sync_all : FilePath → World → World × Bool
  pub rename : FilePath → FilePath → World → World × Bool
  pub remove_file : FilePath → World → World × Bool
  -- `File::open` of a directory, and `sync_all` of it
  pub sync_directory : Bytes → World → World × Bool
  -- `TEMP_FILE_COUNTER.fetch_add`, which other threads call too
  pub next_sequence : World → World × ℕ
  pub process_id : ℕ

-- The digits of `{n}`, on fuel that is enough for the numbers of 64 bits.
unfoldable pub decimal_fuel : ℕ → ℕ → Bytes
decimal_fuel zero n = []
decimal_fuel (suc fuel) n =
    let more = decimal_fuel fuel (n / 10) in
    if ltb n 10 then (b'0' + n) ∷ [] else more ++ (b'0' + n % 10) ∷ []

unfoldable pub decimal : ℕ → Bytes
unfolding decimal_fuel
decimal n = decimal_fuel 20 n

-- `{file_name}.tmp-{process}-{sequence}`
unfoldable pub temporary_name : Bytes → ℕ → ℕ → Bytes
unfolding decimal
temporary_name file_name process sequence =
    file_name ++ b'.' ∷ b't' ∷ b'm' ∷ b'p' ∷ b'-' ∷ (decimal process ++ b'-' ∷ decimal sequence)

abbrev current_directory : Bytes
current_directory = b'.' ∷ []

-- The directory that the temporary file is made in.
unfoldable pub directory_of : Option Bytes → Bytes
directory_of none = current_directory
directory_of (some parent) = if is_empty parent then current_directory else parent

abbrev pub io_failed : {World A : Type 0} → Io World CaptureError A
io_failed w = (w, err capture_bundle_io)

abbrev pub checked : {World : Type 0} → World × Bool → World × Result CaptureError (Unit {0})
checked (w, true) = (w, ok tt)
checked (w, false) = (w, err capture_bundle_io)

module _ {World : Type 0} (f : Files World) where
  abbrev pub temporary_path : Bytes → Bytes → ℕ → FilePath
  temporary_path parent file_name sequence = record {
    parent = some parent;
    file_name = some (temporary_name file_name f.process_id sequence);
  }

  -- The loop of `create_temporary_file`, with how many names may still be tried.
  unfoldable pub create_temporary_file : ℕ → Bytes → Bytes → Io World CaptureError FilePath
  unfolding temporary_name
  create_temporary_file zero parent file_name w = io_failed w
  create_temporary_file (suc attempts) parent file_name w =
      let (w', sequence) = f.next_sequence w in
      let (w'', creation) = f.create_new (temporary_path parent file_name sequence) w' in
      elim creation [
        | created ↦ (w'', ok (temporary_path parent file_name sequence))
        | already_exists ↦ create_temporary_file attempts parent file_name w''
        | denied ↦ (w'', err capture_bundle_io)
      ]

  -- A step on the temporary file, which is removed where the step fails.
  unfoldable pub on_temporary : FilePath → (World → World × Bool) → Io World CaptureError (Unit {0})
  on_temporary temporary step w =
      let (w', succeeded) = step w in
      if succeeded then (w', ok tt) else ((f.remove_file temporary w').0, err capture_bundle_io)

  -- What follows the creation of the temporary file.
  unfoldable pub replace_by : FilePath → FilePath → Bytes → Bytes → Io World CaptureError (Unit {0})
  unfolding on_temporary
  replace_by temporary path parent bytes = do
    on_temporary temporary (f.write_all temporary bytes)
    on_temporary temporary (f.sync_all temporary)
    on_temporary temporary (f.rename temporary path)
    λ w. checked (f.sync_directory parent w)

  unfoldable pub atomic_write : FilePath → Bytes → Io World CaptureError (Unit {0})
  unfolding directory_of create_temporary_file replace_by
  atomic_write path bytes w = elim (path.file_name) [
    | none ↦ (w, err malformed_capture_bundle)
    | some file_name ↦
        (do
          temporary ← create_temporary_file 32 (directory_of path.parent) file_name
          replace_by temporary path (directory_of path.parent) bytes)
          w
  ]

-- `serde_json::to_vec_pretty` of a bundle is a parameter, as its readers are.
abbrev pub Printer : Type 0
Printer = CaptureBundle → Option Bytes

abbrev pub pure_result : {World A : Type 0} → Result CaptureError A → Io World CaptureError A
pure_result r w = (w, r)

module _ (c : Codec) (supported : ℕ) where
  -- The bytes that `write_file` writes.
  unfoldable pub bundle_bytes : Printer → CapturedFixture → Result CaptureError Bytes
  unfolding to_bundle
  bundle_bytes print fixture =
      Prelude.◌>>=◌ (to_bundle c supported fixture)
        (λ bundle. ok_or (print bundle) malformed_capture_bundle)

module _ {World : Type 0} (f : Files World) (c : Codec) (supported : ℕ) where
  unfoldable pub write_file :
      Printer → CapturedFixture → FilePath → Io World CaptureError (Unit {0})
  unfolding bundle_bytes atomic_write
  write_file print fixture path = do
    bytes ← pure_result (bundle_bytes c supported print fixture)
    atomic_write f path bytes

  abbrev read_bytes : FilePath → Io World CaptureError Bytes
  read_bytes path w = let (w', found) = f.read path w in (w', ok_or found capture_bundle_io)

  module _ (r : BundleReader) (parse_address : Bytes → Option ScAddress) where
    unfoldable pub from_file_with_policy :
        FilePath → Bytes → Policy → Io World CaptureError CapturedFixture
    unfolding from_bundle_bytes
    from_file_with_policy path passphrase policy = do
      bytes ← read_bytes path
      pure_result (from_bundle_bytes c supported r parse_address bytes passphrase policy)

    unfoldable pub from_file : FilePath → Bytes → Io World CaptureError CapturedFixture
    unfolding from_file_with_policy
    from_file path passphrase = from_file_with_policy path passphrase exact

    unfoldable pub from_file_allowing_newer_protocol :
        FilePath → Bytes → Io World CaptureError CapturedFixture
    unfolding from_file_with_policy
    from_file_allowing_newer_protocol path passphrase =
        from_file_with_policy path passphrase allow_newer
