-- ===== src/Tests/Runs.antt =====
-- The properties of files, cache names, the HTTP transport and automatic runs at concrete inputs: a
-- disk in memory, and a server of the small captured ledger that leaves the disk alone.
use kanatoko.Prelude.{◌≡◌, ◌<◌, ◌^◌, refl, ℕ, ◌⊎◌, [], ◌∷◌, none, some, false, ok, arith, Option}
use kanatoko.Bytes.{Bytes, Bytes-discrete}
use kanatoko.Xdr.{ScAddress, LedgerEntryData, LedgerKey-discrete}
use kanatoko.Capture.Rpc.{Transport}
use kanatoko.Capture.Frame.{IsApart}
use kanatoko.Capture.Bundle.Files.{BundleReader}
use kanatoko.Capture.Storage.{FilePath, Printer, atomic_write}
use kanatoko.Capture.Storage.Atomic.{IsAtomic, atomic_write-IsAtomic}
use kanatoko.Capture.Wire.{WireCodec, Http, http_transport}
use kanatoko.Auto.Names.{CallSite, sanitize_cache_name, default_cache_name}
use kanatoko.Auto.Names.Sanitized.{IsCacheName, sanitize_cache_name-IsCacheName}
use kanatoko.Auto.Names.Binding.{IsHash, SiteFits, ShortCollision, default_cache_name-binding}
use kanatoko.Auto.Settings.{AutoRunner, with_rpc_url, cache, offline}
use kanatoko.Auto.Runner.{run}
use kanatoko.Auto.Runner.Online.{IsSafe}
use kanatoko.Auto.Runner.Offline.{IsHit, run-IsSafe, run-IsHit}
use kanatoko.Tests.Toy.{fields_of, toy_codec, toy_key_of, toy_key}
use kanatoko.Capture.Hex.{hex}
use kanatoko.Tests.Captures.{digest, digest_fits, anchor, settings_entry, reading}
use kanatoko.Tests.Fork.{entry_1}
use kanatoko.Tests.Bundles.{written}
use kanatoko.Tests.Disk.{Disk, content, disk, disk-IsFileSystem, put}

-- "d/f"
abbrev file : FilePath
file = record { parent = some (b'd' ∷ []); file_name = some (b'f' ∷ []) }

abbrev empty : Disk
empty q = none

-- A disk that holds the file.
abbrev holding : Disk
unfolding put
holding = put file (some (1 ∷ [])) empty

atomic_write-IsAtomic_example :
    IsAtomic content file (2 ∷ 3 ∷ []) holding (atomic_write disk file (2 ∷ 3 ∷ []) holding)
atomic_write-IsAtomic_example =
    atomic_write-IsAtomic content disk disk-IsFileSystem file (2 ∷ 3 ∷ []) holding

written_bytes : (atomic_write disk file (2 ∷ 3 ∷ []) holding).0 file ≡ some (2 ∷ 3 ∷ [])
unfolding atomic_write disk put
written_bytes = refl

-- "a::b"
sanitize_cache_name-IsCacheName_example :
    IsCacheName (sanitize_cache_name (b'a' ∷ b':' ∷ b':' ∷ b'b' ∷ []))
sanitize_cache_name-IsCacheName_example =
    sanitize_cache_name-IsCacheName (b'a' ∷ b':' ∷ b':' ∷ b'b' ∷ [])

sanitized : sanitize_cache_name (b'a' ∷ b':' ∷ b':' ∷ b'b' ∷ b'-' ∷ []) ≡ b'a' ∷ b'-' ∷ b'b' ∷ []
unfolding sanitize_cache_name
sanitized = refl

abbrev site : ℕ → CallSite
site line = record {
  network_passphrase = b'p' ∷ [];
  thread_name = b't' ∷ [];
  caller_file = b'f' ∷ [];
  caller_line = line;
  caller_column = 5;
}

site_fits : (line : ℕ) → line < 2 ^ 32 → SiteFits (site line)
site_fits line h = record {
  network_passphrase = omega arith;
  thread_name = omega arith;
  caller_file = omega arith;
  caller_line = h;
  caller_column = omega arith;
}

one-IsHash : IsHash (λ b. digest)
one-IsHash b = (refl, digest_fits)

default_cache_name-binding_example : (site 3 ≡ site 4) ⊎ ShortCollision (λ b. digest)
unfolding default_cache_name
default_cache_name-binding_example =
    default_cache_name-binding (λ b. digest) one-IsHash (site 3) (site 4)
      (site_fits 3 (omega arith)) (site_fits 4 (omega arith)) refl

-- A server of one header and one entry; keys and entries are told apart by their first byte.
abbrev answering : Http Disk
answering = record {
  network = λ w. (
    w,
    some (record {
      result = some (record { passphrase = []; protocol_version = 29 });
      failed = false;
    }),
  );
  latest_ledger = λ w. (
    w,
    some (record {
      result = some (record {
        id = hex (7 ∷ []);
        protocol_version = 29;
        sequence = 7;
        close_time = b'5' ∷ [];
        header_xdr = 7 ∷ [];
      });
      failed = false;
    }),
  );
  ledger_entries = λ keys w. (
    w,
    some (record {
      result = some (record {
        entries = some (
            record {
              key = 0 ∷ 0 ∷ 0 ∷ 0 ∷ 0 ∷ 0 ∷ 0 ∷ 0 ∷ 1 ∷ 1 ∷ [];
              xdr = 1 ∷ [];
              last_modified_ledger_seq = 5;
              live_until_ledger_seq = none;
              ext_xdr = some [];
            }
            ∷ []);
        latest_ledger = 7;
      });
      failed = false;
    }),
  );
}

abbrev decoders : WireCodec
decoders = record {
  header_of_xdr = λ b. some (record { ledger_seq = 7; close_time = 5; base_reserve = 3 });
  data_of_xdr = λ b. some (LedgerEntryData.account (1 ∷ []) (fields_of (4 ∷ [])));
  ext_of_xdr = some;
  parse_u64 = λ b. some 5;
}

served_anchor :
    ((http_transport toy_codec decoders answering).latest_ledger empty).1
    ≡ ok (record anchor { hash = hex (7 ∷ []) })
unfolding http_transport hex Bytes-discrete
served_anchor = refl

served_entry :
    ((http_transport toy_codec decoders answering).ledger_entries [] empty).1
    ≡ ok
        (record { latest_ledger = 7; entries = record { entry = entry_1; live_until = none } ∷ [] })
unfolding http_transport toy_key_of toy_key LedgerKey-discrete
served_entry = refl

-- The server of the captured ledger.
abbrev serving : Bytes → ℕ → Transport Disk
serving url rate = record {
  network = λ w. (w, ok (record { passphrase = []; protocol_version = 29 }));
  latest_ledger = λ w. (w, ok anchor);
  ledger_entries = λ ks w. (
    w,
    ok (record {
      latest_ledger = 7;
      entries =
          record { entry = settings_entry; live_until = none }
          ∷ record { entry = entry_1; live_until = none }
          ∷ [];
    }),
  );
}

serving-IsApart : (url : Bytes) (rate : ℕ) → IsApart content (serving url rate)
serving-IsApart url rate = record {
  network = λ w. refl;
  latest_ledger = λ w. refl;
  ledger_entries = λ ks w. refl;
}

abbrev reader : BundleReader
reader = record { version = λ b. some 2; bundle = λ b. some written; legacy = λ b. none }

abbrev no_address : Bytes → Option ScAddress
no_address b = none

abbrev print : Printer
print bundle = some (5 ∷ [])

-- A runner whose cache is the file, over "http://r".
abbrev runner : AutoRunner
unfolding with_rpc_url cache
runner = cache file (with_rpc_url (b'h' ∷ b't' ∷ b't' ∷ b'p' ∷ b':' ∷ b'/' ∷ b'/' ∷ b'r' ∷ []) [])

run-IsSafe_example :
    IsSafe content toy_codec 29 print reader no_address
      (serving runner.rpc_url 0)
      reading
      (some file)
      empty
      (run toy_codec 29 disk reader no_address print serving runner reading empty)
unfolding with_rpc_url cache
run-IsSafe_example =
    run-IsSafe content disk disk-IsFileSystem toy_codec 29 reader no_address print reading serving
      serving-IsApart runner empty

abbrev offline_runner : AutoRunner
unfolding offline
offline_runner = offline runner

abbrev other_server : Bytes → ℕ → Transport Disk
other_server url rate = record (serving url rate) {
  latest_ledger = λ w. (w, ok (record anchor { sequence = 8 }));
}

run-IsHit_example :
    (run toy_codec 29 disk reader no_address print serving offline_runner reading holding
      ≡ run toy_codec 29 disk reader no_address print other_server offline_runner reading holding)
    × IsHit content disk disk-IsFileSystem toy_codec 29 reader no_address print reading
        (serving offline_runner.rpc_url 0)
        holding
        (run toy_codec 29 disk reader no_address print serving offline_runner reading holding)
unfolding offline
run-IsHit_example =
    run-IsHit content disk disk-IsFileSystem toy_codec 29 reader no_address print reading serving
      other_server offline_runner holding refl
