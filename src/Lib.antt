-- ===== src/Lib.antt =====
-- kanatoko: tests of Soroban contracts against frozen network state.
--
-- The program captures the ledger entries that a test scenario touches (src/capture.rs), freezes them in a
-- digested fixture (src/fixture.rs), and runs contracts over them in isolated environments, in
-- an exploratory fork (src/runtime.rs) or in a strict one that fails closed outside what is known
-- (src/strict.rs).
--
-- Which file models which part:
--   Protocol  `ProtocolPolicy`, `executed_protocol_version` (src/fixture.rs) and
--     `restore_network_protocol` (src/runtime.rs)
--   Fixture  the rest of src/fixture.rs: loading a snapshot and its canonical digest
--   Ledger  Present/Absent coverage, `state_diff`, `update_coverage`, `strip_new_mock_nonces`
--     (src/strict.rs, `LookupState` of src/capture.rs)
--   Host, Host/Calls  the environment, and the functions over it (`fork_env`, `invoke_once`, the
--     detached evidence of src/runtime.rs and src/strict.rs)
--   Strict  `StrictFork` of src/strict.rs: Strict/Source its snapshot source and `unknown_keys`,
--     Strict/Invoke and Strict/Candidate its two long operations; a method returns the fork that
--     it leaves behind together with its result, since some change it before they fail
--   Runtime  `Fork` of src/runtime.rs
--   Capture  src/capture.rs: Validate the checks of batches and coverage, Closure the executables that
--     instances refer to, Source the tracking source, Materialize the coherent fetching of keys,
--     Discover the loop over a scenario, Replay the strict replay, Digest, Hex, Origin and Bundle the
--     file format, Builder the constructors of `CaptureBuilder`, Frame what a run may do to the outside
--     world, Storage the files (`atomic_write`), Wire what `HttpTransport` makes of answers
--   Auto  src/auto.rs: Names the cache names, Settings the settings of `AutoRunner`, Runner its offline
--     and online runs, Scenario `ScenarioFork` with its local accounts and contracts, Preview
--     `try_invoke`, `preview` and `InvocationReport`
--   Rpc  the rate limiter and the retries of src/capture.rs
--   Tools  tools/kanatoko.rs: Options the arguments of the tool, Words the texts in them
--   Prelude, Bytes, BTree, Xdr  shared helpers, byte strings, `BTreeMap`, and the ledger's data types
--   Tests  each property at a concrete input
--
-- Code outside the repository is a parameter: the XDR, SHA-256 and Base64 libraries (`Codec` in Xdr),
-- soroban-sdk's environment (`Host` in Host), Serde's readers of bundles (`BundleReader`), the RPC
-- (`Transport` in Capture/Rpc, an outside world that each call may change), and the parser of
-- Retry-After; and for files and scenarios, the calls of the operating system (`Files` in
-- Capture/Storage), the HTTP client (`Http` and `WireCodec` in Capture/Wire), the printer of bundles,
-- the transport that `connect` makes, and the scenario's environment (`ScenarioHost` in
-- Auto/Scenario), each with its documented laws where a theorem needs them. What a scenario does is
-- a `Script`: lookups, whose answers decide how it goes on, marks of local addresses and code, and
-- its end. `ReopensSnapshots` states what the strict fork relies on when it makes an environment. The XDR types have the alternatives that the program names;
-- the others are `other`.
--
-- Numbers are natural; a wrap-around (fork identifiers) and checked additions (`validate_entry_metadata`)
-- are written out, and digests take the lowest bytes as `to_be_bytes` does. Loops are recursion on
-- lists, or on the source's own bounds: 8 coherence attempts and 16 discovery rounds (fields of
-- `CaptureBuilder`), 16 rounds of closure, 3 backoffs. std's `chunks` (Prelude/Lists) has the
-- list's length as fuel, which is enough as each chunk takes an entry at least.
--
-- The digits of `decimal` are on fuel 20, enough for 64 bits, and `create_temporary_file` tries 32
-- names, as the source does.
--
-- Not modelled: the HTTP agent and the JSON reader, threads and sleeping, accessors, the resource
-- estimates of the Host, the contracts under fixtures/, the re-exports of src/lib.rs, and what the
-- tools under tools/ run and print: input and output around the parts above.
mod Prelude
pub mod Bytes
pub mod BTree
pub mod Xdr
pub mod Protocol
pub mod Fixture
pub mod Ledger
pub mod Host
pub mod Strict
pub mod Capture
pub mod Auto
pub mod Rpc
pub mod Runtime
mod Tests
pub mod Tools
