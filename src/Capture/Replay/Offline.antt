-- ===== src/Capture/Replay/Offline.antt =====
-- How a strict replay of src/capture.rs reads: offline, from its coverage.
use kanatoko.Strict.Source.{is_covered}
use kanatoko.Prelude.{
  ◌⊎◌, inl, inr, ◌≡◌, refl, List, [], ◌∷◌, Option, some, Bool, true, false, Result, ok, err,
  >>=-eq-ok, Result-cases, All, arith, none, Bool-cases, Option-cases, ap, In, subst, sym, ◌∙◌,
}
use kanatoko.Bytes.{Bytes}
use kanatoko.BTree.{get, insert_key}
use kanatoko.BTree.Lookup.{insert_key-In}
use kanatoko.Capture.Source.{new_source}
use kanatoko.Xdr.{Codec, LedgerKey, LedgerSnapshot}
use kanatoko.Ledger.{Coverage, LookupState}
use kanatoko.Capture.{CaptureError, no_local, CapturedFixture, LocalLedger, owns, capture_id}
use kanatoko.Capture.Rpc.{Transport, Stop, panics}
use kanatoko.Capture.Source.{
  TrackingSource, get_tracking, Script, read, mark_address, mark_code, finish, run_script,
  own_address, own_code,
}
use kanatoko.Capture.Discover.{Scenario}
use kanatoko.Capture.Replay.{replay, replay_run, replay_state, uncovered, judge, stop_of}
use kanatoko.Capture.Validate.{snapshot_from_materialized}

-- What a run without a transport keeps: the world, the cache, and that nothing was read over RPC.
pub record IsOffline {World : Type 0} (w : World) (s : TrackingSource) (w' : World)
    (s' : TrackingSource) : Type 0 where
  pub world : w' ≡ w
  pub offline : s'.online ≡ false
  pub cache : s'.cache ≡ s.cache
  pub rpc_reads : s'.rpc_reads ≡ s.rpc_reads

module _ {World : Type 0} (c : Codec) (t : Transport World) where
  pub get_tracking-IsOffline :
      (s : TrackingSource) (key : LedgerKey) (w : World)
      → s.online ≡ false
      → IsOffline w s (get_tracking c t s key w).0 (get_tracking c t s key w).1
  unfolding get_tracking
  get_tracking-IsOffline s key w h = ground arith

  pub run_script-IsOffline :
      (script : Script) (s : TrackingSource) (w : World)
      → s.online ≡ false
      → IsOffline w s (run_script c t script s w).world (run_script c t script s w).source
  unfolding run_script
  run_script-IsOffline (read key next) s w h =
      let g = get_tracking-IsOffline s key w h in
      let r =
        run_script-IsOffline (next (get_tracking c t s key w).2) (get_tracking c t s key w).1
          (get_tracking c t s key w).0 g.offline in
      record {
        world = r.world ∙ g.world;
        offline = r.offline;
        cache = r.cache ∙ g.cache;
        rpc_reads = r.rpc_reads ∙ g.rpc_reads;
      }
  run_script-IsOffline (mark_address a rest) s w h =
      let r =
        run_script-IsOffline rest
          (record s { local = record s.local { addresses = a ∷ s.local.addresses } }) w h in
      record { world = r.world; offline = r.offline; cache = r.cache; rpc_reads = r.rpc_reads }
  run_script-IsOffline (mark_code a rest) s w h =
      let r =
        run_script-IsOffline rest
          (record s { local = record s.local { code_hashes = a ∷ s.local.code_hashes } }) w h in
      record { world = r.world; offline = r.offline; cache = r.cache; rpc_reads = r.rpc_reads }
  run_script-IsOffline (finish p k) s w h = record {
    world = refl;
    offline = h;
    cache = refl;
    rpc_reads = refl;
  }

covered_lem : (o : Option LookupState) (state : LookupState) → o ≡ some state → is_covered o ≡ true
unfolding is_covered
covered_lem o state e = ground arith

module _ {World : Type 0} (c : Codec) (t : Transport World) where
  -- Every lookup of the run, up to the first of a key that does not encode, is of a local key or of a
  -- key that the coverage has a state for.
  pub ReadsCovered : Coverage → Script → TrackingSource → World → Type 0
  ReadsCovered coverage (read key next) s w =
      (id : Bytes)
      → c.key_xdr key ≡ some id
      → ((owns s.local key ≡ true) ⊎ ((state : LookupState) × (get id coverage ≡ some state)))
        × (let g = get_tracking c t s key w in ReadsCovered coverage (next g.2) g.1 g.0)
  ReadsCovered coverage (mark_address a rest) s w = ReadsCovered coverage rest (own_address a s) w
  ReadsCovered coverage (mark_code h rest) s w = ReadsCovered coverage rest (own_code h s) w
  ReadsCovered coverage (finish panicked stored) s w = Unit {0}

  unknown_kept :
      (s : TrackingSource) (key : LedgerKey) (w : World) (id : Bytes)
      → s.online ≡ false
      → In id s.unknown
      → In id (get_tracking c t s key w).1.unknown
  unfolding get_tracking
  unknown_kept s key w id h m =
      let grown : (k : Bytes) → In id (insert_key k s.unknown) =
        λ k. insert_key-In k id s.unknown (inr m) in
      grind (arith, h, m, grown)

  unknown_stays :
      (script : Script) (s : TrackingSource) (w : World) (id : Bytes)
      → s.online ≡ false
      → In id s.unknown
      → In id (run_script c t script s w).source.unknown
  unfolding run_script
  unknown_stays (read key next) s w id h m =
      unknown_stays (next (get_tracking c t s key w).2) (get_tracking c t s key w).1
        (get_tracking c t s key w).0 id (get_tracking-IsOffline c t s key w h).offline
        (unknown_kept s key w id h m)
  unknown_stays (mark_address a rest) s w id h m = unknown_stays rest (own_address a s) w id h m
  unknown_stays (mark_code a rest) s w id h m = unknown_stays rest (own_code a s) w id h m
  unknown_stays (finish p k) s w id h m = m

  -- A lookup of a key that encodes, in a source that has not failed.
  looked_up :
      (s : TrackingSource) (key : LedgerKey) (w : World) (id : Bytes)
      → s.online ≡ false
      → s.failure ≡ none
      → c.key_xdr key ≡ some id
      → ((get_tracking c t s key w).1.failure ≡ none)
        × ((owns s.local key ≡ true)
            ⊎ (((state : LookupState) × (get id s.cache ≡ some state))
                ⊎ In id (get_tracking c t s key w).1.unknown))
  unfolding get_tracking
  looked_up s key w id h f k = elim (Bool-cases (owns s.local key)) [
    | inl o ↦ (ground (arith, h, f, k, o), inl o)
    | inr o ↦ elim (Option-cases (get id s.cache)) [
      | inr (state, e) ↦ (ground (arith, h, f, k, o, e), inr (inl (state, e)))
      | inl e ↦ (
        ground (arith, h, f, k, o, e),
        inr (
            inr (
              subst (λ z. In id z) (ground (arith, h, f, k, o, e))
                (insert_key-In id id s.unknown (inl refl)))),
      )
    ]
  ]

  run-ReadsCovered :
      (script : Script) (s : TrackingSource) (w : World)
      → s.online ≡ false
      → s.failure ≡ none
      → ((id : Bytes) → ¬ In id (run_script c t script s w).source.unknown)
      → ReadsCovered s.cache script s w
  unfolding run_script ReadsCovered
  run-ReadsCovered (read key next) s w h f n =
      let g = get_tracking c t s key w in
      let o = get_tracking-IsOffline c t s key w h in
      λ id e.
        let (clean, here) = looked_up s key w id h f e in
        (
          elim here [
            | inl local ↦ inl local
            | inr later ↦ elim later [
              | inl covered ↦ inr covered
              | inr unknown ↦ absurd (n id (unknown_stays (next g.2) g.1 g.0 id o.offline unknown))
            ]
          ],
          subst (λ z. ReadsCovered z (next g.2) g.1 g.0) o.cache
              (run-ReadsCovered (next g.2) g.1 g.0 o.offline clean n),
        )
  run-ReadsCovered (mark_address a rest) s w h f n = run-ReadsCovered rest (own_address a s) w h f n
  run-ReadsCovered (mark_code a rest) s w h f n = run-ReadsCovered rest (own_code a s) w h f n
  run-ReadsCovered (finish p k) s w h f n = tt

-- Unknown identifiers stay unknown.
uncovered_keeps :
    (c : Codec) (l : LocalLedger) (coverage : Coverage) (id : Bytes) (unknown found : List Bytes)
    (stored : List LedgerKey)
    → In id unknown
    → uncovered c l coverage unknown stored ≡ ok found
    → In id found
unfolding uncovered
uncovered_keeps c l coverage id unknown found [] m h = grind arith
uncovered_keeps c l coverage id unknown found (key ∷ stored) m h =
    let same : uncovered c l coverage unknown stored ≡ ok found → In id found =
      uncovered_keeps c l coverage id unknown found stored m in
    let grown : (k : Bytes)
        → uncovered c l coverage (insert_key k unknown) stored ≡ ok found
        → In id found =
      λ k.
        uncovered_keeps c l coverage id (insert_key k unknown) found stored
          (insert_key-In k id unknown (inr m)) in
    grind (arith, same, grown)

-- A stored key is local, or the coverage has a state for it.
abbrev pub IsHeld : Codec → LocalLedger → Coverage → LedgerKey → Type 0
IsHeld c l coverage key =
    (owns l key ≡ true)
    ⊎ ((id : Bytes) × (state : LookupState) × (c.key_xdr key ≡ some id)
        × (get id coverage ≡ some state))

covered_state :
    (o : Option LookupState) → is_covered o ≡ true → (state : LookupState) × (o ≡ some state)
unfolding is_covered
covered_state (some state) h = (state, refl)
covered_state none h = cc

encoded_key :
    (c : Codec) (key : LedgerKey) (id : Bytes) → capture_id c key ≡ ok id → c.key_xdr key ≡ some id
unfolding capture_id
encoded_key c key id h = ground (arith, h)

-- Where nothing is unknown in the end, all stored keys are held.
uncovered-IsHeld :
    (c : Codec) (l : LocalLedger) (coverage : Coverage) (unknown : List Bytes)
    (stored : List LedgerKey)
    → uncovered c l coverage unknown stored ≡ ok []
    → All (IsHeld c l coverage) stored
unfolding uncovered
uncovered-IsHeld c l coverage unknown [] h = tt
uncovered-IsHeld c l coverage unknown (key ∷ stored) h = elim (Bool-cases (owns l key)) [
  | inl o ↦ (inl o, uncovered-IsHeld c l coverage unknown stored (ground (arith, h, o)))
  | inr o ↦ elim (Result-cases (capture_id c key)) [
    | inr (x, e) ↦ absurd (ground (arith, h, o, e))
    | inl (id, e) ↦ elim (Bool-cases (is_covered (get id coverage))) [
      | inl covered ↦
          let (state, g) = covered_state (get id coverage) covered in
          (
            inr (id, state, encoded_key c key id e, g),
            uncovered-IsHeld c l coverage unknown stored (ground (arith, h, o, e, covered)),
          )
      | inr missing ↦
          let rest : uncovered c l coverage (insert_key id unknown) stored ≡ ok [] =
            ground (arith, h, o, e, missing) in
          absurd (
            uncovered_keeps c l coverage id (insert_key id unknown) [] stored
              (insert_key-In id id unknown (inl refl)) rest)
    ]
  ]
]

-- What a verdict without an error tells.
Judged : Codec → Coverage → TrackingSource → Bool → Option (List LedgerKey) → Type 0
Judged c coverage s panicked stored =
    ((id : Bytes) → ¬ In id s.unknown)
    × (panicked ≡ false)
    × ((keys : List LedgerKey) × (stored ≡ some keys) × All (IsHeld c s.local coverage) keys)

judged :
    (c : Codec) (coverage : Coverage) (s : TrackingSource) (panicked : Bool)
    (stored : Option (List LedgerKey))
    → judge c coverage s panicked stored ≡ ok tt
    → Judged c coverage s panicked stored
unfolding judge Judged
judged c coverage s panicked none h = cc
judged c coverage s panicked (some ks) h =
    let (unknown, e, f) = >>=-eq-ok (uncovered c s.local coverage s.unknown ks) _ h in
    let none_unknown : unknown ≡ [] = ground (arith, f) in
    let all : uncovered c s.local coverage s.unknown ks ≡ ok [] = e ∙ ap ok none_unknown in
    (
      λ id m. uncovered_keeps c s.local coverage id s.unknown [] ks m all,
      ground (arith, f),
      (ks, refl, uncovered-IsHeld c s.local coverage s.unknown ks all),
    )

-- The source of a replay, before its scenario runs.
abbrev pub replay_source : CapturedFixture → TrackingSource
replay_source f = new_source f.coverage false no_local (replay_state f).ledger_info.protocol_version

settled :
    {World : Type 0} (r : Result CaptureError LedgerSnapshot) (s : LedgerSnapshot) (w w' : World)
    (next : LedgerSnapshot → World × Result Stop (Unit {0}))
    → r ≡ ok s
    → ◌≡◌ {A = World × Result Stop (Unit {0})}
        (elim r [ err e ↦ (w, err panics) | ok s ↦ next s ])
        (w', ok tt)
    → next s ≡ (w', ok tt)
settled (ok a) s w w' next e h = subst (λ x. next x ≡ (w', ok tt)) (ground (arith, e)) h
settled (err a) s w w' next e h = cc

stopped : {A : Type 0} (r : Result CaptureError A) {a : A} → stop_of r ≡ ok a → r ≡ ok a
stopped (ok a) h = cc
stopped (err e) h = cc

module _ {World : Type 0} (c : Codec) (t : Transport World) (f : CapturedFixture)
    (scenario : Scenario) where
  replayed :
      (s : LedgerSnapshot) (w w' : World)
      → snapshot_from_materialized c (replay_state f) ≡ ok s
      → replay c t f scenario w ≡ (w', ok tt)
      → ((replay_run c t f scenario s w).world ≡ w')
        × (judge c f.coverage
              (replay_run c t f scenario s w).source
              (replay_run c t f scenario s w).panicked
              (replay_run c t f scenario s w).stored
            ≡ ok tt)
  unfolding replay
  replayed s w w' e h =
      let x =
        settled (snapshot_from_materialized c (replay_state f)) s w w'
          (λ s. (
            (replay_run c t f scenario s w).world,
            stop_of (
                judge c f.coverage (replay_run c t f scenario s w).source
                  (replay_run c t f scenario s w).panicked (replay_run c t f scenario s w).stored),
          ))
          e h in
      (
        ap (λ p. p.0) x,
        stopped
            (judge c f.coverage (replay_run c t f scenario s w).source
              (replay_run c t f scenario s w).panicked (replay_run c t f scenario s w).stored)
            (ap (λ p. p.1) x),
      )

  -- A strict replay that succeeds ran its scenario to the end and left the outside world alone. Every
  -- lookup of the scenario, up to the first of a key that does not encode, was of a key that was local
  -- or that the capture has a state for; and so is every key that its environment stores at the end.
  pub replay-IsCovered :
      (s : LedgerSnapshot) (w w' : World)
      → snapshot_from_materialized c (replay_state f) ≡ ok s
      → replay c t f scenario w ≡ (w', ok tt)
      → (w' ≡ w)
        × ((replay_run c t f scenario s w).panicked ≡ false)
        × ReadsCovered c t f.coverage (scenario (replay_state f).ledger_info s) (replay_source f) w
        × ((stored : List LedgerKey) × ((replay_run c t f scenario s w).stored ≡ some stored)
            × All (IsHeld c (replay_run c t f scenario s w).source.local f.coverage) stored)
  unfolding replay_run new_source Judged
  replay-IsCovered s w w' e h =
      let r = replayed s w w' e h in
      let o =
        run_script-IsOffline c t (scenario (replay_state f).ledger_info s) (replay_source f) w
          refl in
      let run = replay_run c t f scenario s w in
      let (known, ended, held) = judged c f.coverage run.source run.panicked run.stored r.1 in
      (
        sym r.0 ∙ o.world,
        ended,
        run-ReadsCovered c t (scenario (replay_state f).ledger_info s) (replay_source f) w refl refl
            known,
        held,
      )
