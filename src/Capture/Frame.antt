-- ===== src/Capture/Frame.antt =====
-- The calls of a capture change no more of the world than its transport does.
use kanatoko.Prelude.{
  ℕ, zero, suc, ◌≡◌, refl, ◌∙◌, List, [], ◌∷◌, Option, none, some, Bool, true, false, Result, ok,
  err, arith, ◌==◌, if◌then◌else◌,
}
use kanatoko.Bytes.{Bytes}
use kanatoko.Xdr.{Codec, LedgerKey, LedgerSnapshot}
use kanatoko.Capture.{CaptureError, Operation, FetchedEntry, CapturedFixture, KeyMap, Materialized}
use kanatoko.Capture.Rpc.{Transport, Io, Rpc, resume, lift, returning, outcome, call, ◌>>=◌}
use kanatoko.Capture.Validate.{validate_batch}
use kanatoko.Capture.Source.{
  TrackingSource, get_tracking, Script, read, mark_address, mark_code, finish, run_script,
}
use kanatoko.Capture.Materialize.{
  CaptureBuilder, keys_of, gather, check_protocol, validate_network, current_anchor, gather_chunks,
  Gathered, attempt_materialize, materialize_loop, materialize, closure_step, closure_rounds,
  expand_code_closure,
}
use kanatoko.Capture.Discover.{
  Scenario, expected, run_round, materialize_closed, discovery, capture_ref_from_keys, capture_ref,
}
use kanatoko.Capture.Builder.{capture, capture_with_inventory, cached_anchor_is_current}

module _ {World V : Type 0} (view : World → V) where
  -- A computation after which the view is as it was.
  abbrev pub Keeps : {E A : Type 0} → Io World E A → Type 0
  Keeps m = (w : World) → view (m w).0 ≡ view w

  resume-Keeps :
      {E A B : Type 0} (next : A → Io World E B) (x : World × Result E A)
      → ((a : A) → Keeps (next a))
      → view (resume next x).0 ≡ view x.0
  resume-Keeps next (w, ok a) k = k a w
  resume-Keeps next (w, err e) k = refl

  pub bind-Keeps :
      {E A B : Type 0} (m : Io World E A) (next : A → Io World E B)
      → Keeps m
      → ((a : A) → Keeps (next a))
      → Keeps (m >>= next)
  bind-Keeps m next p k w = resume-Keeps next (m w) k ∙ p w

  pub lift-Keeps : {A : Type 0} (r : Result CaptureError A) → Keeps (lift {World = World} r)
  lift-Keeps (ok a) w = refl
  lift-Keeps (err e) w = refl

  outcome-Keeps : {A : Type 0} (x : World × Result Operation A) → view (outcome x).0 ≡ view x.0
  outcome-Keeps (w, ok a) = refl
  outcome-Keeps (w, err e) = refl

  pub if-Keeps :
      {E A : Type 0} (b : Bool) (m n : Io World E A)
      → Keeps m
      → Keeps n
      → Keeps (if b then m else n)
  if-Keeps true m n p q = p
  if-Keeps false m n p q = q

  -- The transport's calls keep the view.
  pub record IsApart (t : Transport World) : Type 0 where
    pub network : (w : World) → view (t.network w).0 ≡ view w
    pub latest_ledger : (w : World) → view (t.latest_ledger w).0 ≡ view w
    pub ledger_entries :
        (keys : List LedgerKey) (w : World) → view (t.ledger_entries keys w).0 ≡ view w

  call-Keeps :
      {A : Type 0} (f : World → World × Result Operation A)
      → ((w : World) → view (f w).0 ≡ view w)
      → Keeps (call f)
  call-Keeps f k w = outcome-Keeps (f w) ∙ k w

  module _ (c : Codec) (t : Transport World) (apart : IsApart t) where
    get_tracking-Keeps :
        (s : TrackingSource) (key : LedgerKey) (w : World)
        → view (get_tracking c t s key w).0 ≡ view w
    unfolding get_tracking
    get_tracking-Keeps s key w = grind (arith, apart.ledger_entries)

    run_script-Keeps :
        (script : Script) (s : TrackingSource) (w : World)
        → view (run_script c t script s w).world ≡ view w
    unfolding run_script
    run_script-Keeps (read key next) s w =
        run_script-Keeps (next (get_tracking c t s key w).2) (get_tracking c t s key w).1
          (get_tracking c t s key w).0
        ∙ get_tracking-Keeps s key w
    run_script-Keeps (mark_address a rest) s w = run_script-Keeps rest _ w
    run_script-Keeps (mark_code a rest) s w = run_script-Keeps rest _ w
    run_script-Keeps (finish p k) s w = refl

    module _ (supported : ℕ) (b : CaptureBuilder) where
      check_protocol-Keeps : (version : ℕ) → Keeps (check_protocol c t supported b version)
      unfolding check_protocol
      check_protocol-Keeps version = lift-Keeps _

      validate_network-Keeps : Keeps (validate_network c t supported b)
      unfolding validate_network
      validate_network-Keeps = search (bind-Keeps, call-Keeps, lift-Keeps, apart)

      current_anchor-Keeps : Keeps (current_anchor c t supported b)
      unfolding current_anchor
      current_anchor-Keeps = search (bind-Keeps, call-Keeps, apart, check_protocol-Keeps)

      gathered-Keeps :
          (config_id : Bytes) (sequence : ℕ) (chunk : List (Bytes × LedgerKey))
          (rest : List (List (Bytes × LedgerKey))) (g : Gathered) (entries : List FetchedEntry)
          → ((next : Gathered) → Keeps (gather_chunks c t supported b config_id sequence rest next))
          → Keeps (
              lift (validate_batch c (keys_of chunk) entries) >>= λ returned.
              lift (gather config_id returned chunk g) >>= λ gathered.
              gather_chunks c t supported b config_id sequence rest gathered)
      gathered-Keeps config_id sequence chunk rest g entries again =
          search (bind-Keeps, lift-Keeps, again)

      gather_chunks-Keeps :
          (config_id : Bytes) (sequence : ℕ) (chunks : List (List (Bytes × LedgerKey)))
          (g : Gathered)
          → Keeps (gather_chunks c t supported b config_id sequence chunks g)
      unfolding gather_chunks
      gather_chunks-Keeps config_id sequence [] g = λ w. refl
      gather_chunks-Keeps config_id sequence (chunk ∷ rest) g =
          bind-Keeps (call (t.ledger_entries (keys_of chunk)))
            (λ batch.
              if batch.latest_ledger == sequence
              then (lift (validate_batch c (keys_of chunk) batch.entries) >>= λ returned.
                  lift (gather config_id returned chunk g) >>= λ gathered.
                  gather_chunks c t supported b config_id sequence rest gathered)
              else returning none)
            (call-Keeps (t.ledger_entries (keys_of chunk)) (apart.ledger_entries (keys_of chunk)))
            (λ batch.
              if-Keeps (batch.latest_ledger == sequence)
                (lift (validate_batch c (keys_of chunk) batch.entries) >>= λ returned.
                  lift (gather config_id returned chunk g) >>= λ gathered.
                  gather_chunks c t supported b config_id sequence rest gathered)
                (returning none)
                (gathered-Keeps config_id sequence chunk rest g batch.entries
                  (gather_chunks-Keeps config_id sequence rest))
                (λ w. refl))

      attempt-Keeps :
          (config_id : Bytes) (requested : List (Bytes × LedgerKey))
          → Keeps (attempt_materialize c t supported b config_id requested)
      unfolding attempt_materialize
      attempt-Keeps config_id requested =
          search (bind-Keeps, call-Keeps, lift-Keeps, apart, gather_chunks-Keeps)

      choice-Keeps :
          (found : Option Materialized) (again : Rpc World Materialized)
          → Keeps again
          → Keeps (elim found [ some m ↦ returning m | none ↦ again ])
      choice-Keeps none again k w = k w
      choice-Keeps (some m) again k w = refl

      loop-Keeps :
          (n : ℕ) (config_id : Bytes) (requested : List (Bytes × LedgerKey))
          → Keeps (materialize_loop c t supported b n config_id requested)
      unfolding materialize_loop
      loop-Keeps zero config_id requested = λ w. refl
      loop-Keeps (suc n) config_id requested =
          let again = loop-Keeps n config_id requested in
          bind-Keeps (attempt_materialize c t supported b config_id requested)
            (λ found. elim found [
              | some m ↦ returning m
              | none ↦ materialize_loop c t supported b n config_id requested
            ])
            (attempt-Keeps config_id requested)
            (λ found.
              choice-Keeps found (materialize_loop c t supported b n config_id requested) again)

      materialize-Keeps : (keys : KeyMap) → Keeps (materialize c t supported b keys)
      unfolding materialize
      materialize-Keeps keys = search (bind-Keeps, lift-Keeps, loop-Keeps)

      step-Keeps : (keys : KeyMap) (m : Materialized) → Keeps (closure_step c t supported b keys m)
      unfolding closure_step
      step-Keeps keys m = search (bind-Keeps, lift-Keeps)

      rounds-Keeps :
          (n : ℕ) (keys : KeyMap) (m : Materialized)
          → Keeps (closure_rounds c t supported b n keys m)
      unfolding closure_rounds
      rounds-Keeps zero keys m = search (bind-Keeps, step-Keeps, if-Keeps, lift-Keeps)
      rounds-Keeps (suc n) keys m =
          let again : (keys : KeyMap) (m : Materialized)
              → Keeps (closure_rounds c t supported b n keys m) =
            rounds-Keeps n in
          search (bind-Keeps, step-Keeps, if-Keeps, materialize-Keeps, again)

      closed-Keeps : (keys : KeyMap) → Keeps (materialize_closed c t supported b keys)
      unfolding materialize_closed expand_code_closure
      closed-Keeps keys = search (bind-Keeps, materialize-Keeps, rounds-Keeps)

      expected-Keeps : (r : Result CaptureError LedgerSnapshot) → Keeps (expected {World = World} r)
      expected-Keeps (ok s) w = refl
      expected-Keeps (err e) w = refl

      round-Keeps :
          (scenario : Scenario) (m : Materialized) → Keeps (run_round c t supported b scenario m)
      unfolding run_round
      round-Keeps scenario m = search (bind-Keeps, expected-Keeps, run_script-Keeps)

      discovery-Keeps :
          (n round : ℕ) (scenario : Scenario) (keys : KeyMap) (m : Materialized)
          → Keeps (discovery c t supported b n round scenario keys m)
      unfolding discovery
      discovery-Keeps zero round scenario keys m = λ w. refl
      discovery-Keeps (suc n) round scenario keys m =
          let again : (round : ℕ) (keys : KeyMap) (m : Materialized)
              → Keeps (discovery c t supported b n round scenario keys m) =
            λ round. discovery-Keeps n round scenario in
          search (bind-Keeps, lift-Keeps, if-Keeps, round-Keeps, closed-Keeps, again)

      from_keys-Keeps :
          (scenario : Scenario) (keys : KeyMap)
          → Keeps (capture_ref_from_keys c t supported b scenario keys)
      unfolding capture_ref_from_keys
      from_keys-Keeps scenario keys =
          search (bind-Keeps, validate_network-Keeps, closed-Keeps, discovery-Keeps)

      pub capture-Keeps : (scenario : Scenario) → Keeps (capture c t supported b scenario)
      unfolding capture capture_ref
      capture-Keeps scenario = from_keys-Keeps scenario []

      pub capture_with_inventory-Keeps :
          (fixture : CapturedFixture) (scenario : Scenario)
          → Keeps (capture_with_inventory c t supported b fixture scenario)
      unfolding capture_with_inventory
      capture_with_inventory-Keeps fixture scenario =
          search (bind-Keeps, lift-Keeps, from_keys-Keeps)

      pub cached_anchor_is_current-Keeps :
          (fixture : CapturedFixture) → Keeps (cached_anchor_is_current c t supported b fixture)
      unfolding cached_anchor_is_current
      cached_anchor_is_current-Keeps fixture =
          search (bind-Keeps, validate_network-Keeps, current_anchor-Keeps)
