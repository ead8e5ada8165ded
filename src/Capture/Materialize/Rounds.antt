-- ===== src/Capture/Materialize/Rounds.antt =====
-- The loops of `CaptureBuilder::materialize` of src/capture.rs over the chunks and their keys.
use kanatoko.Prelude.{
  ℕ, zero, suc, ◌≡◌, refl, List, [], ◌∷◌, ◌++◌, Option, none, some, Bool, true, false, Result, ok,
  err, arith, ap, sym, ◌∙◌, subst, holds, ok_or, inl, inr, ◌⊎◌, Option-cases, chunks, In,
  if◌then◌else◌, ◌==◌,
}
use kanatoko.Prelude
use kanatoko.Bytes.{Bytes}
use kanatoko.BTree.{BTreeMap, get, insert}
use kanatoko.BTree.Lookup.{get-insert_ne}
use kanatoko.Xdr.{Codec, ArchivalSettings, LedgerKey}
use kanatoko.Ledger.{Coverage, LookupState}
use kanatoko.Capture.{CaptureError, Operation, FetchedEntry, EntryBatch, fetched_state}
use kanatoko.Capture.Rpc.{bind_inv, Transport, Rpc, lift, returning, call, outcome, ◌>>=◌}
use kanatoko.Capture.Validate.{validate_batch}
use kanatoko.Capture.Materialize.Answered.{
  In-keys_of, gathered_from, gathered-HasState, HasState, batch-Tells, IsAnswered,
}
use kanatoko.Capture.Materialize.{CaptureBuilder, Gathered, gather, gather_chunks, keys_of}

-- A lifted result that returns is that value.
pub lifted :
    {World A : Type 0} (r : Result CaptureError A) (v w : World) {a : A}
    → lift r v ≡ (w, ok a)
    → r ≡ ok a
lifted (ok a) v w h = cc
lifted (err e) v w h = cc

pub lifted_world :
    {World A : Type 0} (r : Result CaptureError A) (v w : World) {a : A}
    → lift r v ≡ (w, ok a)
    → v ≡ w
lifted_world (ok a) v w h = cc
lifted_world (err e) v w h = cc

picked :
    {World A : Type 0} (test : Bool) (m : Rpc World (Option A)) (v w : World) {a : A}
    → (Prelude.if◌then◌else◌ test m (returning none)) v ≡ (w, ok (some a))
    → m v ≡ (w, ok (some a))
picked true m v w h = h
picked false m v w h = cc

picked_test :
    {World A : Type 0} (test : Bool) (m : Rpc World (Option A)) (v w : World) {a : A}
    → (Prelude.if◌then◌else◌ test m (returning none)) v ≡ (w, ok (some a))
    → test ≡ true
picked_test true m v w h = refl
picked_test false m v w h = cc

-- A call that returns is its outcome.
pub called_as :
    {World A : Type 0} (r : World × Result Operation A) (w : World) {a : A}
    → outcome r ≡ (w, ok a)
    → r ≡ (w, ok a)
called_as (v, ok a) w h = ground (arith, h)
called_as (v, err operation) w h = cc

pub called :
    {World A : Type 0} (r : World × Result Operation A) {w : World} {a : A}
    → outcome r ≡ (w, ok a)
    → r.1 ≡ ok a
called r {w} h = ap (λ x. x.1) (called_as r w h)

module _ (c : Codec) where
  gather_inserted :
      (config_id id : Bytes) (state : LookupState) (coverage : Coverage)
      → ¬ (id ≡ config_id)
      → get config_id coverage ≡ none
      → get config_id (insert id state coverage) ≡ none
  gather_inserted config_id id state coverage d n = get-insert_ne id config_id state coverage d ∙ n

  gather_without :
      (config_id : Bytes) (returned : BTreeMap FetchedEntry) (chunk : List (Bytes × LedgerKey))
      (coverage : Coverage) (archival : Option ArchivalSettings) (g : Gathered)
      → get config_id coverage ≡ none
      → gather config_id returned chunk (coverage, archival) ≡ ok g
      → get config_id g.0 ≡ none
  unfolding gather
  gather_without config_id returned [] coverage archival g n h = grind (arith, n, h)
  gather_without config_id returned ((id, key) ∷ rest) coverage archival g n h = grind (
    arith,
    gather_without config_id returned rest,
    gather_inserted config_id id (fetched_state (get id returned)) coverage,
  )

module _ {World : Type 0} (c : Codec) (t : Transport World) (supported : ℕ)
    (b : CaptureBuilder) where
  -- A round of the loop over the chunks, in which the batch is of the ledger.
  chunk_step :
      (config_id : Bytes) (sequence : ℕ) (chunk : List (Bytes × LedgerKey))
      (rest : List (List (Bytes × LedgerKey))) (start : Gathered) (w w' : World) (g : Gathered)
      → gather_chunks c t supported b config_id sequence (chunk ∷ rest) start w ≡ (w', ok (some g))
      → (batch : EntryBatch) × (returned : BTreeMap FetchedEntry) × (next : Gathered) × (v : World)
        × ((t.ledger_entries (keys_of chunk) w).1 ≡ ok batch)
        × ((batch.latest_ledger == sequence) ≡ true)
        × (validate_batch c (keys_of chunk) batch.entries ≡ ok returned)
        × (gather config_id returned chunk start ≡ ok next)
        × (gather_chunks c t supported b config_id sequence rest next v ≡ (w', ok (some g)))
  unfolding gather_chunks
  chunk_step config_id sequence chunk rest start w w' g h =
      let a =
        bind_inv (call (t.ledger_entries (keys_of chunk)))
          (λ batch.
            Prelude.if◌then◌else◌ (Prelude.◌==◌ batch.latest_ledger sequence)
              (lift (validate_batch c (keys_of chunk) batch.entries) >>= λ returned.
                lift (gather config_id returned chunk start) >>= λ gathered.
                gather_chunks c t supported b config_id sequence rest gathered)
              (returning none))
          w w' (some g) h in
      let next : Rpc World (Option Gathered) =
        lift (validate_batch c (keys_of chunk) a.0.entries) >>= λ returned.
        lift (gather config_id returned chunk start) >>= λ gathered.
        gather_chunks c t supported b config_id sequence rest gathered in
      let p = picked (a.0.latest_ledger == sequence) next a.1 w' a.3 in
      let r =
        bind_inv (lift (validate_batch c (keys_of chunk) a.0.entries))
          (λ returned. lift (gather config_id returned chunk start) >>= λ gathered.
            gather_chunks c t supported b config_id sequence rest gathered)
          a.1 w' (some g) p in
      let q =
        bind_inv (lift (gather config_id r.0 chunk start))
          (λ gathered. gather_chunks c t supported b config_id sequence rest gathered) r.1 w'
          (some g) r.3 in
      (
        a.0,
        r.0,
        q.0,
        q.1,
        called (t.ledger_entries (keys_of chunk) w) a.2,
        picked_test (a.0.latest_ledger == sequence) next a.1 w' a.3,
        lifted (validate_batch c (keys_of chunk) a.0.entries) a.1 r.1 r.2,
        lifted (gather config_id r.0 chunk start) r.1 q.1 q.2,
        q.3,
      )

  pub chunks_without :
      (config_id : Bytes) (sequence : ℕ) (pieces : List (List (Bytes × LedgerKey)))
      (coverage : Coverage) (archival : Option ArchivalSettings) (w w' : World) (g : Gathered)
      → get config_id coverage ≡ none
      → gather_chunks c t supported b config_id sequence pieces (coverage, archival) w
        ≡ (w', ok (some g))
      → get config_id g.0 ≡ none
  unfolding gather_chunks
  chunks_without config_id sequence [] coverage archival w w' g n h = grind (arith, n, h)
  chunks_without config_id sequence (chunk ∷ rest) coverage archival w w' g n h =
      let (batch, returned, next, v, answer, of_ledger, valid, one, more) =
        chunk_step config_id sequence chunk rest (coverage, archival) w w' g h in
      chunks_without config_id sequence rest next.0 next.1 v w' g
        (gather_without c config_id returned chunk coverage archival next n one) more

  -- All keys of the chunks but the settings' have a state in the end.
  pub chunks-HasState :
      (config_id : Bytes) (sequence : ℕ) (pieces : List (List (Bytes × LedgerKey)))
      (coverage : Coverage) (archival : Option ArchivalSettings) (w w' : World) (g : Gathered)
      (id : Bytes)
      → gather_chunks c t supported b config_id sequence pieces (coverage, archival) w
        ≡ (w', ok (some g))
      → HasState id coverage
        ⊎ (¬ (id ≡ config_id)
            × ((key : LedgerKey) × (piece : List (Bytes × LedgerKey)) × In piece pieces
                × In (id, key) piece))
      → HasState id g.0
  unfolding gather_chunks
  chunks-HasState config_id sequence [] coverage archival w w' g id h (inl held) =
      let same : ◌≡◌ {A = Gathered} (coverage, archival) g = ground (arith, h) in
      subst (λ (x : Gathered). HasState id x.0) same held
  chunks-HasState config_id sequence [] coverage archival w w' g id h
        (inr (n, (key, piece, i, m))) =
      absurd i
  chunks-HasState config_id sequence (chunk ∷ rest) coverage archival w w' g id h o =
      let (batch, returned, next, v, answer, of_ledger, valid, one, more) =
        chunk_step config_id sequence chunk rest (coverage, archival) w w' g h in
      chunks-HasState config_id sequence rest next.0 next.1 v w' g id more (elim o [
        | inl held ↦
            inl
              (gathered-HasState config_id returned chunk coverage archival next id one (inl held))
        | inr (n, (key, piece, i, m)) ↦ elim i [
          | inl e ↦ inl (
              gathered-HasState config_id returned chunk coverage archival next id one
                (inr (n, (key, subst (In (id, key)) (sym e) m))))
          | inr i' ↦ inr (n, (key, piece, i', m))
        ]
      ])

  -- Every state of the gathered coverage is what a batch of the ledger told of a requested key.
  pub chunks-IsAnswered :
      (config_id : Bytes) (sequence : ℕ) (requested : List (Bytes × LedgerKey))
      (pieces : List (List (Bytes × LedgerKey))) (coverage : Coverage)
      (archival : Option ArchivalSettings) (w w' : World) (g : Gathered)
      → ((piece : List (Bytes × LedgerKey)) (p : Bytes × LedgerKey)
          → In piece pieces
          → In p piece
          → In p requested)
      → ((id : Bytes) (state : LookupState)
          → get id coverage ≡ some state
          → IsAnswered c t sequence requested id state)
      → gather_chunks c t supported b config_id sequence pieces (coverage, archival) w
        ≡ (w', ok (some g))
      → (id : Bytes) (state : LookupState) → get id g.0 ≡ some state
      → IsAnswered c t sequence requested id state
  unfolding gather_chunks
  chunks-IsAnswered config_id sequence requested [] coverage archival w w' g n old h = λ id state e.
      let same : ◌≡◌ {A = Gathered} (coverage, archival) g = ground (arith, h) in
      old id state (ap (λ (x : Gathered). get id x.0) same ∙ e)
  chunks-IsAnswered config_id sequence requested (chunk ∷ rest) coverage archival w w' g n old h =
      let (batch, returned, next, v, answer, of_ledger, valid, one, more) =
        chunk_step config_id sequence chunk rest (coverage, archival) w w' g h in
      chunks-IsAnswered config_id sequence requested rest next.0 next.1 v w' g
        (λ piece x m i. n piece x (inr m) i)
        (gathered_from (IsAnswered c t sequence requested) config_id returned chunk coverage
          archival next old
          (λ id key m. (
            key,
            keys_of chunk,
            w,
            batch,
            n chunk (id, key) (inl refl) m,
            In-keys_of id key chunk m,
            answer,
            ground (arith, of_ledger),
            batch-Tells c (keys_of chunk) batch.entries returned id valid,
          ))
          one)
        more
