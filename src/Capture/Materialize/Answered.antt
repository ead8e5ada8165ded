-- ===== src/Capture/Materialize/Answered.antt =====
-- Where the coverage that `CaptureBuilder::materialize` of src/capture.rs gathers comes from.
use kanatoko.Prelude.{
  ◌≡◌, ◌⊎◌, inl, inr, refl, sym, ◌∙◌, ap, subst, ℕ, zero, suc, List, [], ◌∷◌, Option, none, some,
  ok, >>=-eq-ok, In, length, ◌≤◌, arith, take, drop, chunks, chunks_fuel, Result-cases,
}
use kanatoko.Bytes.{Bytes, Bytes-discrete}
use kanatoko.BTree.{BTreeMap, get, insert}
use kanatoko.BTree.Lookup.{get-insert_self, get-insert_ne}
use kanatoko.Xdr.{Codec, ArchivalSettings, LedgerKey}
use kanatoko.Ledger.{Coverage, LookupState, present, absent, key_set}
use kanatoko.Capture.{FetchedEntry, capture_id, fetched_state, EntryBatch}
use kanatoko.Capture.Validate.{extract_archival, collect_batch, validate_batch, key_ids}
use kanatoko.Capture.Rpc.{Transport}
use kanatoko.Capture.Materialize.{Gathered, gather, keys_of}

In-take : {A : Type 0} (n : ℕ) (x : A) (xs : List A) → In x (take n xs) → In x xs
In-take zero x xs m = absurd m
In-take (suc n) x [] m = absurd m
In-take (suc n) x (y ∷ ys) (inl e) = inl e
In-take (suc n) x (y ∷ ys) (inr m) = inr (In-take n x ys m)

In-drop : {A : Type 0} (n : ℕ) (x : A) (xs : List A) → In x (drop n xs) → In x xs
In-drop zero x xs m = m
In-drop (suc n) x [] m = absurd m
In-drop (suc n) x (y ∷ ys) m = inr (In-drop n x ys m)

In-chunks_fuel :
    {A : Type 0} (fuel n : ℕ) (x : A) (piece xs : List A)
    → In piece (chunks_fuel fuel n xs)
    → In x piece
    → In x xs
unfolding chunks_fuel
In-chunks_fuel zero n x piece xs m i = absurd m
In-chunks_fuel (suc fuel) n x piece [] m i = absurd m
In-chunks_fuel (suc fuel) n x piece (y ∷ ys) (inl e) i =
    In-take n x (y ∷ ys) (subst (In x) (sym e) i)
In-chunks_fuel (suc fuel) n x piece (y ∷ ys) (inr m) i =
    In-drop n x (y ∷ ys) (In-chunks_fuel fuel n x piece (drop n (y ∷ ys)) m i)

-- An item of a chunk is one of the list.
pub In-chunks :
    {A : Type 0} (n : ℕ) (x : A) (piece xs : List A) → In piece (chunks n xs) → In x piece → In x xs
unfolding chunks
In-chunks n x piece xs m i = In-chunks_fuel _ n x piece xs m i

pub In-keys_of :
    (id : Bytes) (key : LedgerKey) (chunk : List (Bytes × LedgerKey))
    → In (id, key) chunk
    → In key (keys_of chunk)
In-keys_of id key [] m = absurd m
In-keys_of id key ((i, k) ∷ rest) (inl e) = inl (ap (λ p. p.1) e)
In-keys_of id key ((i, k) ∷ rest) (inr m) = inr (In-keys_of id key rest m)

In-take_or_drop :
    {A : Type 0} (n : ℕ) (x : A) (xs : List A) → In x xs → In x (take n xs) ⊎ In x (drop n xs)
In-take_or_drop zero x xs m = inr m
In-take_or_drop (suc n) x [] m = absurd m
In-take_or_drop (suc n) x (y ∷ ys) (inl e) = inl (inl e)
In-take_or_drop (suc n) x (y ∷ ys) (inr m) = elim (In-take_or_drop n x ys m) [
  | inl a ↦ inl (inr a)
  | inr b ↦ inr b
]

length-drop : {A : Type 0} (n : ℕ) (xs : List A) → length (drop n xs) ≤ length xs
length-drop zero xs = omega arith
length-drop (suc n) [] = omega arith
length-drop (suc n) (x ∷ xs) = omega (arith, length-drop n xs)

chunks_fuel-In :
    {A : Type 0} (fuel n : ℕ) (x : A) (xs : List A)
    → length xs ≤ fuel
    → In x xs
    → (piece : List A) × In piece (chunks_fuel fuel (suc n) xs) × In x piece
unfolding chunks_fuel
chunks_fuel-In fuel n x [] h m = absurd m
chunks_fuel-In zero n x (y ∷ ys) h m = absurd (omega (arith, h))
chunks_fuel-In (suc fuel) n x (y ∷ ys) h m = elim (In-take_or_drop (suc n) x (y ∷ ys) m) [
  | inl a ↦ (y ∷ take n ys, inl refl, a)
  | inr b ↦
      let (piece, p, q) =
        chunks_fuel-In fuel n x (drop n ys) (omega (arith, h, length-drop n ys)) b in
      (piece, inr p, q)
]

-- An item of the list is in a chunk.
pub chunks-In :
    {A : Type 0} (n : ℕ) (x : A) (xs : List A)
    → In x xs
    → (piece : List A) × In piece (chunks (suc n) xs) × In x piece
unfolding chunks
chunks-In n x xs m = chunks_fuel-In (length xs) n x xs (omega arith) m

-- The coverage has a state for the key.
abbrev pub HasState : Bytes → Coverage → Type 0
HasState id coverage = (state : LookupState) × (get id coverage ≡ some state)

get_after :
    {V : Type 0} (k j : Bytes) (v w : V) (m : BTreeMap V)
    → get j (insert k v m) ≡ some w
    → ((k ≡ j) × (v ≡ w)) ⊎ (get j m ≡ some w)
get_after k j v w m h = elim (Bytes-discrete k j) [
  | yes e ↦ inl (e, ground (arith, h, get-insert_self k v m, e))
  | no n ↦ inr (sym (get-insert_ne k j v m n) ∙ h)
]

-- The loop of a chunk inserts what was returned for its keys, and nothing else.
pub gathered_from :
    (P : Bytes → LookupState → Type 0) (config_id : Bytes) (returned : BTreeMap FetchedEntry)
    (chunk : List (Bytes × LedgerKey)) (coverage : Coverage) (archival : Option ArchivalSettings)
    (g : Gathered)
    → ((id : Bytes) (state : LookupState) → get id coverage ≡ some state → P id state)
    → ((id : Bytes) (key : LedgerKey) → In (id, key) chunk → P id (fetched_state (get id returned)))
    → gather config_id returned chunk (coverage, archival) ≡ ok g
    → (id : Bytes) (state : LookupState) → get id g.0 ≡ some state
    → P id state
unfolding gather
gathered_from P config_id returned [] coverage archival g old new h id state e =
    let same : ◌≡◌ {A = Gathered} (coverage, archival) g = ground (arith, h) in
    old id state (ap (λ (x : Gathered). get id x.0) same ∙ e)
gathered_from P config_id returned ((i, key) ∷ rest) coverage archival g old new h id state e =
    elim (Bytes-discrete i config_id) [
      | yes q ↦ elim (Result-cases (extract_archival (get i returned))) [
        | inl (settings, x) ↦
            gathered_from P config_id returned rest coverage (some settings) g old
              (λ j k m. new j k (inr m)) (ground (arith, h, q, x)) id state e
        | inr (failure, x) ↦ absurd (ground (arith, h, q, x))
      ]
      | no n ↦
          gathered_from P config_id returned rest
            (insert i (fetched_state (get i returned)) coverage) archival g
            (λ j s m. elim (get_after i j (fetched_state (get i returned)) s coverage m) [
              | inl (a, b) ↦
                  subst (λ z. P j z) b
                    (subst (λ k. P k (fetched_state (get i returned))) a (new i key (inl refl)))
              | inr m' ↦ old j s m'
            ])
            (λ j k m. new j k (inr m)) (ground (arith, h, n)) id state e
    ]

insert-HasState :
    (i id : Bytes) (new : LookupState) (coverage : Coverage)
    → (i ≡ id) ⊎ HasState id coverage
    → HasState id (insert i new coverage)
insert-HasState i id new coverage o = elim (Bytes-discrete i id) [
  | yes e ↦ (
    new,
    subst (λ z. get z (insert i new coverage) ≡ some new) e (get-insert_self i new coverage),
  )
  | no n ↦ elim o [
    | inl e ↦ absurd (n e)
    | inr (state, g) ↦ (state, get-insert_ne i id new coverage n ∙ g)
  ]
]

-- After the loop of a chunk, all its keys but the settings' have a state, and those before it keep one.
pub gathered-HasState :
    (config_id : Bytes) (returned : BTreeMap FetchedEntry) (chunk : List (Bytes × LedgerKey))
    (coverage : Coverage) (archival : Option ArchivalSettings) (g : Gathered) (id : Bytes)
    → gather config_id returned chunk (coverage, archival) ≡ ok g
    → HasState id coverage ⊎ (¬ (id ≡ config_id) × ((key : LedgerKey) × In (id, key) chunk))
    → HasState id g.0
unfolding gather
gathered-HasState config_id returned [] coverage archival g id h (inl held) =
    let same : ◌≡◌ {A = Gathered} (coverage, archival) g = ground (arith, h) in
    subst (λ (x : Gathered). HasState id x.0) same held
gathered-HasState config_id returned [] coverage archival g id h (inr (n, (key, m))) = absurd m
gathered-HasState config_id returned ((i, k) ∷ rest) coverage archival g id h o =
    elim (Bytes-discrete i config_id) [
      | yes q ↦ elim (Result-cases (extract_archival (get i returned))) [
        | inl (settings, x) ↦
            gathered-HasState config_id returned rest coverage (some settings) g id
              (ground (arith, h, q, x))
              (elim o [
                | inl held ↦ inl held
                | inr (n, (key, m)) ↦ elim m [
                  | inl e ↦ absurd (n (ap (λ p. p.0) (sym e) ∙ q))
                  | inr later ↦ inr (n, (key, later))
                ]
              ])
        | inr (failure, x) ↦ absurd (ground (arith, h, q, x))
      ]
      | no d ↦
          let new = fetched_state (get i returned) in
          gathered-HasState config_id returned rest (insert i new coverage) archival g id
            (ground (arith, h, d))
            (elim o [
              | inl held ↦ inl (insert-HasState i id new coverage (inr held))
              | inr (n, (key, m)) ↦ elim m [
                | inl e ↦ inl (insert-HasState i id new coverage (inl (ap (λ p. p.0) e)))
                | inr later ↦ inr (n, (key, later))
              ]
            ])
    ]

module _ (c : Codec) where
  -- What the entries of a batch tell of a key: an entry that is under it, or that none is.
  pub Tells : Bytes → List FetchedEntry → LookupState → Type 0
  Tells id entries (present entry live_until) =
      In (record { entry = entry; live_until = live_until }) entries
  Tells id entries absent =
      (f : FetchedEntry) → In f entries → ¬ (c.key_xdr (c.to_key f.entry) ≡ some id)

  key_encoded : (key : LedgerKey) (id : Bytes) → capture_id c key ≡ ok id → c.key_xdr key ≡ some id
  unfolding capture_id
  key_encoded key id h = ground (arith, h)

  collect_step :
      (requested : List Bytes) (returned result : BTreeMap FetchedEntry) (f : FetchedEntry)
      (es : List FetchedEntry)
      → collect_batch c requested returned (f ∷ es) ≡ ok result
      → (id : Bytes) × (c.key_xdr (c.to_key f.entry) ≡ some id)
        × (collect_batch c requested (insert id f returned) es ≡ ok result)
  unfolding collect_batch
  collect_step requested returned result f es h =
      let (id, a, b) = >>=-eq-ok (capture_id c (c.to_key f.entry)) _ h in
      (id, key_encoded (c.to_key f.entry) id a, ground (arith, h, a))

  collect_sound :
      (requested : List Bytes) (returned result : BTreeMap FetchedEntry) (es : List FetchedEntry)
      (id : Bytes) (f : FetchedEntry)
      → collect_batch c requested returned es ≡ ok result
      → get id result ≡ some f
      → (get id returned ≡ some f) ⊎ In f es
  unfolding collect_batch
  collect_sound requested returned result [] id f h e = inl (ap (get id) (ground (arith, h)) ∙ e)
  collect_sound requested returned result (x ∷ es) id f h e =
      let (i, k, rest) = collect_step requested returned result x es h in
      elim (collect_sound requested (insert i x returned) result es id f rest e) [
        | inr m ↦ inr (inr m)
        | inl g ↦ elim (get_after i id x f returned g) [
          | inl (a, b) ↦ inr (inl b)
          | inr old ↦ inl old
        ]
      ]

  -- A key has an entry.
  Has : Bytes → BTreeMap FetchedEntry → Type 0
  Has id m = (f : FetchedEntry) × (get id m ≡ some f)

  insert-Has :
      (i id : Bytes) (x : FetchedEntry) (m : BTreeMap FetchedEntry)
      → (i ≡ id) ⊎ Has id m
      → Has id (insert i x m)
  unfolding Has
  insert-Has i id x m o = elim (Bytes-discrete i id) [
    | yes e ↦ (x, subst (λ z. get z (insert i x m) ≡ some x) e (get-insert_self i x m))
    | no n ↦ elim o [ inl e ↦ absurd (n e) | inr (f, g) ↦ (f, get-insert_ne i id x m n ∙ g) ]
  ]

  collect-Has :
      (requested : List Bytes) (returned result : BTreeMap FetchedEntry) (es : List FetchedEntry)
      (id : Bytes)
      → collect_batch c requested returned es ≡ ok result
      → Has id returned ⊎ ((f : FetchedEntry) × In f es × (c.key_xdr (c.to_key f.entry) ≡ some id))
      → Has id result
  unfolding collect_batch
  collect-Has requested returned result [] id h (inl p) = subst (Has id) (ground (arith, h)) p
  collect-Has requested returned result [] id h (inr (f, m, k)) = absurd m
  collect-Has requested returned result (x ∷ es) id h o =
      let (i, k, rest) = collect_step requested returned result x es h in
      collect-Has requested (insert i x returned) result es id rest (elim o [
        | inl p ↦ inl (insert-Has i id x returned (inr p))
        | inr (f, m, q) ↦ elim m [
          | inl e ↦ inl (insert-Has i id x returned (inl (cc)))
          | inr m' ↦ inr (f, m', q)
        ]
      ])

  returned-Tells :
      (requested : List Bytes) (entries : List FetchedEntry) (returned : BTreeMap FetchedEntry)
      (id : Bytes) (o : Option FetchedEntry)
      → collect_batch c requested [] entries ≡ ok returned
      → get id returned ≡ o
      → Tells id entries (fetched_state o)
  unfolding fetched_state Tells Has get
  returned-Tells requested entries returned id none h e =
      λ f m k. let (g, held) = collect-Has requested [] returned entries id h (inr (f, m, k)) in cc
  returned-Tells requested entries returned id (some f) h e =
      elim (collect_sound requested [] returned entries id f h e) [ inl g ↦ cc | inr m ↦ m ]

  -- What a batch that is accepted returns of a key is what its entries tell.
  pub batch-Tells :
      (asked : List LedgerKey) (entries : List FetchedEntry) (returned : BTreeMap FetchedEntry)
      (id : Bytes)
      → validate_batch c asked entries ≡ ok returned
      → Tells id entries (fetched_state (get id returned))
  unfolding validate_batch
  batch-Tells asked entries returned id h =
      let (ids, a, b) = >>=-eq-ok (key_ids c asked) _ h in
      returned-Tells (key_set ids) entries returned id (get id returned) b refl

module _ {World : Type 0} (c : Codec) (t : Transport World) where
  -- The state is what a batch of this ledger told of the key, which was requested, and asked for.
  abbrev pub IsAnswered : ℕ → List (Bytes × LedgerKey) → Bytes → LookupState → Type 0
  IsAnswered sequence requested id state =
      (key : LedgerKey) × (asked : List LedgerKey) × (w : World) × (batch : EntryBatch) × In
        (id, key) requested
      × In key asked
      × ((t.ledger_entries asked w).1 ≡ ok batch)
      × (batch.latest_ledger ≡ sequence)
      × Tells c id batch.entries state
