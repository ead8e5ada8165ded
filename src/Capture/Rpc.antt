-- ===== src/Capture/Rpc.antt =====
-- The RPC as src/capture.rs uses it, the `Transport` trait: three calls, each of which may change the
-- outside world and may fail. A computation over it gives a result, or stops by an error or a panic.
use kanatoko.Prelude.{◌≡◌, refl, List, Result, ok, err}
use kanatoko.Xdr.{LedgerKey}
use kanatoko.Capture.{CaptureError, Operation, Network, Anchor, EntryBatch, transport}

pub record Transport (World : Type 0) : Type 0 where
  pub network : World → World × Result Operation Network
  pub latest_ledger : World → World × Result Operation Anchor
  pub ledger_entries : List LedgerKey → World → World × Result Operation EntryBatch

pub data Stop : Type 0 where
  fails : CaptureError → Stop
  panics : Stop

-- A computation that may change the world, and stop early by an `E`.
abbrev pub Io : Type 0 → Type 0 → Type 0 → Type 0
Io World E A = World → World × Result E A

abbrev pub Rpc : Type 0 → Type 0 → Type 0
Rpc World A = Io World Stop A

module _ {World : Type 0} where
  abbrev pub resume :
      {E A B : Type 0} → (A → Io World E B) → World × Result E A → World × Result E B
  resume next (w, ok a) = next a w
  resume next (w, err stop) = (w, err stop)

  abbrev pub returning : {E A : Type 0} → A → Io World E A
  returning a w = (w, ok a)

  -- A result that needs no call.
  abbrev pub lift : {A : Type 0} → Result CaptureError A → Rpc World A
  lift (ok a) w = (w, ok a)
  lift (err failure) w = (w, err (fails failure))

  -- A call, with its failure as the error of its operation.
  abbrev pub outcome : {A : Type 0} → World × Result Operation A → World × Result Stop A
  outcome (w, ok a) = (w, ok a)
  outcome (w, err operation) = (w, err (fails (transport operation)))

  abbrev pub call : {A : Type 0} → (World → World × Result Operation A) → Rpc World A
  call f w = outcome (f w)

infixl 5 ◌>>=◌ ◌>>◌
abbrev pub ◌>>=◌ : {World E A B : Type 0} → Io World E A → (A → Io World E B) → Io World E B
(m >>= next) w = resume next (m w)

abbrev pub ◌>>◌ : {World E B : Type 0} → Io World E (Unit {0}) → Io World E B → Io World E B
first >> next = first >>= λ u. next

resumed :
    {World E A B : Type 0} {next : A → Io World E B} {w' : World} {b : B} (r : World × Result E A)
    → resume next r ≡ (w', ok b)
    → (a : A) × (v : World) × (r ≡ (v, ok a)) × (next a v ≡ (w', ok b))
resumed (v, ok a) h = (a, v, refl, h)
resumed (v, err stop) h = cc

-- A computation that returns has computations that return as its parts.
pub bind_inv :
    {World E A B : Type 0} (m : Io World E A) (next : A → Io World E B) (w w' : World) (b : B)
    → (m >>= next) w ≡ (w', ok b)
    → (a : A) × (v : World) × (m w ≡ (v, ok a)) × (next a v ≡ (w', ok b))
bind_inv m next w w' b h = resumed (m w) h
