-- ===== src/Capture/Storage/Atomic.antt =====
-- `atomic_write` of src/capture.rs leaves the old file or the whole new one.
use kanatoko.Prelude.{
  ℕ, zero, suc, ◌≡◌, ◌≢◌, ◌⊎◌, inl, inr, ◌∙◌, sym, refl, [], ◌∷◌, ◌++◌, Option, none, some, Bool,
  true, false, Result, ok, err, length, length-append, arith, ap,
}
use kanatoko.Bytes.{Bytes}
use kanatoko.Capture.{CaptureError, capture_bundle_io}
use kanatoko.Capture.Rpc.{Io, resume}
use kanatoko.Capture.Storage.{
  FilePath, Creation, created, already_exists, denied, Files, temporary_name, temporary_path,
  create_temporary_file, on_temporary, replace_by, atomic_write, directory_of, checked, decimal,
}

none_some : {b : Bytes} → ◌≢◌ {A = Option Bytes} none (some b)
none_some h = cc

some_injective : {a b : Bytes} → ◌≡◌ {A = Option Bytes} (some a) (some b) → a ≡ b
some_injective h = cc

abbrev pub Contents : Type 0 → Type 0
Contents World = World → FilePath → Option Bytes

module _ {World : Type 0} (content : Contents World) where
  -- The files other than one are as they were.
  abbrev pub KeptBut : FilePath → World → World → Type 0
  KeptBut p w v = (q : FilePath) → q ≢ p → content v q ≡ content w q

  abbrev pub Kept : World → World → Type 0
  Kept w v = (q : FilePath) → content v q ≡ content w q

  -- What the calls do to the files, per outcome.
  unfoldable pub Created : FilePath → World → World × Creation → Type 0
  Created p w (v, created) = (content w p ≡ none) × (content v p ≡ some []) × KeptBut p w v
  Created p w (v, already_exists) = Kept w v
  Created p w (v, denied) = Kept w v

  unfoldable pub Written : FilePath → Bytes → World → World × Bool → Type 0
  Written p bytes w (v, true) = (content v p ≡ some bytes) × KeptBut p w v
  Written p bytes w (v, false) = KeptBut p w v

  unfoldable pub Renamed : FilePath → FilePath → World → World × Bool → Type 0
  Renamed p q w (v, true) =
      (content v q ≡ content w p) × ((r : FilePath) → r ≢ p → r ≢ q → content v r ≡ content w r)
  Renamed p q w (v, false) = Kept w v

  -- The documented behaviour of the calls; a rename replaces its target at once.
  pub record IsFileSystem (f : Files World) : Type 0 where
    pub read :
        (p : FilePath) (w : World)
        → Kept w (f.read p w).0 × ((b : Bytes) → (f.read p w).1 ≡ some b → content w p ≡ some b)
    pub create_dir_all : (d : Bytes) (w : World) → Kept w (f.create_dir_all d w).0
    pub create_new : (p : FilePath) (w : World) → Created p w (f.create_new p w)
    pub write_all :
        (p : FilePath) (b : Bytes) (w : World)
        → content w p ≡ some []
        → Written p b w (f.write_all p b w)
    pub sync_all : (p : FilePath) (w : World) → Kept w (f.sync_all p w).0
    pub rename : (p q : FilePath) (w : World) → p ≢ q → Renamed p q w (f.rename p q w)
    pub remove_file : (p : FilePath) (w : World) → KeptBut p w (f.remove_file p w).0
    pub sync_directory : (d : Bytes) (w : World) → Kept w (f.sync_directory d w).0
    pub next_sequence : (w : World) → Kept w (f.next_sequence w).0

  -- After writing a file: it has its old content, or the new one, and the new one where the write
  -- succeeded; and every other file that was there has its content.
  abbrev pub IsAtomic : FilePath → Bytes → World → World × Result CaptureError (Unit {0}) → Type 0
  IsAtomic path bytes w (v, r) =
      ((content v path ≡ content w path) ⊎ (content v path ≡ some bytes))
      × (r ≡ ok tt → content v path ≡ some bytes)
      × ((q : FilePath) (old : Bytes) → q ≢ path → content w q ≡ some old → content v q ≡ some old)

  -- The state once the temporary file is there: it was not there before, and is not the target.
  record Prepared (w v : World) (temporary path : FilePath) : Type 0 where
    fresh : content w temporary ≡ none
    other : temporary ≢ path
    kept : KeptBut temporary w v

  prepared_then :
      (w v u : World) (t path : FilePath)
      → Prepared w v t path
      → KeptBut t v u
      → Prepared w u t path
  prepared_then w v u t path p k = record {
    fresh = p.fresh;
    other = p.other;
    kept = λ q n. k q n ∙ p.kept q n;
  }

  not_temporary :
      (w v : World) (t path : FilePath)
      → Prepared w v t path
      → (q : FilePath) (old : Bytes) → content w q ≡ some old
      → q ≢ t
  not_temporary w v t path p q old e same =
      none_some (sym (p.fresh) ∙ ap (content w) (sym same) ∙ e)

  unchanged_file :
      (w v : World) (t path : FilePath)
      → Prepared w v t path
      → (q : FilePath) (old : Bytes) → content w q ≡ some old
      → content v q ≡ some old
  unchanged_file w v t path p q old e = p.kept q (not_temporary w v t path p q old e) ∙ e

  failed-IsAtomic :
      (w v : World) (t path : FilePath) (bytes : Bytes)
      → Prepared w v t path
      → IsAtomic path bytes w (v, err capture_bundle_io)
  failed-IsAtomic w v t path bytes p = (
    inl (p.kept path (λ e. p.other (sym e))),
    (λ h. cc),
    λ q old n e. unchanged_file w v t path p q old e,
  )

  module _ (f : Files World) (l : IsFileSystem f) where
    write-KeptBut :
        (t : FilePath) (bytes : Bytes) (v : World) (x : World × Bool)
        → Written t bytes v x
        → KeptBut t v x.0
    unfolding Written
    write-KeptBut t bytes v (u, true) (a, k) = k
    write-KeptBut t bytes v (u, false) k = k

    landed :
        (t : FilePath) (bytes : Bytes) (v : World) (x : World × Bool)
        → Written t bytes v x
        → x.1 ≡ true
        → content x.0 t ≡ some bytes
    unfolding Written
    landed t bytes v (u, true) (a, k) e = a
    landed t bytes v (u, false) k e = cc

    -- A step on the temporary file: it fails and the target is as it was, or the next one runs.
    stage :
        (w v : World) (t path : FilePath) (bytes : Bytes) (x : World × Bool)
        (next : Unit {0} → Io World CaptureError (Unit {0}))
        → Prepared w v t path
        → KeptBut t v x.0
        → (x.1 ≡ true → Prepared w x.0 t path → IsAtomic path bytes w (next tt x.0))
        → IsAtomic path bytes w (resume next (on_temporary f t (λ u. x) v))
    unfolding on_temporary
    stage w v t path bytes (u, true) next p k go = go refl (prepared_then w v u t path p k)
    stage w v t path bytes (u, false) next p k go =
        failed-IsAtomic w (f.remove_file t u).0 t path bytes (
          prepared_then w u (f.remove_file t u).0 t path (prepared_then w v u t path p k)
            (l.remove_file t u))

    checked_ok : (x : World × Bool) → (checked x).0 ≡ x.0
    checked_ok (u, true) = refl
    checked_ok (u, false) = refl

    -- The rename and what follows it.
    rename-IsAtomic :
        (w v : World) (t path : FilePath) (bytes parent : Bytes)
        → Prepared w v t path
        → content v t ≡ some bytes
        → (x : World × Bool) → Renamed t path v x
        → IsAtomic path bytes w
            (resume (λ a u. checked (f.sync_directory parent u)) (on_temporary f t (λ u. x) v))
    unfolding on_temporary Renamed
    rename-IsAtomic w v t path bytes parent p e (u, true) (r, k) =
        let s : content (checked (f.sync_directory parent u)).0 path ≡ some bytes =
          rw (checked_ok (f.sync_directory parent u)) (l.sync_directory parent u path ∙ r ∙ e) in
        (
          inr s,
          (λ h. s),
          λ q old n d. rw (checked_ok (f.sync_directory parent u)) (
              l.sync_directory parent u q
              ∙ k q (not_temporary w v t path p q old d) n
              ∙ unchanged_file w v t path p q old d),
        )
    rename-IsAtomic w v t path bytes parent p e (u, false) k =
        failed-IsAtomic w (f.remove_file t u).0 t path bytes (
          prepared_then w u (f.remove_file t u).0 t path (prepared_then w v u t path p (λ q n. k q))
            (l.remove_file t u))

    replace-IsAtomic :
        (w v : World) (t path : FilePath) (bytes parent : Bytes)
        → Prepared w v t path
        → content v t ≡ some []
        → IsAtomic path bytes w (replace_by f t path parent bytes v)
    unfolding replace_by
    replace-IsAtomic w v t path bytes parent p e =
        let sync_parent : Unit {0} → Io World CaptureError (Unit {0}) =
          λ a u. checked (f.sync_directory parent u) in
        let move : Unit {0} → Io World CaptureError (Unit {0}) =
          λ a u. resume sync_parent (on_temporary f t (f.rename t path) u) in
        let sync : Unit {0} → Io World CaptureError (Unit {0}) =
          λ a u. resume move (on_temporary f t (f.sync_all t) u) in
        stage w v t path bytes (f.write_all t bytes v) sync p
          (write-KeptBut t bytes v (f.write_all t bytes v) (l.write_all t bytes v e))
          (λ a p'.
            let u = (f.write_all t bytes v).0 in
            let here = landed t bytes v (f.write_all t bytes v) (l.write_all t bytes v e) a in
            stage w u t path bytes (f.sync_all t u) move p' (λ q n. l.sync_all t u q)
              (λ b p''.
                rename-IsAtomic w (f.sync_all t u).0 t path bytes parent p''
                  (l.sync_all t u t ∙ here) (f.rename t path (f.sync_all t u).0)
                  (l.rename t path (f.sync_all t u).0 (p''.other))))

    -- The name of the temporary file is longer than the target's.
    longer :
        (path : FilePath) (file_name parent : Bytes) (sequence : ℕ)
        → path.file_name ≡ some file_name
        → temporary_path f parent file_name sequence ≢ path
    unfolding temporary_name
    longer path file_name parent sequence e same =
        let n = some_injective (ap (λ p. FilePath.file_name p) same ∙ e) in
        absurd (
          omega (
            arith,
            ap length n,
            length-append file_name (
                b'.'
                ∷ b't'
                ∷ b'm'
                ∷ b'p'
                ∷ b'-'
                ∷ (decimal f.process_id ++ b'-' ∷ decimal sequence)),
          ))

    -- What the loop that makes the temporary file leaves.
    Ready : FilePath → World → World × Result CaptureError FilePath → Type 0
    Ready path w (v, ok t) = Prepared w v t path × (content v t ≡ some [])
    Ready path w (v, err e) = Kept w v

    after-Ready :
        (path : FilePath) (w v : World) (r : World × Result CaptureError FilePath)
        → Kept w v
        → Ready path v r
        → Ready path w r
    unfolding Ready
    after-Ready path w v (u, ok t) k (p, e) =
        (record { fresh = sym (k t) ∙ p.fresh; other = p.other; kept = λ q n. p.kept q n ∙ k q }, e)
    after-Ready path w v (u, err e) k h = λ q. h q ∙ k q

    tried :
        (path : FilePath) (w : World) (t : FilePath) (x : World × Creation)
        (again : World → World × Result CaptureError FilePath)
        → t ≢ path
        → Created t w x
        → ((v : World) → Kept w v → Ready path w (again v))
        → Ready path w (elim (x.1) [
          | created ↦ (x.0, ok t)
          | already_exists ↦ again x.0
          | denied ↦ (x.0, err capture_bundle_io)
        ])
    unfolding Ready Created
    tried path w t (v, created) again n (a, b, k) go =
        (record { fresh = a; other = n; kept = k }, b)
    tried path w t (v, already_exists) again n k go = go v k
    tried path w t (v, denied) again n k go = k

    create-Ready :
        (n : ℕ) (path : FilePath) (parent file_name : Bytes) (w : World)
        → path.file_name ≡ some file_name
        → Ready path w (create_temporary_file f n parent file_name w)
    unfolding create_temporary_file Ready
    create-Ready zero path parent file_name w e = λ q. refl
    create-Ready (suc n) path parent file_name w e =
        let v = (f.next_sequence w).0 in
        let t = temporary_path f parent file_name (f.next_sequence w).1 in
        after-Ready path w v _ (l.next_sequence w) (
          tried path v t (f.create_new t v) (create_temporary_file f n parent file_name)
            (longer path file_name parent (f.next_sequence w).1 e) (l.create_new t v)
            (λ u k. after-Ready path v u _ k (create-Ready n path parent file_name u e)))

    replaced-IsAtomic :
        (path : FilePath) (w : World) (bytes parent : Bytes)
        (r : World × Result CaptureError FilePath)
        → Ready path w r
        → IsAtomic path bytes w (resume (λ t. replace_by f t path parent bytes) r)
    unfolding Ready
    replaced-IsAtomic path w bytes parent (v, ok t) (p, e) =
        replace-IsAtomic w v t path bytes parent p e
    replaced-IsAtomic path w bytes parent (v, err e) k =
        (inl (k path), (λ h. cc), λ q old n d. k q ∙ d)

    -- The path by its parts.
    parts-IsAtomic :
        (parent name : Option Bytes) (bytes : Bytes) (w : World)
        → IsAtomic
            (record { parent = parent; file_name = name })
            bytes
            w
            (atomic_write f (record { parent = parent; file_name = name }) bytes w)
    unfolding atomic_write
    parts-IsAtomic parent none bytes w = (inl refl, (λ h. cc), λ q old n d. d)
    parts-IsAtomic parent (some file_name) bytes w =
        let path : FilePath = record { parent = parent; file_name = some file_name } in
        replaced-IsAtomic path w bytes (directory_of parent) _
          (create-Ready 32 path (directory_of parent) file_name w refl)

    -- On a file system whose calls do what they document, `atomic_write` leaves in the target either
    -- its old content or all the new bytes, and the new bytes where it succeeds; every other file
    -- that was there keeps its content.
    pub atomic_write-IsAtomic :
        (path : FilePath) (bytes : Bytes) (w : World)
        → IsAtomic path bytes w (atomic_write f path bytes w)
    atomic_write-IsAtomic path bytes w = parts-IsAtomic path.parent path.file_name bytes w
