-- ===== src/Tests/Disk.antt =====
-- A file system in memory, and the properties of files and of automatic runs at concrete inputs.
use kanatoko.Prelude.{
  ◌≡◌, ◌≢◌, ◌∙◌, refl, sym, [], Option, none, some, true, false, holds, holds-yes, holds-no,
  if◌then◌else◌, ℕ_discrete,
}
use kanatoko.Bytes.{Bytes}
use kanatoko.Capture.Storage.{FilePath, Creation, created, already_exists, Files}
use kanatoko.Capture.Storage.Atomic.{Contents, IsFileSystem, Created, Written, Renamed}

FilePath-discrete : Discrete FilePath
unfolding ℕ_discrete
FilePath-discrete = hlevel ℕ_discrete

abbrev pub Disk : Type 0
Disk = FilePath → Option Bytes

abbrev pub content : Contents Disk
content w = w

unfoldable pub put : FilePath → Option Bytes → Disk → Disk
unfolding FilePath-discrete
put p bytes w q = if holds (FilePath-discrete q p) then bytes else w q

put_same : (p : FilePath) (bytes : Option Bytes) (w : Disk) → put p bytes w p ≡ bytes
unfolding put
put_same p bytes w = rw (holds-yes (FilePath-discrete p p) refl) refl

put_other : (p q : FilePath) (bytes : Option Bytes) (w : Disk) → q ≢ p → put p bytes w q ≡ w q
unfolding put
put_other p q bytes w n = rw (holds-no (FilePath-discrete q p) n) refl

create : FilePath → Disk → Option Bytes → Disk × Creation
unfolding put
create p w none = (put p (some []) w, created)
create p w (some bytes) = (w, already_exists)

unfoldable pub disk : Files Disk
unfolding put create
disk = record {
  exists = λ p w. elim (w p) [ none ↦ false | some b ↦ true ];
  read = λ p w. (w, w p);
  create_dir_all = λ d w. (w, true);
  create_new = λ p w. create p w (w p);
  write_all = λ p b w. (put p (some b) w, true);
  sync_all = λ p w. (w, true);
  rename = λ p q w. (put p none (put q (w p) w), true);
  remove_file = λ p w. (put p none w, true);
  sync_directory = λ d w. (w, true);
  next_sequence = λ w. (w, 0);
  process_id = 12;
}

create-Created :
    (p : FilePath) (w : Disk) (o : Option Bytes) → w p ≡ o → Created content p w (create p w o)
unfolding Created create
create-Created p w none e = (e, put_same p (some []) w, λ q n. put_other p q (some []) w n)
create-Created p w (some bytes) e = λ q. refl

pub disk-IsFileSystem : IsFileSystem content disk
unfolding disk Written Renamed
disk-IsFileSystem = record {
  read = λ p w. ((λ q. refl), λ b e. e);
  create_dir_all = λ d w q. refl;
  create_new = λ p w. create-Created p w (w p) refl;
  write_all = λ p b w e. (put_same p (some b) w, λ q n. put_other p q (some b) w n);
  sync_all = λ p w q. refl;
  rename = λ p q w n. (
    put_other p q none (put q (w p) w) (λ e. n (sym e)) ∙ put_same q (w p) w,
    λ r a b. put_other p r none (put q (w p) w) a ∙ put_other q r (w p) w b,
  );
  remove_file = λ p w q n. put_other p q none w n;
  sync_directory = λ d w q. refl;
  next_sequence = λ w q. refl;
}
