-- ===== src/File/Disk.antt =====
-- Files in memory, each as its bytes before and behind the offset: an instance of `FileOps`.
use iu.Prelude.{
  ℕ, zero, suc, ◌+◌, ◌≤◌, ◌<◌, ◌≡◌, refl, Option, none, some, List, [], ◌++◌, append-nil, length,
  take, drop, ltb, if◌then◌else◌, arith,
}
use iu.File.{FileOps}

abbrev pub Disk : Type 0
Disk = List ℕ × List ℕ

abbrev pub disk_read : ℕ → Disk → Option (List ℕ × Disk)
disk_read n (before, behind) =
    if ltb (length behind) n
    then none
    else some (take n behind, (before ++ take n behind, drop n behind))

abbrev pub disk_write : List ℕ → Disk → Disk
disk_write bytes (before, behind) = (before ++ bytes, drop (length bytes) behind)

pub disk_read_lem :
    (n : ℕ) (f : Disk)
    → n ≤ length f.1
    → (g : Disk) × (disk_read n f ≡ some (take n f.1, g)) × (g.1 ≡ drop n f.1)
disk_read_lem n (before, behind) h = ((before ++ take n behind, drop n behind), ground arith, refl)

pub disk_read_past : (n : ℕ) (f : Disk) → length f.1 < n → disk_read n f ≡ none
disk_read_past n (before, behind) h = ground arith

pub drop-nil : (n : ℕ) → drop {A = ℕ} n [] ≡ []
drop-nil zero = refl
drop-nil (suc n) = refl

pub disk_write_lem :
    (bytes : List ℕ) (f : Disk)
    → f.1 ≡ []
    → ((disk_write bytes f).0 ++ (disk_write bytes f).1 ≡ (f.0 ++ f.1) ++ bytes)
      × ((disk_write bytes f).1 ≡ [])
disk_write_lem bytes (before, behind) h = (
  rw (h, drop-nil (length bytes), append-nil before) (append-nil (before ++ bytes)),
  rw (h, drop-nil (length bytes)),
)

abbrev pub disk : FileOps Disk
disk = record {
  content = λ f. f.1;
  size = λ f. length f.0 + length f.1;
  read = disk_read;
  write = disk_write;
  rewind = λ f. ([], f.0 ++ f.1);
  tmpfile = ([], []);
  written = λ f. f.0 ++ f.1;
  read_lem = disk_read_lem;
  read_past = disk_read_past;
  tmpfile_lem = (refl, refl);
  write_lem = disk_write_lem;
  content-rewind = λ f. refl;
  size-rewind = λ f. omega arith;
}
