-- ===== src/Files/Memory.antt =====
-- A file system in memory: a list of files, the latest version of each in its place.
use opkssh.Base.{
  ℕ, false, List, [], ◌∷◌, ◌≡◌, arith, Option, none, some, Str, ◌==◌, str_eq, str_beq_iff,
  if◌then◌else◌, Result, ok, err, ap, sym, ◌++◌, drop, length,
}
use opkssh.Text.{has_prefix}
use opkssh.Files.{FsError, not_exist, FileInfo, Fs}
use opkssh.Files.Load.{IsLawful}

pub record File : Type 0 where
  pub content : Str
  pub mode : ℕ

abbrev pub Files : Type 0
Files = List (Str × File)

unfoldable pub lookup : Str → Files → Option File
lookup path [] = none
lookup path ((p, f) ∷ fs) = if p == path then some f else lookup path fs

abbrev with_content : Str → File → File
with_content content f = record f { content = content }

unfoldable pub write : Str → Str → ℕ → Files → Files
write path content mode [] = (path, record { content = content; mode = mode }) ∷ []
write path content mode ((p, f) ∷ fs) =
    if p == path then (p, with_content content f) ∷ fs else (p, f) ∷ write path content mode fs

pub set_mode : Str → ℕ → Files → Files
set_mode path mode [] = []
set_mode path mode ((p, f) ∷ fs) =
    if p == path then (p, record f { mode = mode }) ∷ fs else (p, f) ∷ set_mode path mode fs

unfoldable pub erase : Str → Files → Files
erase path [] = []
erase path ((p, f) ∷ fs) = let rest = erase path fs in if p == path then rest else (p, f) ∷ rest

abbrev pub info_of : Str → File → FileInfo
info_of path f = record { mode = f.mode; is_dir = false; name = path }

abbrev to_result {ℓ} : {A : Type ℓ} → Option A → Result FsError A
to_result none = err not_exist
to_result (some a) = ok a

unfoldable pub stat_memory : Str → Option File → Result FsError FileInfo
stat_memory path none = err not_exist
stat_memory path (some f) = ok (info_of path f)

unfoldable pub read_memory : Option File → Result FsError Str
read_memory none = err not_exist
read_memory (some f) = ok f.content

-- Whether a file is there to be removed or opened.
abbrev pub erased : Option File → Result FsError (Unit {0})
erased none = err not_exist
erased (some f) = ok tt

-- The files whose paths start with the name of a directory.
pub listed : Str → Files → List FileInfo
listed dir [] = []
listed dir ((p, f) ∷ fs) =
    let rest = listed dir fs in
    if has_prefix p dir then info_of (drop (length dir) p) f ∷ rest else rest

abbrev pub memory : Fs
memory = record {
  State = Files;
  stat = λ s path. stat_memory path (lookup path s);
  read_file = λ s path. read_memory (lookup path s);
  write_file = λ path content mode s. (ok tt, write path content mode s);
  mkdir_all = λ path mode s. (ok tt, s);
  create = λ path s. (ok tt, write path [] 0o666 s);
  chmod = λ path mode s. (ok tt, set_mode path mode s);
  remove = λ path s. (erased (lookup path s), erase path s);
  open_file = λ s path. erased (lookup path s);
  read_dir = λ s path. ok (listed (path ++ b'/' ∷ []) s);
}

pub lookup-write :
    (path content : Str) (mode : ℕ) (s : Files)
    → lookup path (write path content mode s) ≡ elim (lookup path s) [
      | none ↦ some (record { content = content; mode = mode })
      | some f ↦ some (with_content content f)
    ]
unfolding lookup write
lookup-write path content mode [] = ground (arith, str_beq_iff path path)
lookup-write path content mode ((p, f) ∷ s) =
    ground (arith, str_beq_iff p path, lookup-write path content mode s)

read-write_memory :
    (path content : Str) (mode : ℕ) (s : Files)
    → read_memory (lookup path (write path content mode s)) ≡ ok content
unfolding read_memory
read-write_memory path content mode s = ground (arith, lookup-write path content mode s)

stat-write_memory :
    (path content : Str) (mode : ℕ) (s : Files) (info : FileInfo)
    → stat_memory path (lookup path s) ≡ ok info
    → stat_memory path (lookup path (write path content mode s)) ≡ ok info
unfolding stat_memory
stat-write_memory path content mode s info h = ground (arith, lookup-write path content mode s)

pub memory-IsLawful : IsLawful memory
memory-IsLawful = record {
  read-write = λ path content mode s t h.
      rw (ap (λ (r : Result FsError (Unit {0}) × Files). r.1) (sym h))
        (read-write_memory path content mode s);
  stat-write = λ path content mode s t info i h.
      rw (ap (λ (r : Result FsError (Unit {0}) × Files). r.1) (sym h))
        (stat-write_memory path content mode s info i);
}
