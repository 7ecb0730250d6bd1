-- ===== src/Files/Others.antt =====
-- What operations on one path do to the files at other paths.
use opkssh.Base.{ℕ, [], ◌∷◌, ◌≡◌, ◌≢◌, ◌⊎◌, refl, arith, none, Str, str_eq, str_beq_iff, ok, err}
use opkssh.Files.{not_exist, Fs}
use opkssh.Files.Memory.{Files, memory, lookup, write, erase, read_memory}

-- What the documentation of the operations says, also where they fail, of the content of files.
pub record KeepsOthers (fs : Fs) : Type 0 where
  pub written_elsewhere :
      (path other content : Str) (mode : ℕ) (s : fs.State)
      → path ≢ other
      → fs.read_file (fs.write_file other content mode s).1 path ≡ fs.read_file s path
  pub made_directory :
      (path dir content : Str) (mode : ℕ) (s : fs.State)
      → fs.read_file s path ≡ ok content
      → fs.read_file (fs.mkdir_all dir mode s).1 path ≡ ok content
  pub removed_elsewhere :
      (path other : Str) (s : fs.State)
      → path ≢ other
      → fs.read_file (fs.remove other s).1 path ≡ fs.read_file s path
  -- A file that is removed, or was missing, cannot be read, and a removal makes no content.
  pub removed :
      (path content : Str) (s : fs.State)
      → ((fs.remove path s).0 ≡ ok tt) ⊎ ((fs.remove path s).0 ≡ err not_exist)
      → fs.read_file (fs.remove path s).1 path ≢ ok content
  pub removal_only :
      (path content : Str) (s : fs.State)
      → fs.read_file (fs.remove path s).1 path ≡ ok content
      → fs.read_file s path ≡ ok content

pub lookup-write_other :
    (path other content : Str) (mode : ℕ) (s : Files)
    → path ≢ other
    → lookup path (write other content mode s) ≡ lookup path s
unfolding lookup write
lookup-write_other path other content mode [] n = ground (arith, str_beq_iff other path)
lookup-write_other path other content mode ((p, f) ∷ s) n =
    ground
      (arith, str_beq_iff p path, str_beq_iff p other, lookup-write_other path other content mode s)

lookup-erase_other :
    (path other : Str) (s : Files) → path ≢ other → lookup path (erase other s) ≡ lookup path s
unfolding lookup erase
lookup-erase_other path other [] n = refl
lookup-erase_other path other ((p, f) ∷ s) n =
    ground (arith, str_beq_iff p path, str_beq_iff p other, lookup-erase_other path other s)

lookup-erase : (path : Str) (s : Files) → lookup path (erase path s) ≡ none
unfolding lookup erase
lookup-erase path [] = refl
lookup-erase path ((p, f) ∷ s) = ground (arith, str_beq_iff p path, lookup-erase path s)

pub memory-KeepsOthers : KeepsOthers memory
unfolding read_memory
memory-KeepsOthers = record {
  written_elsewhere =
      λ path other content mode s n. rw (lookup-write_other path other content mode s n) refl;
  made_directory = λ path dir content mode s h. h;
  removed_elsewhere = λ path other s n. rw (lookup-erase_other path other s n) refl;
  removed = λ path content s r h. ground (arith, lookup-erase path s);
  removal_only = λ path content s h. ground (arith, lookup-erase path s);
}
