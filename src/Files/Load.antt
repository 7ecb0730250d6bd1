-- ===== src/Files/Load.antt =====
-- `LoadFileAtPath`, and the laws of a file system that the callers rely on.
use opkssh.Base.{
  ℕ, ◌≡◌, ◌↔◌, refl, arith, Option, Str, nat_eq, Result, ok, err, nat_beq_iff, str_beq,
}
use opkssh.Files.{FsError, FileInfo, Fs, perm, check_perm, load_parts, load_file_at_path}

-- What the documentation of `os.WriteFile` and `os.Stat` says of a path that is written.
pub record IsLawful (fs : Fs) : Type 0 where
  pub read-write :
      (path content : Str) (mode : ℕ) (s t : fs.State)
      → fs.write_file path content mode s ≡ (ok tt, t)
      → fs.read_file t path ≡ ok content
  -- A file that is there keeps its permission bits.
  pub stat-write :
      (path content : Str) (mode : ℕ) (s t : fs.State) (info : FileInfo)
      → fs.stat s path ≡ ok info
      → fs.write_file path content mode s ≡ (ok tt, t)
      → fs.stat t path ≡ ok info

module _ (fs : Fs) (run_stat : Str → Option Str) (required : ℕ) (path : Str) (s : fs.State) where
  -- A file is loaded exactly if it can be described, has the required permission bits and can be
  -- read; what is loaded is its content.
  pub record Loads (content : Str) : Type 0 where
    pub info : FileInfo
    pub described : fs.stat s path ≡ ok info
    pub secure : perm info.mode ≡ required
    pub read : fs.read_file s path ≡ ok content

module _ (run_stat : Str → Option Str) (required : ℕ) (path : Str) where
  load_parts_ok :
      (st : Result FsError FileInfo) (rd : Result FsError Str) (content : Str)
      → load_parts run_stat required path st rd ≡ ok content
      → (info : FileInfo) × (st ≡ ok info) × (perm info.mode ≡ required) × (rd ≡ ok content)
  unfolding load_parts check_perm
  load_parts_ok (err e) rd content h = cc
  load_parts_ok (ok info) (ok found) content h =
      (info, refl, ground (arith, nat_beq_iff required (perm info.mode)), ground arith)
  load_parts_ok (ok info) (err e) content h = ground arith

  pub load_parts-of_ok :
      (info : FileInfo) (content : Str)
      → perm info.mode ≡ required
      → load_parts run_stat required path (ok info) (ok content) ≡ ok content
  unfolding load_parts check_perm str_beq
  load_parts-of_ok info content h = ground (arith, nat_beq_iff required (perm info.mode))

module _ (fs : Fs) (run_stat : Str → Option Str) (required : ℕ) (path : Str) (s : fs.State) where
  pub load-Loads :
      (content : Str)
      → load_file_at_path fs run_stat required path s ≡ ok content
      → Loads fs run_stat required path s content
  load-Loads content h =
      let (info, st, mode, rd) =
        load_parts_ok run_stat required path (fs.stat s path) (fs.read_file s path) content
          (unfold load_file_at_path in h) in
      record { info = info; described = st; secure = mode; read = rd }

  pub Loads-load :
      (content : Str)
      → Loads fs run_stat required path s content
      → load_file_at_path fs run_stat required path s ≡ ok content
  unfolding load_file_at_path
  Loads-load content l =
      rw (l.described, l.read) (load_parts-of_ok run_stat required path l.info content l.secure)

  -- `LoadFileAtPath` returns a content exactly if the file can be described, has the required
  -- permission bits and is read with that content.
  pub load_file_at_path_iff :
      (content : Str)
      → (load_file_at_path fs run_stat required path s ≡ ok content)
        ↔ Loads fs run_stat required path s content
  load_file_at_path_iff content = (load-Loads content, Loads-load content)
