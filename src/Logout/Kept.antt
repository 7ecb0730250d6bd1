-- ===== src/Logout/Kept.antt =====
-- What a logout removes, and what it leaves.

use opkssh.Base.{
  ℕ, Bool, true, false, List, [], ◌∷◌, ◌++◌, ◌≡◌, ◌≢◌, ◌⊎◌, inl, inr, refl, subst, ap, ◌∙◌, arith,
  Option, none, some, Str, ◌==◌, str_eq, str_beq_iff, All, All-of_append, str_beq, if◌then◌else◌,
  Result, ok, err, ◌>>◌, guard, wrap, Bool-cases,
}
use opkssh.Files.{FsError, FileInfo}
use opkssh.Files.Others.{KeepsOthers}
use opkssh.Login.{KeyType, Client, certificate_path}
use opkssh.Logout.{
  MatchError, LogoutError, not_generated, pair_mismatch, verify_key_pair_match,
  is_openpubkey_comment, Done, Counted, counted, remove_pair, remove_all, remove_listed, check_pair,
  if_passed, remove_specific_key, default_paths, key_paths, remove_default_ssh_dir_keys,
  remove_opk_ssh_dir_keys, in_entries, in_dir, config_of, opk_dir, dir_exists, with_home,
  and_opk_dir, run,
}
use opkssh.Logout.Generated.{IsGenerated, Shrinks, Beside, Spared, Removes}
use opkssh.Logout.Loop.{keeps-remove_all, Shrinks-remove_all}
use opkssh.Logout.Pair.{remove_pair-Removes, remove_listed-Removes, keeps-remove_pair}

module _ (client : Client) (laws : KeepsOthers client.fs) where
  open client use {fs, ssh, join_path}

  -- The paths of the loop over the identity directory.
  abbrev pub entry_paths : Str → Result FsError (List FileInfo) → List Str
  entry_paths dir (err e) = []
  entry_paths dir (ok entries) = key_paths client dir entries

  abbrev pub opk_paths : Str → fs.State → List Str
  opk_paths dir s =
      if dir_exists client (fs.stat s dir) then entry_paths dir (fs.read_dir s dir) else []

  abbrev pub default_of : List KeyType → Option Str → List Str
  default_of order none = []
  default_of order (some home) = default_paths client order home

  abbrev pub opk_of : fs.State → Option Str → List Str
  opk_of s none = []
  opk_of s (some home) = opk_paths (opk_dir client home) s

  -- The paths of the keys that a run without an argument looks at.
  abbrev pub run_paths : List KeyType → fs.State → List Str
  run_paths order s =
      default_of order client.home
      ++ opk_of (remove_default_ssh_dir_keys client order s).1 client.home

  abbrev pub config_path : Option Str → Str
  config_path none = []
  config_path (some home) = config_of client (opk_dir client home)

  guarded :
      (b : Bool) (m : Result MatchError (Unit {0}))
      → guard b not_generated >> wrap pair_mismatch m ≡ ok tt
      → (b ≡ true) × (m ≡ ok tt)
  guarded true (ok _) h = (refl, refl)
  guarded true (err e) h = cc
  guarded false m h = cc

  pub check_pair-IsGenerated :
      (s : fs.State) (path : Str)
      → check_pair client (fs.read_file s (certificate_path path)) (fs.read_file s path) ≡ ok tt
      → IsGenerated client s path
  check_pair-IsGenerated s path h = go _ _ refl refl h
    where
      go :
          (rc rk : Result FsError Str)
          → fs.read_file s (certificate_path path) ≡ rc
          → fs.read_file s path ≡ rk
          → check_pair client rc rk ≡ ok tt
          → IsGenerated client s path
      go (err e) rk ec ek h = cc
      go (ok c) (err e) ec ek h = ground arith
      go (ok c) (ok k) ec ek h =
          let (commented, fits) =
            guarded (is_openpubkey_comment ssh c) (verify_key_pair_match ssh k c) h in
          record {
            certificate = c;
            key = k;
            read_certificate = ec;
            commented = commented;
            read_key = ek;
            fits_key = fits;
          }

  -- A file that is in no pair that opkssh made.
  abbrev Unpaired : fs.State → Str → Type 0
  Unpaired s file =
      (¬ IsGenerated client s file)
      × ((path : Str) → file ≡ certificate_path path → ¬ IsGenerated client s path)

  Unpaired-Spared :
      (s : fs.State) (file path : Str)
      → Unpaired s file
      → ((file ≢ path) × (file ≢ certificate_path path)) ⊎ (¬ IsGenerated client s path)
  Unpaired-Spared s file path (not_key, not_certificate) = elim (Bool-cases (file == path)) [
    | inl e ↦ inr (subst (λ p. ¬ IsGenerated client s p) ((str_beq_iff file path).0 e) not_key)
    | inr n ↦ elim (Bool-cases (file == certificate_path path)) [
      | inl e ↦ inr (not_certificate path ((str_beq_iff file _).0 e))
      | inr m ↦ inl (
        (λ e. ground (arith, str_beq_iff file path)),
        λ e. ground (arith, str_beq_iff file (certificate_path path)),
      )
    ]
  ]

  all-Spared :
      (s : fs.State) (file config : Str) (paths : List Str)
      → Unpaired s file
      → All (Beside client config) paths
      → All (λ path. Beside client config path × Spared client s file path) paths
  all-Spared s file config [] u b = tt
  all-Spared s file config (path ∷ paths) u (b, bs) =
      ((b, Unpaired-Spared s file path u), all-Spared s file config paths u bs)

  module _ (s : fs.State) (file content config : Str) (unpaired : Unpaired s file)
      (not_config : file ≢ config) where
    -- The file has its content, and no other file has a new one.
    abbrev Fine : fs.State → Type 0
    Fine t = Shrinks client config s t × (fs.read_file t file ≡ ok content)

    Fine-remove_all :
        (remove : Str → fs.State → Done client)
        → Removes client config remove
        → (paths : List Str) (n : ℕ) (t : fs.State) → All (Beside client config) paths
        → Fine t
        → Fine (remove_all client remove paths n t).1
    Fine-remove_all remove removes paths n t b (f, h) = (
      Shrinks-remove_all client config remove removes paths n s t b f,
      keeps-remove_all client config remove removes s file content paths n t not_config
          (all-Spared s file config paths unpaired b) f h,
    )

    Fine-default :
        (order : List KeyType) (home : Option Str)
        → All (Beside client config) (default_of order home)
        → Fine s
        → Fine
            (with_home client
              (λ home. remove_all client (remove_pair client) (default_paths client order home) 0 s)
              s
              home).1
    Fine-default order none b f = f
    Fine-default order (some home) b f =
        Fine-remove_all _ (remove_pair-Removes client laws config) _ 0 s b f

    Fine-in_dir :
        (dir : Str) (t : fs.State)
        → config ≡ config_of client dir
        → All (Beside client config) (opk_paths dir t)
        → Fine t
        → Fine (in_dir client dir t).1
    Fine-in_dir dir t c b f = go (dir_exists client (fs.stat t dir)) (fs.read_dir t dir) b
      where
        go :
            (there : Bool) (r : Result FsError (List FileInfo))
            → All (Beside client config) (if there then entry_paths dir r else [])
            → Fine (if there then in_entries client dir t r else (ok 0, t)).1
        go false r b = f
        go true (err e) b = f
        go true (ok entries) b =
            Fine-remove_all _
              (subst (λ d. Removes client config (remove_listed client d)) c
                (remove_listed-Removes client laws config))
              _ 0 t b f

    Fine-opk :
        (t : fs.State) (home : Option Str)
        → config ≡ config_path home
        → All (Beside client config) (opk_of t home)
        → Fine t
        → Fine (with_home client (λ home. in_dir client (opk_dir client home) t) t home).1
    Fine-opk t none c b f = f
    Fine-opk t (some home) c b f = Fine-in_dir (opk_dir client home) t c b f

    Fine-and_opk_dir :
        (r : Counted client)
        → config ≡ config_path client.home
        → All (Beside client config) (opk_of r.1 client.home)
        → Fine r.1
        → Fine (and_opk_dir client r).1
    unfolding remove_opk_ssh_dir_keys
    Fine-and_opk_dir (err e, t) c b f = f
    Fine-and_opk_dir (ok n, t) c b f = Fine-opk t client.home c b f

    keeps-if_passed :
        (path : Str) (r : Result LogoutError (Unit {0}))
        → ((r ≡ ok tt) → IsGenerated client s path)
        → fs.read_file s file ≡ ok content
        → fs.read_file (if_passed client r (remove_pair client path) s).1 file ≡ ok content
    keeps-if_passed path (err e) g h = h
    keeps-if_passed path (ok _) g h = elim (Unpaired-Spared s file path unpaired) [
      | inl (n, m) ↦ keeps-remove_pair client laws config path file content s n m h
      | inr spared ↦ absurd (spared (g refl))
    ]

  pub state-counted : (d : Done client) → (counted client (λ s. (ok 1, s)) d).1 ≡ d.1
  state-counted (ok _, t) = refl
  state-counted (err e, t) = refl

  -- The paths that a run looks at are not the configuration, nor are their certificates.
  module _ (order : List KeyType) (s : fs.State)
      (beside : All (Beside client (config_path client.home)) (run_paths order s)) where
    -- A file that can be read keeps its content in a logout, also in one that fails, if it is
    -- not the configuration of the identity directory and in no pair that opkssh made: a
    -- certificate with its comment and the secret key to it, as they are at the start. The paths
    -- that the run looks at are beside the configuration, and the file system keeps its laws.
    pub keeps-run :
        (key_path file content : Str)
        → (path_independent : Unpaired s file) → file ≢ config_path client.home
        → fs.read_file s file ≡ ok content
        → fs.read_file (run client key_path order s).1 file ≡ ok content
    unfolding run remove_specific_key remove_default_ssh_dir_keys str_beq
    keeps-run [] file content u n h =
        let (b1, b2) =
          All-of_append (Beside client (config_path client.home)) (default_of order client.home) _
            beside in
        let config = config_path client.home in
        (Fine-and_opk_dir s file content config u n (remove_default_ssh_dir_keys client order s)
          refl b2
          (Fine-default s file content config u n order client.home b1 ((λ p c m r. r), h))).1
    keeps-run (c ∷ path) file content u n h =
        let certificate = fs.read_file s (certificate_path (c ∷ path)) in
        let key = fs.read_file s (c ∷ path) in
        ap (λ t. fs.read_file t file) (state-counted _)
        ∙ keeps-if_passed s file content (config_path client.home) u n (c ∷ path)
            (check_pair client certificate key) (check_pair-IsGenerated s (c ∷ path)) h
