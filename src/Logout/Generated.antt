-- ===== src/Logout/Generated.antt =====
-- The keys that opkssh made, and what a loop does with one of them.
use opkssh.Base.{
  true, ◌≡◌, ◌≢◌, ◌⊎◌, refl, arith, Str, Result, ok, err, is_ok, ok_of_is_ok, ap, true_of_if,
}
use opkssh.Files.{FsError}
use opkssh.Login.{Client, certificate_path}
use opkssh.Logout.{verify_key_pair_match, is_openpubkey_comment, Done, is_generated, generated}

module _ (client : Client) where
  open client use {fs, ssh}

  -- A key that opkssh made: a certificate with its comment, and the secret key to it.
  pub record IsGenerated (s : fs.State) (path : Str) : Type 0 where
    pub certificate : Str
    pub key : Str
    pub read_certificate : fs.read_file s (certificate_path path) ≡ ok certificate
    pub commented : is_openpubkey_comment ssh certificate ≡ true
    pub read_key : fs.read_file s path ≡ ok key
    pub fits_key : verify_key_pair_match ssh key certificate ≡ ok tt

  pub IsGenerated-is_generated :
      (path : Str) (s : fs.State) → IsGenerated s path → is_generated client path s ≡ true
  unfolding is_generated is_ok
  IsGenerated-is_generated path s g =
      rw (g.read_certificate, g.read_key, g.commented, ap is_ok g.fits_key) refl

  pub is_generated-IsGenerated :
      (path : Str) (s : fs.State) → is_generated client path s ≡ true → IsGenerated s path
  unfolding is_generated
  is_generated-IsGenerated path s h = go _ _ refl refl h
    where
      go :
          (rc rk : Result FsError Str)
          → fs.read_file s (certificate_path path) ≡ rc
          → fs.read_file s path ≡ rk
          → generated client rc rk ≡ true
          → IsGenerated s path
      go (err e) rk ec ek h = cc
      go (ok c) (err e) ec ek h = ground arith
      go (ok c) (ok k) ec ek h =
          let (commented, fits) = true_of_if _ _ h in
          record {
            certificate = c;
            key = k;
            read_certificate = ec;
            commented = commented;
            read_key = ek;
            fits_key = ok_of_is_ok _ fits;
          }

  -- No file holds what it did not hold before, except for the configuration.
  abbrev pub Shrinks : Str → fs.State → fs.State → Type 0
  Shrinks config s t =
      (path content : Str)
      → path ≢ config
      → fs.read_file t path ≡ ok content
      → fs.read_file s path ≡ ok content

  -- The files of a key are not the configuration.
  abbrev pub Beside : Str → Str → Type 0
  Beside config path = (path ≢ config) × (certificate_path path ≢ config)

  pub IsGenerated-Shrinks :
      (config path : Str) (s t : fs.State)
      → Beside config path
      → Shrinks config s t
      → IsGenerated t path
      → IsGenerated s path
  IsGenerated-Shrinks config path s t (n, m) shrinks g = record {
    certificate = g.certificate;
    key = g.key;
    read_certificate = shrinks _ _ m g.read_certificate;
    commented = g.commented;
    read_key = shrinks _ _ n g.read_key;
    fits_key = g.fits_key;
  }

  -- Neither the secret key nor the certificate can be read.
  abbrev pub IsRemoved : fs.State → Str → Type 0
  IsRemoved s path =
      ((content : Str) → fs.read_file s path ≢ ok content)
      × ((content : Str) → fs.read_file s (certificate_path path) ≢ ok content)

  -- What a loop does with a key: it changes the files of the key only, and, if it succeeds, both
  -- are gone.
  pub record Removes (config : Str) (remove : Str → fs.State → Done client) : Type 0 where
    pub shrinks : (path : Str) (s : fs.State) → Shrinks config s (remove path s).1
    pub keeps :
        (path file content : Str) (s : fs.State)
        → file ≢ path
        → file ≢ certificate_path path
        → file ≢ config
        → fs.read_file s file ≡ ok content
        → fs.read_file (remove path s).1 file ≡ ok content
    pub gone :
        (path content : Str) (s : fs.State)
        → path ≢ config
        → (remove path s).0 ≡ ok tt
        → fs.read_file (remove path s).1 path ≢ ok content
    pub gone_certificate :
        (path content : Str) (s : fs.State)
        → certificate_path path ≢ config
        → (remove path s).0 ≡ ok tt
        → fs.read_file (remove path s).1 (certificate_path path) ≢ ok content

  -- Not one of the two files of a key, or the key is not one that opkssh made.
  abbrev pub Spared : fs.State → Str → Str → Type 0
  Spared s file path = ((file ≢ path) × (file ≢ certificate_path path)) ⊎ (¬ IsGenerated s path)
