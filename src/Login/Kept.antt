-- ===== src/Login/Kept.antt =====
-- Which files a login leaves as they are.
use opkssh.Base.{
  Bool, true, false, not, List, [], ◌∷◌, ◌≡◌, refl, ◌==◌, ◌≢◌, ◌⊎◌, inl, inr, arith, ◌∙◌, Option,
  none, some, Str, str, str_eq, str_beq, str_beq_iff, All, if◌then◌else◌, Result, ok, err, then_do,
}
use opkssh.Files.{FsError, not_exist, permission, other}
use opkssh.Files.Others.{KeepsOthers}
use opkssh.Login.{
  KeyType, default_ssh_key_file_names, Client, certificate_path, write_keys, write_keys_comment,
}
use opkssh.Login.Keys.{
  Token, make_ssh_key_file_name, exists_of_open, is_free, file_exists, opk_ssh_dir,
  write_first_free, write_keys_to_ssh_dir, write_keys_to_opk_ssh_dir, write_keys_to_destination,
  written, config_failed, mkdir_failed, with_home, with_config, in_opk_dir, in_default, in_ssh_dir,
  with_identity, comment_of,
}

module _ (client : Client) where
  open client use {fs, ssh, join_path}

  -- A key that opkssh did not write: its file is there, and it has no certificate, or one that
  -- cannot be read or parsed, or one with another comment.
  abbrev pub ForeignCertificate : fs.State → Str → Type 0
  ForeignCertificate s cert =
      (fs.open_file s cert ≡ err not_exist)
      ⊎ ((e : FsError) × (fs.read_file s cert ≡ err e))
      ⊎ ((c : Str) × (fs.read_file s cert ≡ ok c) × (ssh.parse_authorized_key c ≡ none))
      ⊎ ((c : Str) × (k : ssh.PublicKey × Str) × (fs.read_file s cert ≡ ok c)
          × (ssh.parse_authorized_key c ≡ some k)
          × (k.1 ≢ str "openpubkey"))

  abbrev pub Foreign : fs.State → Str → Type 0
  Foreign s path =
      (fs.open_file s path ≢ err not_exist) × ForeignCertificate s (certificate_path path)

  open_exists : (r : Result FsError (Unit {0})) → r ≢ err not_exist → exists_of_open client r ≡ true
  open_exists (ok _) n = refl
  open_exists (err not_exist) n = absurd (n refl)
  open_exists (err permission) n = refl
  open_exists (err other) n = refl

  other_comment :
      (k : ssh.PublicKey × Str) → k.1 ≢ str "openpubkey" → (k.1 == str "openpubkey") ≡ false
  other_comment k n = ground (arith, str_beq_iff k.1 (str "openpubkey"))

  module _ (pem cert_bytes file content : Str) where
    Foreign-is_free :
        (s : fs.State) (path : Str)
        → Foreign s path
        → is_free client path (certificate_path path) s ≡ false
    unfolding is_free file_exists
    Foreign-is_free s path (there, inl e) = rw (open_exists _ there, e) refl
    Foreign-is_free s path (there, inr (inl (e, r))) = rw (open_exists _ there, r) (ground arith)
    Foreign-is_free s path (there, inr (inr (inl (c, r, p)))) =
        rw (open_exists _ there, r, p) (ground arith)
    Foreign-is_free s path (there, inr (inr (inr (c, k, r, p, n)))) =
        rw (open_exists _ there, r, p, other_comment k n) (ground arith)

    -- The file has its content.
    abbrev Has : fs.State → Type 0
    Has s = fs.read_file s file ≡ ok content

    Has-then_do :
        {E F : Type 0} (f : E → F) (r : Result E (Unit {0}) × fs.State)
        (next : fs.State → Result F (Unit {0}) × fs.State)
        → Has r.1
        → ((s : fs.State) → Has s → Has (next s).1)
        → Has (then_do f r next).1
    unfolding then_do
    Has-then_do f (ok _, s) next h step = step s h
    Has-then_do f (err e, s) next h step = h

    module _ (laws : KeepsOthers fs) where
      Has-write_keys :
          (path pub_path : Str) (s : fs.State)
          → file ≢ path
          → file ≢ pub_path
          → Has s
          → Has (write_keys client path pub_path pem cert_bytes s).1
      unfolding write_keys
      Has-write_keys path pub_path s n m h =
          Has-then_do (λ e. e) _ _ (laws.written_elsewhere file path pem 0o600 s n ∙ h)
            λ s h. laws.written_elsewhere file pub_path _ 0o644 s m ∙ h

      -- The file is none of the two of a name, or the files of the name are left alone.
      abbrev Apart : fs.State → Str → Type 0
      Apart s path = ((file ≢ path) × (file ≢ certificate_path path)) ⊎ Foreign s path

      Has-write_first_free :
          (ssh_path : Str) (names : List Str) (s : fs.State)
          → All (λ name. Apart s (join_path (ssh_path ∷ name ∷ []))) names
          → Has s
          → Has (write_first_free client pem cert_bytes ssh_path names s).1
      unfolding write_first_free
      Has-write_first_free ssh_path [] s a h = h
      Has-write_first_free ssh_path (name ∷ names) s (inl (n, m), a) h =
          ground (arith, Has-write_keys _ _ s n m h, Has-write_first_free ssh_path names s a h)
      Has-write_first_free ssh_path (name ∷ names) s (inr f, a) h =
          rw (Foreign-is_free s _ f) (Has-write_first_free ssh_path names s a h)

      Has-write_keys_comment :
          (path pub_path comment : Str) (s : fs.State)
          → file ≢ path
          → file ≢ pub_path
          → Has s
          → Has (write_keys_comment client path pub_path pem cert_bytes comment s).1
      unfolding write_keys_comment
      Has-write_keys_comment path pub_path comment s n m h =
          Has-then_do (λ e. e) _ _ (laws.written_elsewhere file path pem 0o600 s n ∙ h)
            λ s h. laws.written_elsewhere file pub_path _ 0o644 s m ∙ h

      -- Outside of what a login writes to the identity directory below a home directory: the key,
      -- its certificate and the configuration.
      abbrev OutsideOpkDir : Token → Option Str → Type 0
      OutsideOpkDir pkt none = Unit
      OutsideOpkDir pkt (some home) =
          let dir = opk_ssh_dir client home in
          let path = join_path (dir ∷ make_ssh_key_file_name pkt ∷ []) in
          (file ≢ join_path (dir ∷ str "config" ∷ []))
          × (file ≢ path)
          × (file ≢ join_path (certificate_path path ∷ []))

      Has-written : (r : Result FsError (Unit {0}) × fs.State) → Has r.1 → Has (written client r).1
      Has-written (r, s) h = h

      Has-with_config :
          (home path : Str) (pkt : Token) (s : fs.State) (rd : Result FsError Str)
          → path ≡ join_path (opk_ssh_dir client home ∷ make_ssh_key_file_name pkt ∷ [])
          → OutsideOpkDir pkt (some home)
          → Has s
          → Has (with_config client pem cert_bytes (opk_ssh_dir client home) path pkt s rd).1
      Has-with_config home path pkt s (err e) p o h = h
      Has-with_config home path pkt s (ok c) p (m, n, o) h =
          Has-then_do config_failed _ _
            (laws.written_elsewhere file _ (with_identity path c) 0o600 s m ∙ h)
            λ s h.
              let cert = join_path (certificate_path path ∷ []) in
              let comment = comment_of pkt in
              Has-written (write_keys_comment client path cert pem cert_bytes comment s)
                (Has-write_keys_comment path cert comment s (rw p n) (rw p o) h)

      Has-in_opk_dir :
          (pkt : Token) (s : fs.State) (home : Option Str)
          → OutsideOpkDir pkt home
          → Has s
          → Has
              (with_home client home s
                λ home. in_opk_dir client pem cert_bytes (opk_ssh_dir client home) pkt s).1
      Has-in_opk_dir pkt s none o h = h
      Has-in_opk_dir pkt s (some home) o h = Has-with_config home _ pkt s _ refl o h

      abbrev OutsideNames : Str → Option (List Str) → fs.State → Type 0
      OutsideNames path none s = Unit
      OutsideNames path (some names) s = All (λ name. Apart s (join_path (path ∷ name ∷ []))) names

      -- Outside of what a login writes to `.ssh` below a home directory, once it is there.
      abbrev OutsideSshDir : KeyType → fs.State → Option Str → Type 0
      OutsideSshDir key_type s none = Unit
      OutsideSshDir key_type s (some home) =
          let path = join_path (home ∷ str ".ssh" ∷ []) in
          OutsideNames path (default_ssh_key_file_names key_type) (fs.mkdir_all path 0o777 s).1

      Has-in_default :
          (path : Str) (names : Option (List Str)) (s : fs.State)
          → OutsideNames path names s
          → Has s
          → Has (in_default client pem cert_bytes path names s).1
      Has-in_default path none s o h = h
      Has-in_default path (some names) s o h = Has-write_first_free path names s o h

      Has-after_mkdir :
          (path : Str) (names : Option (List Str)) (r : Result FsError (Unit {0}) × fs.State)
          → OutsideNames path names r.1
          → Has r.1
          → Has (then_do mkdir_failed r λ s. in_default client pem cert_bytes path names s).1
      unfolding then_do
      Has-after_mkdir path names (ok _, s) o h = Has-in_default path names s o h
      Has-after_mkdir path names (err e, s) o h = h

      Has-in_ssh_dir :
          (key_type : KeyType) (s : fs.State) (home : Option Str)
          → OutsideSshDir key_type s home
          → Has s
          → Has
              (with_home client home s λ home.
                in_ssh_dir client pem cert_bytes key_type (join_path (home ∷ str ".ssh" ∷ [])) s).1
      Has-in_ssh_dir key_type s none o h = h
      Has-in_ssh_dir key_type s (some home) o h =
          Has-after_mkdir _ _ _ o (laws.made_directory file _ content 0o777 s h)

      -- Outside of what a login writes, by the order in which it chooses the place.
      abbrev Outside : Str → Bool → KeyType → Token → fs.State → Type 0
      Outside seckey_path configured key_type pkt s =
          if not (seckey_path == [])
          then (file ≢ seckey_path) × (file ≢ certificate_path seckey_path)
          else if configured
          then OutsideOpkDir pkt client.home
          else OutsideSshDir key_type s client.home

      -- A file that can be read keeps its content in a login, also in one that fails, if it is not
      -- the key, its certificate or the configuration at the place that is chosen: the path of the
      -- argument; or else, if it is set up, the identity directory; or else the default names, of
      -- which those do not count whose key is there with no certificate that has the comment
      -- openpubkey. The file system keeps the laws on other paths.
      pub Has-write_keys_to_destination :
          (seckey_path : Str) (configured : Bool) (key_type : KeyType) (pkt : Token) (s : fs.State)
          → Outside seckey_path configured key_type pkt s
          → fs.read_file s file ≡ ok content
          → fs.read_file
              (write_keys_to_destination client pem cert_bytes seckey_path configured key_type pkt
                s).1
              file
            ≡ ok content
      unfolding write_keys_to_destination write_keys_to_opk_ssh_dir write_keys_to_ssh_dir str_beq
      Has-write_keys_to_destination [] true key_type pkt s o h =
          Has-in_opk_dir pkt s client.home o h
      Has-write_keys_to_destination [] false key_type pkt s o h =
          Has-in_ssh_dir key_type s client.home o h
      Has-write_keys_to_destination (c ∷ path) configured key_type pkt s (m, n) h =
          let cert = certificate_path (c ∷ path) in
          Has-written (write_keys client (c ∷ path) cert pem cert_bytes s)
            (Has-write_keys (c ∷ path) cert s m n h)
