-- ===== src/ReadHome.antt =====
-- `opkssh readhome`: commands/readhome.go on Linux and Darwin.
use opkssh.Base.{
  ℕ, Bool, true, false, not, ◌&&◌, ◌||◌, List, [], ◌∷◌, ◌≡◌, ◌↔◌, refl, sym, ap, ◌∙◌, arith, Option,
  none, some, Str, str, ◌==◌, nat_eq, str_eq, str_beq_iff, nat_beq_iff, str_beq_refl, true_of_and,
  leb, Result, ok, err, ◌>>=◌, ◌>>◌, guard,
}
use opkssh.Files.{perm, mode_home_perms}

-- What `user.Lookup` returns, and what `Stat` of an open file tells of it.
pub record Account : Type 0 where
  pub uid : Str
  pub home_dir : Str

pub record OpenFile : Type 0 where
  -- The mode and, if the system tells it, the number of the owner in decimal.
  pub info : Option (ℕ × Option Str)
  pub content : Option Str

pub data OpenResult : Type 0 where
  opened : OpenFile → OpenResult
  -- `ELOOP`, since links are not followed.
  symlink not_opened : OpenResult

-- The users, and the files as they are opened with O_NOFOLLOW.
pub record Machine : Type 0 where
  pub lookup : Str → Option Account
  pub username_of : Str → Option Str
  pub join_path : List Str → Str
  pub open_no_follow : Str → OpenResult

pub data ReadError : Type 0 where
  invalid_username unknown_user is_symlink open_failed stat_failed no_owner_id unknown_owner :
      ReadError
  wrong_owner wrong_mode read_failed : ReadError

-- `[a-z0-9_\-.]`
unfoldable pub is_username_byte : ℕ → Bool
is_username_byte c =
    (leb b'a' c && leb c b'z') || (leb b'0' c && leb c b'9') || c == b'_' || c == b'-' || c == b'.'

abbrev all_bytes : Str → Bool
all_bytes [] = true
all_bytes (c ∷ s) = is_username_byte c && all_bytes s

-- `^[a-z0-9_\-.]+$`
unfoldable pub is_valid_username : Str → Bool
unfolding is_username_byte
is_valid_username s = not (s == []) && all_bytes s

abbrev or_error : {A : Type 0} → Option A → ReadError → Result ReadError A
or_error none e = err e
or_error (some a) e = ok a

abbrev opened_file : OpenResult → Result ReadError OpenFile
opened_file (opened f) = ok f
opened_file symlink = err is_symlink
opened_file not_opened = err open_failed

guard_ok :
    {A : Type 0} (b : Bool) (e : ReadError) (r : Result ReadError A) {a : A}
    → guard b e >> r ≡ ok a
    → (b ≡ true) × (r ≡ ok a)
guard_ok true e r h = (refl, h)
guard_ok false e r h = cc

or_error_ok :
    {A B : Type 0} (o : Option A) (e : ReadError) (f : A → Result ReadError B) {b : B}
    → or_error o e >>= f ≡ ok b
    → (a : A) × (o ≡ some a) × (f a ≡ ok b)
or_error_ok (some a) e f h = (a, refl, h)
or_error_ok none e f h = cc

opened_ok :
    {B : Type 0} (r : OpenResult) (f : OpenFile → Result ReadError B) {b : B}
    → opened_file r >>= f ≡ ok b
    → (file : OpenFile) × (r ≡ opened file) × (f file ≡ ok b)
opened_ok (opened file) f h = (file, refl, h)
opened_ok symlink f h = cc
opened_ok not_opened f h = cc

some_of_ok : {A : Type 0} (o : Option A) {a : A} → or_error o read_failed ≡ ok a → o ≡ some a
some_of_ok (some a) h = ground arith
some_of_ok none h = cc

module _ (machine : Machine) where
  abbrev pub home_policy_path : Str → Str
  home_policy_path home = machine.join_path (home ∷ str ".opk" ∷ str "auth_id" ∷ [])

  -- The tests of an opened file.
  abbrev checked : Str → Account → OpenFile → ℕ × Option Str → Result ReadError Str
  checked username account file (mode, owner_id) = or_error owner_id no_owner_id >>= λ owner_uid.
      or_error (machine.username_of owner_uid) unknown_owner >>= λ owner.
      guard (owner_uid == account.uid && owner == username) wrong_owner
      >> (guard (perm mode == mode_home_perms) wrong_mode >> or_error file.content read_failed)

  abbrev for_account : Str → Account → Result ReadError Str
  for_account username account =
      opened_file (machine.open_no_follow (home_policy_path account.home_dir)) >>= λ file.
      or_error file.info stat_failed >>= checked username account file

  -- `ReadHome(username)`
  unfoldable pub read_home : Str → Result ReadError Str
  unfolding is_valid_username
  read_home username =
      guard (is_valid_username username) invalid_username
      >> (or_error (machine.lookup username) unknown_user >>= for_account username)

  -- A user with a valid name, and a file of theirs that is no link, belongs to them by number and
  -- by name, and that only they may read and write.
  pub record Readable (username content : Str) : Type 0 where
    pub account : Account
    pub file : OpenFile
    pub mode : ℕ
    pub valid : is_valid_username username ≡ true
    pub known : machine.lookup username ≡ some account
    pub no_link : machine.open_no_follow (home_policy_path account.home_dir) ≡ opened file
    pub described : file.info ≡ some (mode, some account.uid)
    pub owned : machine.username_of account.uid ≡ some username
    pub private_mode : perm mode ≡ 0o600
    pub read : file.content ≡ some content

  complete : (username content : Str) → Readable username content → read_home username ≡ ok content
  unfolding read_home
  complete username content r =
      rw (r.valid, r.known, r.no_link, r.described, r.owned, r.read)
        (ground (
          arith,
          str_beq_refl r.account.uid,
          str_beq_refl username,
          nat_beq_iff (perm r.mode) mode_home_perms,
          r.private_mode,
        ))

  sound_owner :
      (username content : Str) (account : Account) (file : OpenFile) (mode : ℕ) (uid owner : Str)
      → (guard (uid == account.uid && owner == username) wrong_owner
          >> (guard (perm mode == mode_home_perms) wrong_mode >> or_error file.content read_failed))
        ≡ ok content
      → (uid ≡ account.uid)
        × (owner ≡ username)
        × (perm mode ≡ 0o600)
        × (file.content ≡ some content)
  sound_owner username content account file mode uid owner h =
      let (owned, h1) = guard_ok _ _ _ h in
      let (secure, h2) = guard_ok _ _ _ h1 in
      let (same_uid, same_name) = true_of_and _ _ owned in
      (
        (str_beq_iff uid account.uid).0 same_uid,
        (str_beq_iff owner username).0 same_name,
        (nat_beq_iff (perm mode) mode_home_perms).0 secure,
        some_of_ok file.content h2,
      )

  sound : (username content : Str) → read_home username ≡ ok content → Readable username content
  unfolding read_home
  sound username content h =
      let (valid, h1) = guard_ok _ _ _ h in
      let (account, known, h2) = or_error_ok _ _ _ h1 in
      let (file, no_link, h3) = opened_ok _ _ h2 in
      let ((mode, owner_id), described, h4) = or_error_ok _ _ _ h3 in
      let (uid, uid_known, h5) = or_error_ok _ _ _ h4 in
      let (owner, owned, h6) = or_error_ok _ _ _ h5 in
      let (same_uid, same_name, secure, read) =
        sound_owner username content account file mode uid owner h6 in
      record {
        account = account;
        file = file;
        mode = mode;
        valid = valid;
        known = known;
        no_link = no_link;
        described = described ∙ ap (λ o. some (mode, o)) (uid_known ∙ ap some same_uid);
        owned = ap machine.username_of (sym same_uid) ∙ owned ∙ ap some same_name;
        private_mode = secure;
        read = read;
      }

  -- The content of the home policy is returned exactly for a user with a valid name whose file is
  -- opened without following a link, is described, belongs to the user by number and by name, has
  -- the permission bits 0600, and is read with that content.
  pub read_home_iff :
      (username content : Str) → (read_home username ≡ ok content) ↔ Readable username content
  read_home_iff username content = (sound username content, complete username content)
