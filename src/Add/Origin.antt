-- ===== src/Add/Origin.antt =====
-- The file that `LoadPolicy` reads, and what it holds after it is written.
use opkssh.Base.{
  ℕ, false, List, [], ◌∷◌, ◌≡◌, ◌≢◌, ◌⊎◌, inl, inr, refl, sym, arith, Str, str_eq, All, All-append,
  Result, ok, err, Result-cases, Bool-cases,
}
use opkssh.Table.{Row, new_table}
use opkssh.ConfigLog.{ConfigLog}
use opkssh.Policy.{User, Policy, from_table, add_allowed_principal, matches}
use opkssh.Policy.Parse.{all_users, row_users, row_keeps_identity, from_table_lem}
use opkssh.Policy.Add.{insert_first, add_allowed_principal_lem}
use opkssh.Files.{LoadError, load_file_at_path, mode_system_perms, mode_home_perms}
use opkssh.Files.Load.{IsLawful, load_file_at_path_iff}
use opkssh.Loader.{
  Env, parse, with_path, optional_content, user_policy_path, load_policy_at_path,
  load_system_policy, load_home_policy,
}
use opkssh.Add.{is_permission, policy_of, from_home, load_policy}

abbrev pub HasIdentity : User → Type 0
HasIdentity u = u.identity_attribute ≢ []

all_users-HasIdentity : (rows : List Row) → All HasIdentity (all_users rows)
all_users-HasIdentity [] = tt
all_users-HasIdentity (row ∷ rows) =
    All-append HasIdentity (row_users row) _ (row_keeps_identity row) (all_users-HasIdentity rows)

pub from_table-HasIdentity :
    (env : Env) (content path : Str) (log : ConfigLog)
    → All HasIdentity (from_table env.shell content path log).policy.users
from_table-HasIdentity env content path log =
    rw (from_table_lem path env.shell content log)
      (all_users-HasIdentity (new_table env.shell content).rows)

module _ (principal email issuer : Str) where
  insert_first-HasIdentity :
      (us : List User)
      → email ≢ []
      → All HasIdentity us
      → All HasIdentity (insert_first principal email issuer us)
  unfolding insert_first
  insert_first-HasIdentity [] n _ = (n, tt)
  insert_first-HasIdentity (u ∷ us) n (i, is) = elim (Bool-cases (matches email issuer u)) [
    | inl e ↦ rw e (i, is)
    | inr e ↦ rw e (i, insert_first-HasIdentity us n is)
  ]

  pub add-HasIdentity :
      (p : Policy)
      → email ≢ []
      → All HasIdentity p.users
      → All HasIdentity (add_allowed_principal principal email issuer p).users
  add-HasIdentity p n is = ground (
    arith,
    add_allowed_principal_lem principal email issuer p,
    insert_first-HasIdentity p.users n is,
  )

module _ (env : Env) where
  open env use {fs, shell}

  -- The policy files of a user, each with the mode that it is to have: that of the system, and
  -- the one in the user's home directory.
  abbrev pub IsPolicyFile : Str → ℕ → Str → Type 0
  IsPolicyFile username required path =
      ((required ≡ mode_system_perms) × (path ≡ env.system_path))
      ⊎ ((required ≡ mode_home_perms) × (user_policy_path env username ≡ ok path))

  -- A file that was loaded is loaded again after it was written, with what was written.
  pub load-write :
      (required mode : ℕ) (path old new : Str) (s t : fs.State)
      → IsLawful fs
      → load_file_at_path fs env.run_stat required path s ≡ ok old
      → fs.write_file path new mode s ≡ (ok tt, t)
      → load_file_at_path fs env.run_stat required path t ≡ ok new
  load-write required mode path old new s t lawful l w =
      let before = (load_file_at_path_iff fs env.run_stat required path s old).0 l in
      (load_file_at_path_iff fs env.run_stat required path t new).1 (record {
        info = before.info;
        described = lawful.stat-write path new mode s t before.info before.described w;
        secure = before.secure;
        read = lawful.read-write path new mode s t w;
      })

  pub load_policy-of_load :
      (required : ℕ) (path content : Str) (s : fs.State) (log : ConfigLog)
      → load_file_at_path fs env.run_stat required path s ≡ ok content
      → (load_policy_at_path env required path s log).0
        ≡ ok (from_table shell content path log).policy
  unfolding load_policy_at_path
  load_policy-of_load required path content s log h = rw h refl

  -- The file that a policy was read from.
  pub record Origin (username : Str) (s : fs.State) (path : Str) (p : Policy) : Type 0 where
    pub required : ℕ
    pub place : IsPolicyFile username required path
    pub content : Str
    pub log : ConfigLog
    pub loaded : load_file_at_path fs env.run_stat required path s ≡ ok content
    pub read : (from_table shell content path log).policy ≡ p

  Origin-system :
      (username : Str) (s : fs.State) (log log' : ConfigLog) (path : Str) (p q : Policy)
      (r : Result LoadError Str)
      → load_file_at_path fs env.run_stat mode_system_perms env.system_path s ≡ r
      → parse shell env.system_path r log ≡ (ok q, log')
      → env.system_path ≡ path
      → q ≡ p
      → Origin username s path p
  Origin-system username s log log' path p q (err e) l h same_path same = cc
  Origin-system username s log log' path p q (ok content) l h same_path same = record {
    required = mode_system_perms;
    place = inl (refl, sym same_path);
    content = content;
    log = log;
    loaded = ground arith;
    read = ground arith;
  }

  module _ (username : Str) where
    Origin-home :
        (s : fs.State) (log log' : ConfigLog) (home path : Str) (p : Policy)
        (r : Result LoadError Str)
        → user_policy_path env username ≡ ok home
        → load_file_at_path fs env.run_stat mode_home_perms home s ≡ r
        → from_home env username (
            with_path false username home
              (parse shell home (optional_content username home r []) log))
          ≡ (ok (p, path), log')
        → Origin username s path p
    Origin-home s log log' home path p (err e) place l h = cc
    Origin-home s log log' home path p (ok content) place l h = record {
      required = mode_home_perms;
      place = inr (refl, ground arith);
      content = content;
      log = log;
      loaded = ground arith;
      read = ground arith;
    }

    Origin-load_home :
        (s : fs.State) (log log' : ConfigLog) (path : Str) (p : Policy)
        → from_home env username (load_home_policy env username false [] s log)
          ≡ (ok (p, path), log')
        → Origin username s path p
    unfolding load_home_policy
    Origin-load_home s log log' path p h = elim (Result-cases (user_policy_path env username)) [
      | inl (home, e) ↦ Origin-home s log log' home path p _ e refl (ground arith)
      | inr (f, e) ↦ absurd (ground arith)
    ]

    pub Origin-load_policy :
        (s : fs.State) (log log' : ConfigLog) (path : Str) (p : Policy)
        → load_policy env username s log ≡ (ok (p, path), log')
        → Origin username s path p
    Origin-load_policy s log log' path p h =
        go (load_system_policy env s log) refl (unfold load_policy in h)
      where
        go :
            (r : Result LoadError Policy × ConfigLog)
            → load_system_policy env s log ≡ r
            → policy_of env username s r ≡ (ok (p, path), log')
            → Origin username s path p
        go (ok q, l) e h =
            Origin-system username s log l path p q _ refl
              (unfold load_system_policy load_policy_at_path in e) (ground arith) (ground arith)
        go (err e, l) eq h = elim (Bool-cases (is_permission e)) [
          | inl y ↦ Origin-load_home s l log' path p (ground arith)
          | inr n ↦ absurd (ground arith)
        ]
