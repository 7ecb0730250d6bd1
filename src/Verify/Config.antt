-- ===== src/Verify/Config.antt =====
-- When the server configuration is in force.
use opkssh.Base.{
  Bool, true, List, [], ◌∷◌, ◌++◌, ◌≡◌, ◌↔◌, refl, ◌∙◌, sym, arith, Option, none, some, Str, All,
  append-nil, append_assoc, Bool-cases, inl, inr, ◌⊎◌, Option-cases, Result, Result-cases, ok, err,
  str, str_eq, nat_eq,
}
use opkssh.Text.{split, trim_space}
use opkssh.Files.{FsError, FileInfo, Fs, perm, Check, passed, refused, panicked, check_perm}
use opkssh.Files.Perms.{OwnerMatches, OutputMatches, check_perm_passed_iff}
use opkssh.Verify.{
  ServerConfig, ConfigError, set_env_vars, Session, apply_config, read_checked,
  read_from_server_config,
}

module _ (settable : Str → Str → Bool) where
  abbrev pub IsSettable : Str × Str → Type 0
  IsSettable (k, v) = settable k v ≡ true

  set_env_vars_ok :
      (vars env done : List (Str × Str))
      → (set_env_vars settable vars env ≡ (ok tt, done))
        ↔ (All IsSettable vars × (done ≡ env ++ vars))
  unfolding set_env_vars
  set_env_vars_ok [] env done =
      (λ h. (tt, ground (arith, append-nil env)), λ h. ground (arith, append-nil env, h.1))
  set_env_vars_ok ((k, v) ∷ vars) env done =
      let ih = set_env_vars_ok vars (env ++ (k, v) ∷ []) done in
      let a = append_assoc env ((k, v) ∷ []) vars in
      elim (Bool-cases (settable k v)) [
        | inl y ↦ (
          λ h. let (ss, e) = ih.0 (ground arith) in ((y, ss), e ∙ a),
          λ h. ground (arith, ih.1 (h.0.1, h.1 ∙ sym a)),
        )
        | inr n ↦ (λ h. absurd (ground arith), λ h. absurd (ground (arith, h.0)))
      ]

-- The mode of the file is 0640, and `stat` prints that it belongs to root and opksshuser.
pub record IsSecured (fs : Fs) (run_stat : Str → Option Str) (path : Str) (t : fs.State)
    : Type 0 where
  pub info : FileInfo
  pub described : fs.stat t path ≡ ok info
  pub mode : perm info.mode ≡ 0o640
  pub output : Str
  pub printed : run_stat path ≡ some output
  pub owned : split (trim_space output) b' ' ≡ str "root" ∷ str "opksshuser" ∷ []

module _ (fs : Fs) (run_stat : Str → Option Str) (path : Str) (t : fs.State) where
  abbrev config_check : Result FsError FileInfo → Check
  config_check info = check_perm run_stat info path (0o640 ∷ []) (str "root") (str "opksshuser")

  owners :
      (parts : List Str)
      → OwnerMatches (str "root") (str "opksshuser") parts
      → parts ≡ str "root" ∷ str "opksshuser" ∷ []
  owners [] m = absurd m
  owners (o ∷ []) m = absurd m
  owners (o ∷ g ∷ []) m = ground (arith, m)
  owners (o ∷ g ∷ x ∷ more) m = absurd m

  of_output :
      (output : Option Str)
      → OutputMatches (str "root") (str "opksshuser") output
      → (text : Str) × (output ≡ some text)
        × (split (trim_space text) b' ' ≡ str "root" ∷ str "opksshuser" ∷ [])
  of_output none m = absurd m
  of_output (some text) m = (text, refl, owners _ m)

  of_safe :
      ((str "root" ≡ []) × (str "opksshuser" ≡ []))
        ⊎ OutputMatches (str "root") (str "opksshuser") (run_stat path)
      → (text : Str) × (run_stat path ≡ some text)
        × (split (trim_space text) b' ' ≡ str "root" ∷ str "opksshuser" ∷ [])
  of_safe (inl (o, g)) = absurd cc
  of_safe (inr m) = of_output (run_stat path) m

  IsSecured-of_passed : config_check (fs.stat t path) ≡ passed → IsSecured fs run_stat path t
  unfolding check_perm
  IsSecured-of_passed h = elim (Result-cases (fs.stat t path)) [
    | inl (info, e) ↦
        let safe =
          (check_perm_passed_iff run_stat info path (0o640 ∷ []) (str "root") (str "opksshuser")).0
            (ground arith) in
        let (output, printed, owned) = of_safe safe.owned in
        record {
          info = info;
          described = e;
          mode = ground (arith, safe.mode_listed);
          output = output;
          printed = printed;
          owned = owned;
        }
    | inr (e, f) ↦ absurd (ground arith)
  ]

  passed-of_IsSecured : IsSecured fs run_stat path t → config_check (fs.stat t path) ≡ passed
  passed-of_IsSecured i = rw i.described (
      (check_perm_passed_iff run_stat i.info path (0o640 ∷ []) (str "root") (str "opksshuser")).1
        (record {
          mode_listed = ground (arith, i.mode);
          owned = inr (rw (i.printed, i.owned) (inr refl, inr refl));
        }))

module _ (fs : Fs) (run_stat : Str → Option Str) (settable : Str → Str → Bool)
    (parse : Str → Option ServerConfig) (path : Str) (disk : fs.State) (s : Session) where
  abbrev read : Result FsError Str
  read = fs.read_file disk path

  abbrev check : Check
  check = config_check fs run_stat path disk (fs.stat disk path)

  -- The configuration that is in force: the file is read, it is secured, its text is a
  -- configuration, and its variables can all be set.
  pub record Applies (t : Session) : Type 0 where
    pub text : Str
    pub content : fs.read_file disk path ≡ ok text
    pub secure : IsSecured fs run_stat path disk
    pub config : ServerConfig
    pub parsed : parse text ≡ some config
    pub all_set : All (IsSettable settable) config.env_vars
    pub result : t ≡ record {
      deny_list = record { emails = config.deny_emails; users = config.deny_users };
      env = s.env ++ config.env_vars;
    }

  apply_config_ok :
      (config : ServerConfig) (t : Session)
      → (apply_config settable config s ≡ (ok tt, t)) ↔ (
          All (IsSettable settable) config.env_vars
          × (t ≡ record {
            deny_list = record { emails = config.deny_emails; users = config.deny_users };
            env = s.env ++ config.env_vars;
          }))
  apply_config_ok config t = go (set_env_vars settable config.env_vars s.env) refl
    where
      go :
          (r : Result ConfigError (Unit {0}) × List (Str × Str))
          → set_env_vars settable config.env_vars s.env ≡ r
          → (apply_config settable config s ≡ (ok tt, t)) ↔ (
              All (IsSettable settable) config.env_vars
              × (t ≡ record {
                deny_list = record { emails = config.deny_emails; users = config.deny_users };
                env = s.env ++ config.env_vars;
              }))
      go (ok _, env) e =
          let (ss, done) = (set_env_vars_ok settable config.env_vars s.env env).0 e in
          (λ h. (ss, ground arith), λ h. ground (arith, h.1))
      go (err f, env) e = (
        λ h. absurd (ground arith),
        λ h. absurd (
            ground (
              arith,
              (set_env_vars_ok settable config.env_vars s.env (s.env ++ config.env_vars)).1
                  (h.0, refl),
            )),
      )

  sound :
      (t : Session) (f : Result FsError Str) (c : Check)
      → read ≡ f
      → check ≡ c
      → read_checked settable f c parse s ≡ (ok tt, t)
      → Applies t
  unfolding read_checked
  sound t (err e) c ef ec h = cc
  sound t (ok text) panicked ef ec h = cc
  sound t (ok text) (refused e) ef ec h = cc
  sound t (ok text) passed ef ec h = elim (Option-cases (parse text)) [
    | inl e ↦ absurd (ground arith)
    | inr (config, e) ↦
        let (all, result) = (apply_config_ok config t).0 (ground arith) in
        record {
          text = text;
          content = ef;
          secure = IsSecured-of_passed fs run_stat path disk ec;
          config = config;
          parsed = e;
          all_set = all;
          result = result;
        }
  ]

  complete :
      (t : Session)
      → Applies t
      → read_from_server_config fs run_stat settable parse path disk s ≡ (ok tt, t)
  unfolding read_from_server_config read_checked
  complete t a =
      rw (a.content, passed-of_IsSecured fs run_stat path disk a.secure, read_checked, a.parsed)
        ((apply_config_ok a.config t).1 (a.all_set, a.result))

  -- `ReadFromServerConfig` succeeds exactly if the file can be read, its mode is 0640 and `stat`
  -- prints root and opksshuser for it, its text is a configuration and its variables can be set;
  -- the deny lists are then those of the file and the variables stand behind those that were set
  -- before.
  pub read_from_server_config_iff :
      (t : Session)
      → (read_from_server_config fs run_stat settable parse path disk s ≡ (ok tt, t)) ↔ Applies t
  unfolding read_from_server_config
  read_from_server_config_iff t = (λ h. sound t read check refl refl h, complete t)
