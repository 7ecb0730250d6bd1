-- ===== src/Add/Run.antt =====
-- What a run of `opkssh add` leaves behind.
use opkssh.Base.{
  ℕ, Bool, ◌||◌, [], ◌≡◌, ◌≢◌, ◌↔◌, refl, subst, sym, ◌∙◌, arith, Str, str_eq, All, Result, ok, err,
}
use opkssh.Table.RoundTrip.{Storable}
use opkssh.ConfigLog.{ConfigLog}
use opkssh.Policy.{Policy, from_table, to_table, policy_rows, add_allowed_principal, grants}
use opkssh.Policy.Grants.{is_added, grants-add_allowed_principal}
use opkssh.Policy.Encode.{grants-from_table-to_table}
use opkssh.Files.{FsError, CreateError, create_if_does_not_exist}
use opkssh.Files.Load.{IsLawful}
use opkssh.Loader.{Env, load_policy_at_path, dump_policy}
use opkssh.Add.{
  AddError, required_of, get_policy_path, load_policy, Outcome, written, update, created, run_at,
  run,
}
use opkssh.Add.Origin.{
  IsPolicyFile, HasIdentity, from_table-HasIdentity, add-HasIdentity, load-write,
  load_policy-of_load, Origin-load_policy,
}

module _ (env : Env) (username principal email issuer : Str) (s : env.fs.State)
    (log : ConfigLog) where
  open env use {fs}

  -- The steps of a run that succeeds: the path that it chooses, the file that it creates where it
  -- has to, the policy that it loads, and the write.
  record Ran (path : Str) (t : fs.State) (log' : ConfigLog) : Type 0 where
    pub target : Str
    pub use_system : Bool
    pub log1 : ConfigLog
    pub chosen : get_policy_path env username s log ≡ (ok (target, use_system), log1)
    pub s1 : fs.State
    pub prepared :
        create_if_does_not_exist fs env.dir_of (required_of use_system) target s ≡ (ok tt, s1)
    pub before : Policy
    pub loaded : load_policy env username s1 log1 ≡ (ok (before, path), log')
    pub dumped :
        dump_policy env
          (required_of use_system)
          (add_allowed_principal principal email issuer before)
          path
          s1
        ≡ (ok tt, t)

  module _ (path : Str) (t : fs.State) (log' : ConfigLog) where
    abbrev Succeeds : Outcome env username → Type 0
    Succeeds o = o ≡ (ok path, t, log')

    ran :
        (target : Str) (use_system : Bool) (log1 : ConfigLog)
        (c : Result CreateError (Unit {0}) × fs.State)
        → get_policy_path env username s log ≡ (ok (target, use_system), log1)
        → create_if_does_not_exist fs env.dir_of (required_of use_system) target s ≡ c
        → Succeeds (created env username principal email issuer (required_of use_system) log1 c)
        → Ran path t log'
    ran target use_system log1 (err e, s1) g c h = cc
    ran target use_system log1 (ok _, s1) g c h = go (load_policy env username s1 log1) refl h
      where
        go :
            (l : Result AddError (Policy × Str) × ConfigLog)
            → load_policy env username s1 log1 ≡ l
            → Succeeds (update env username principal email issuer (required_of use_system) s1 l)
            → Ran path t log'
        go (err e, log2) l h = cc
        go (ok (p, found), log2) l h = last (dump_policy env _ _ found s1) refl h
          where
            last :
                (d : Result FsError (Unit {0}) × fs.State)
                → dump_policy env
                    (required_of use_system)
                    (add_allowed_principal principal email issuer p)
                    found
                    s1
                  ≡ d
                → Succeeds (written env username principal email issuer found log2 d)
                → Ran path t log'
            last (err e, s2) d h = cc
            last (ok _, s2) d h = record {
              target = target;
              use_system = use_system;
              log1 = log1;
              chosen = g;
              s1 = s1;
              prepared = c;
              before = p;
              loaded = ground arith;
              dumped = ground arith;
            }

    from_choice :
        (g : Result AddError (Str × Bool) × ConfigLog)
        → get_policy_path env username s log ≡ g
        → Succeeds (run_at env username principal email issuer s g)
        → Ran path t log'
    from_choice (err e, log1) g h = cc
    from_choice (ok (target, use_system), log1) g h = ran target use_system log1 _ g refl h

    complete : Ran path t log' → Succeeds (run env username principal email issuer s log)
    unfolding run
    complete r = rw (r.chosen, r.prepared, r.loaded, r.dumped) refl

    -- A run succeeds exactly if each of its steps does: the choice of the file, its creation, the
    -- load of the policy, and the write of the policy with the principal.
    run_iff : (run env username principal email issuer s log ≡ (ok path, t, log')) ↔ Ran path t log'
    run_iff = (λ h. from_choice _ refl (unfold run in h), complete)

    -- What the file holds after a run.
    pub record Holds (q id iss : Str) (l : ConfigLog) (before : Policy) : Type 0 where
      pub required : ℕ
      pub place : IsPolicyFile env username required path
      pub after : Policy
      pub read_back : (load_policy_at_path env required path t l).0 ≡ ok after
      pub allowed :
          grants after q id iss
          ≡ (grants before q id iss || is_added principal email issuer q id iss)

    Holds-of_Ran :
        (q id iss : Str) (l : ConfigLog)
        → IsLawful fs
        → email ≢ []
        → (r : Ran path t log')
        → All
            (Storable env.shell)
            (policy_rows (add_allowed_principal principal email issuer r.before)).rows
        → Holds q id iss l r.before
    Holds-of_Ran q id iss l lawful n r storable =
        let o = Origin-load_policy env username r.s1 r.log1 log' path r.before r.loaded in
        let new = add_allowed_principal principal email issuer r.before in
        let listed =
          subst (λ (p : Policy). All HasIdentity p.users) o.read
            (from_table-HasIdentity env o.content path o.log) in
        record {
          required = o.required;
          place = o.place;
          after = (from_table env.shell (to_table env.shell new) path l).policy;
          read_back = load_policy-of_load env o.required path _ t l (
              load-write env o.required (required_of r.use_system) path o.content
                (to_table env.shell new) r.s1 t lawful o.loaded (unfold dump_policy in r.dumped));
          allowed =
              grants-from_table-to_table path q id iss env.shell new l storable
                (add-HasIdentity principal email issuer r.before n listed)
              ∙ grants-add_allowed_principal principal email issuer q id iss r.before;
        }

    -- The policy that a run loads is determined by its steps.
    same_before :
        (r : Ran path t log') (target found : Str) (use_system : Bool) (log1 log2 : ConfigLog)
        (s1 : fs.State) (before : Policy)
        → get_policy_path env username s log ≡ (ok (target, use_system), log1)
        → create_if_does_not_exist fs env.dir_of (required_of use_system) target s ≡ (ok tt, s1)
        → load_policy env username s1 log1 ≡ (ok (before, found), log2)
        → r.before ≡ before
    same_before r target found use_system log1 log2 s1 before g c l =
        let chosen = sym r.chosen ∙ g in
        let same_target : r.target ≡ target = ground arith in
        let same_flag : r.use_system ≡ use_system = ground arith in
        let same_log : r.log1 ≡ log1 = ground arith in
        let same_state : r.s1 ≡ s1 = ground (
          arith,
          subst
              (λ f.
                create_if_does_not_exist fs env.dir_of (required_of f) r.target s ≡ (ok tt, r.s1))
              same_flag r.prepared,
        ) in
        ground (arith, r.loaded)

    -- After a run of `opkssh add` that succeeds, the file at the path that is returned, which is the
    -- system policy or the policy in the user's home directory, loads again with the check of its
    -- mode, and allows what the policy `before` allowed, and the principal that was added. `before`
    -- is the policy that the run loads, after the file was created if it had to be. The file system
    -- keeps the laws of a write, the email is not empty, and the lines of the policy can be stored.
    pub grants-run :
        (q id iss : Str) (l : ConfigLog) (target found : Str) (use_system : Bool)
        (log1 log2 : ConfigLog) (s1 : fs.State) (before : Policy)
        → IsLawful fs
        → email ≢ []
        → get_policy_path env username s log ≡ (ok (target, use_system), log1)
        → create_if_does_not_exist fs env.dir_of (required_of use_system) target s ≡ (ok tt, s1)
        → load_policy env username s1 log1 ≡ (ok (before, found), log2)
        → All
            (Storable env.shell)
            (policy_rows (add_allowed_principal principal email issuer before)).rows
        → run env username principal email issuer s log ≡ (ok path, t, log')
        → Holds q id iss l before
    grants-run q id iss l target found use_system log1 log2 s1 before lawful n g c o storable h =
        let r = run_iff.0 h in
        let same = same_before r target found use_system log1 log2 s1 before g c o in
        subst (Holds q id iss l) same (
          Holds-of_Ran q id iss l lawful n r (
            subst
              (λ (p : Policy).
                All (Storable env.shell)
                  (policy_rows (add_allowed_principal principal email issuer p)).rows)
              (sym same) storable))
