-- ===== src/Loader/Multi.antt =====
-- `MultiPolicyLoader.Load` against the two policies that it reads.
use opkssh.Base.{
  Bool, true, false, ◌&&◌, ◌||◌, List, [], ◌∷◌, ◌≡◌, ◌↔◌, refl, ap, sym, ◌∙◌, arith, Str, ◌==◌,
  str_eq, any-append, or_false, Result, ok, err,
}
use opkssh.ConfigLog.{ConfigLog}
use opkssh.Policy.{Policy, user_grants, grants}
use opkssh.Files.{LoadError}
use opkssh.Loader.{
  Env, HomeError, MultiError, OptionalLoader, valid_policy, with_path, user_policy_path,
  load_home_policy, load_system_policy, merge, load_multi,
}
use opkssh.Loader.Home.{grants-valid_policy}

-- What a loaded policy allows; a policy that could not be loaded allows nothing.
abbrev pub granted {ℓ} : {E : Type ℓ} → Result E Policy → Str → Str → Str → Bool
granted (ok p) q id iss = grants p q id iss
granted (err e) q id iss = false

abbrev pub policy_of {ℓ} : {E : Type ℓ} → Result E (Policy × Str) → Result E Policy
policy_of (ok (p, path)) = ok p
policy_of (err e) = err e

abbrev restrict :
    Str → Result HomeError (Policy × Str) × ConfigLog → Result HomeError (Policy × Str) × ConfigLog
restrict username (ok (p, path), log) = (ok (valid_policy username p, path), log)
restrict username (err e, log) = (err e, log)

with_path-restrict :
    (username path : Str) (r : Result HomeError Policy × ConfigLog)
    → with_path true username path r ≡ restrict username (with_path false username path r)
with_path-restrict username path (ok p, log) = refl
with_path-restrict username path (err e, log) = refl

module _ (env : Env) (username : Str) (loaders : List OptionalLoader) (s : env.fs.State) where
  load_home_policy-restrict :
      (log : ConfigLog)
      → load_home_policy env username true loaders s log
        ≡ restrict username (load_home_policy env username false loaders s log)
  unfolding load_home_policy
  load_home_policy-restrict log = go (user_policy_path env username) refl
    where
      go :
          (r : Result HomeError Str)
          → user_policy_path env username ≡ r
          → load_home_policy env username true loaders s log
            ≡ restrict username (load_home_policy env username false loaders s log)
      go (ok path) e = rw (e, load_home_policy) (with_path-restrict username path _)
      go (err h) e = rw (e, load_home_policy)

-- The restricted policy allows its own user what the policy allows, and nobody else anything.
granted-restrict :
    (username q id iss : Str) (r : Result HomeError (Policy × Str) × ConfigLog)
    → granted (policy_of (restrict username r).0) q id iss
      ≡ (username == q && granted (policy_of r.0) username id iss)
granted-restrict username q id iss (ok (p, path), log) = grants-valid_policy username q id iss p
granted-restrict username q id iss (err e, log) = ground arith

module _ (q id iss : Str) where
  grants-merge :
      (system_path : Str) (root : Result LoadError Policy) (user : Result HomeError (Policy × Str))
      (p : Policy) (src : Str)
      → merge system_path root user ≡ ok (p, src)
      → grants p q id iss ≡ (granted root q id iss || granted (policy_of user) q id iss)
  unfolding merge
  grants-merge system_path (err e) (err f) p src h = cc
  grants-merge system_path (ok root) (err f) p src h =
      ground (arith, or_false (grants root q id iss))
  grants-merge system_path (err e) (ok (user, path)) p src h = ground arith
  grants-merge system_path (ok root) (ok (user, path)) p src h =
      ground (arith, any-append (user_grants q id iss) root.users user.users)

module _ (env : Env) (username : Str) (script : OptionalLoader) (s : env.fs.State)
    (log : ConfigLog) where
  -- What the system policy is loaded to, and what the user's file is, with all its entries.
  abbrev pub root_result : Result LoadError Policy
  root_result = (load_system_policy env s log).0

  abbrev pub home_result : Result HomeError (Policy × Str)
  home_result =
      (load_home_policy env username false (script ∷ []) s (load_system_policy env s log).1).0

  -- The policy that is loaded for a login as `username` allows what the system policy allows, and
  -- of the user's own file only the access to `username`.
  pub grants-load_multi :
      (q id iss : Str) (p : Policy) (src : Str)
      → (load_multi env username script s log).0 ≡ ok (p, src)
      → grants p q id iss ≡ (
          granted root_result q id iss
          || (username == q && granted (policy_of home_result) username id iss))
  grants-load_multi q id iss p src h =
      grants-merge q id iss env.system_path root_result
        (load_home_policy env username true (script ∷ []) s (load_system_policy env s log).1).0 p
        src (unfold load_multi in h)
      ∙ rw (load_home_policy-restrict env username (script ∷ []) s (load_system_policy env s log).1)
          (ap (λ b. granted root_result q id iss || b)
            (granted-restrict username q id iss (
              load_home_policy env username false (script ∷ []) s
                (load_system_policy env s log).1)))

merge_failed :
    (system_path : Str) (root : Result LoadError Policy) (user : Result HomeError (Policy × Str))
    (e : LoadError) (f : HomeError)
    → (merge system_path root user ≡ err (e, f)) ↔ ((root ≡ err e) × (user ≡ err f))
unfolding merge
merge_failed system_path (err e) (err f) a b = ground arith
merge_failed system_path (ok root) (err f) a b = ground arith
merge_failed system_path (err e) (ok (user, path)) a b = ground arith
merge_failed system_path (ok root) (ok (user, path)) a b = ground arith

err_of_restrict :
    (username : Str) (r : Result HomeError (Policy × Str) × ConfigLog) (f : HomeError)
    → ((restrict username r).0 ≡ err f) ↔ (r.0 ≡ err f)
err_of_restrict username (ok (p, path), log) f = ground arith
err_of_restrict username (err e, log) f = ground arith

load_multi_failed :
    (env : Env) (username : Str) (script : OptionalLoader) (s : env.fs.State) (log : ConfigLog)
    (e : LoadError) (f : HomeError)
    → ((load_multi env username script s log).0 ≡ err (e, f)) ↔ (
        (root_result env username script s log ≡ err e)
        × (home_result env username script s log ≡ err f))
load_multi_failed env username script s log e f =
    let log1 = (load_system_policy env s log).1 in
    let m =
      merge_failed env.system_path (load_system_policy env s log).0
        (load_home_policy env username true (script ∷ []) s log1).0 e f in
    let r = err_of_restrict username (load_home_policy env username false (script ∷ []) s log1) f in
    let same =
      ap (λ (x : Result HomeError (Policy × Str) × ConfigLog). x.0)
        (load_home_policy-restrict env username (script ∷ []) s log1) in
    (
      λ h. let (a, b) = m.0 (unfold load_multi in h) in (a, r.0 (sym same ∙ b)),
      λ h. unfold load_multi in m.1 (h.0, same ∙ r.1 h.1),
    )

-- Loading fails exactly if both files cannot be loaded, and then with both errors. In every case,
-- also if one of the files cannot be loaded, what is loaded allows what the system policy allows,
-- and of the user's own file the access to `username`, where a file that cannot be loaded allows
-- nothing: so one broken file keeps nobody out whom the other lets in.
pub load_multi_failed_iff :
    (env : Env) (username : Str) (script : OptionalLoader) (s : env.fs.State) (log : ConfigLog)
    (e : LoadError) (f : HomeError) (q id iss : Str)
    → (((load_multi env username script s log).0 ≡ err (e, f)) ↔ (
        (root_result env username script s log ≡ err e)
        × (home_result env username script s log ≡ err f)))
      × (granted (policy_of (load_multi env username script s log).0) q id iss ≡ (
          granted (root_result env username script s log) q id iss
          || (username == q
              && granted (policy_of (home_result env username script s log)) username id iss)))
load_multi_failed_iff env username script s log e f q id iss =
    (load_multi_failed env username script s log e f, allowed _ refl)
  where
    allowed :
        (r : Result MultiError (Policy × Str))
        → (load_multi env username script s log).0 ≡ r
        → granted (policy_of (load_multi env username script s log).0) q id iss ≡ (
            granted (root_result env username script s log) q id iss
            || (username == q
                && granted (policy_of (home_result env username script s log)) username id iss))
    allowed (ok (p, src)) l =
        ap (λ r. granted (policy_of r) q id iss) l
        ∙ grants-load_multi env username script s log q id iss p src l
    allowed (err (a, b)) l =
        let (root, home) = (load_multi_failed env username script s log a b).0 l in
        rw (l, root, home) (ground arith)
