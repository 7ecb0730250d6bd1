-- ===== src/Logout/Gone.antt =====
-- After a logout that succeeds.
use opkssh.Base.{
  ℕ, Bool, true, false, not, List, [], ◌∷◌, ◌++◌, ◌≡◌, ◌⊎◌, inl, inr, Bool-cases, refl, subst, sym,
  arith, Option, none, some, Str, ◌==◌, str_eq, str_beq, All, All-append, All-of_append,
  if◌then◌else◌, Result, ok, err,
}
use opkssh.Files.{FsError, FileInfo}
use opkssh.Files.Others.{KeepsOthers}
use opkssh.Login.{KeyType, Client}
use opkssh.Logout.{
  LogoutError, Done, Counted, counted, remove_pair, remove_all, remove_listed, if_passed,
  remove_specific_key, default_paths, remove_default_ssh_dir_keys, remove_opk_ssh_dir_keys,
  in_entries, in_dir, config_of, opk_dir, dir_exists, is_generated, with_home, plus, and_opk_dir,
  run,
}
use opkssh.Logout.Generated.{
  IsGenerated, IsGenerated-Shrinks, IsGenerated-is_generated, is_generated-IsGenerated, IsRemoved,
  Shrinks, Beside, Removes,
}
use opkssh.Logout.Fate.{Apart, Fate, IsRemoved-of_Fate, Clear, Fate-run}
use opkssh.Logout.Loop.{Shrinks-remove_all, gone-remove_all}
use opkssh.Logout.Pair.{
  remove_pair-Removes, remove_listed-Removes, gone-remove_pair, gone_certificate-remove_pair,
}
use opkssh.Logout.Kept.{
  entry_paths, opk_paths, default_of, opk_of, run_paths, config_path, state-counted,
}

module _ (client : Client) (laws : KeepsOthers client.fs) where
  open client use {fs}

  -- No path is that of a key that opkssh made.
  abbrev NoneAt : List Str → fs.State → Type 0
  NoneAt paths t = All (λ path. ¬ IsGenerated client t path) paths

  NoneAt-Shrinks :
      (config : Str) (paths : List Str) (s t : fs.State)
      → All (Beside client config) paths
      → Shrinks client config s t
      → NoneAt paths s
      → NoneAt paths t
  NoneAt-Shrinks config [] s t b f g = tt
  NoneAt-Shrinks config (path ∷ paths) s t (b, bs) f (g, gs) = (
    (λ i. g (IsGenerated-Shrinks client config path s t b f i)),
    NoneAt-Shrinks config paths s t bs f gs,
  )

  -- Where the loops stop without an error, the keys they went through are gone; no new content.
  module _ (config : Str) (count : ℕ) where
    abbrev Cleared : List Str → fs.State → Counted client → Type 0
    Cleared paths s c = Shrinks client config s c.1 × ((c.0 ≡ ok count) → NoneAt paths c.1)

    Cleared-remove_all :
        (remove : Str → fs.State → Done client)
        → Removes client config remove
        → (paths : List Str) (t : fs.State) → All (Beside client config) paths
        → Cleared paths t (remove_all client remove paths 0 t)
    Cleared-remove_all remove removes paths t b = (
      Shrinks-remove_all client config remove removes paths 0 t t b (λ p c n h. h),
      gone-remove_all client config remove removes paths 0 t count b,
    )

    Cleared-default :
        (order : List KeyType) (s : fs.State) (home : Option Str)
        → All (Beside client config) (default_of client laws order home)
        → Cleared (default_of client laws order home) s (
            with_home client
              (λ home. remove_all client (remove_pair client) (default_paths client order home) 0 s)
              s
              home)
    Cleared-default order s none b = ((λ p c n h. h), λ h. tt)
    Cleared-default order s (some home) b =
        Cleared-remove_all _ (remove_pair-Removes client laws config) _ s b

    Cleared-in_dir :
        (dir : Str) (t : fs.State)
        → config ≡ config_of client dir
        → All (Beside client config) (opk_paths client laws dir t)
        → Cleared (opk_paths client laws dir t) t (in_dir client dir t)
    Cleared-in_dir dir t c b = go (dir_exists client (fs.stat t dir)) (fs.read_dir t dir) b
      where
        go :
            (there : Bool) (r : Result FsError (List FileInfo))
            → All (Beside client config) (if there then entry_paths client laws dir r else [])
            → Cleared
                (if there then entry_paths client laws dir r else [])
                t
                (if there then in_entries client dir t r else (ok 0, t))
        go false r b = ((λ p c n h. h), λ h. tt)
        go true (err e) b = ((λ p c n h. h), λ h. tt)
        go true (ok entries) b =
            Cleared-remove_all _
              (subst (λ d. Removes client config (remove_listed client d)) c
                (remove_listed-Removes client laws config))
              _ t b

    Cleared-opk :
        (t : fs.State) (home : Option Str)
        → config ≡ config_path client laws home
        → All (Beside client config) (opk_of client laws t home)
        → Cleared
            (opk_of client laws t home)
            t
            (with_home client (λ home. in_dir client (opk_dir client home) t) t home)
    Cleared-opk t none c b = ((λ p c n h. h), λ h. tt)
    Cleared-opk t (some home) c b = Cleared-in_dir (opk_dir client home) t c b

  plus_ok :
      (n count : ℕ) (r : Counted client)
      → (plus client n r).0 ≡ ok count
      → (m : ℕ) × (r.0 ≡ ok m) × ((plus client n r).1 ≡ r.1)
  plus_ok n count (ok m, t) h = (m, refl, refl)
  plus_ok n count (err e, t) h = cc

  module _ (config : Str) (same : config ≡ config_path client laws client.home) where
    NoneAt-and_opk_dir :
        (paths : List Str) (r : Counted client) (count : ℕ)
        → All (Beside client config) paths
        → All (Beside client config) (opk_of client laws r.1 client.home)
        → ((n : ℕ) → (r.0 ≡ ok n) → NoneAt paths r.1)
        → (and_opk_dir client r).0 ≡ ok count
        → NoneAt (paths ++ opk_of client laws r.1 client.home) (and_opk_dir client r).1
    unfolding remove_opk_ssh_dir_keys
    NoneAt-and_opk_dir paths (err e, t) count b1 b2 g h = cc
    NoneAt-and_opk_dir paths (ok n, t) count b1 b2 g h =
        let (m, r, e) = plus_ok n count (remove_opk_ssh_dir_keys client t) h in
        let (shrinks, cleared) = Cleared-opk config m t client.home same b2 in
        All-append (λ path. ¬ IsGenerated client _ path) paths _
          (NoneAt-Shrinks config paths t _ b1 shrinks (g n refl)) (cleared r)

  -- The keys that a run is to remove: that of the argument, or those it looks at.
  abbrev pub targets : Str → List KeyType → fs.State → List Str
  targets key_path order s =
      if not (key_path == []) then key_path ∷ [] else run_paths client laws order s

  -- A key of the argument is removed if a run succeeds.
  passed_gone :
      (path : Str) (s : fs.State) (r : Result LogoutError (Unit {0})) (count : ℕ)
      → Beside client [] path
      → (counted client (λ s. (ok 1, s)) (if_passed client r (remove_pair client path) s)).0
        ≡ ok count
      → IsRemoved client (if_passed client r (remove_pair client path) s).1 path
  passed_gone path s (err e) count b h = absurd (ground arith)
  passed_gone path s (ok _) count b h =
      let done = of_counted (remove_pair client path s) h in
      (
        λ c. gone-remove_pair client laws [] path c s b.0 done,
        λ c. gone_certificate-remove_pair client laws [] path c s done,
      )
    where
      of_counted :
          (d : Done client) → (counted client (λ s. (ok 1, s)) d).0 ≡ ok count → d.0 ≡ ok tt
      of_counted (ok _, t) h = refl
      of_counted (err e, t) h = cc

  module _ (order : List KeyType) (s : fs.State) (count : ℕ) where
    abbrev config : Str
    config = config_path client laws client.home

    -- The key was not one of opkssh, or both of its files are gone.
    abbrev Settled : fs.State → Str → Type 0
    Settled t path = (¬ IsGenerated client s path) ⊎ IsRemoved client t path

    Settled-of_Fate :
        (path : Str) (t : fs.State)
        → (IsGenerated client s path → Fate client path t)
        → ¬ IsGenerated client t path
        → Settled t path
    Settled-of_Fate path t f n = elim (Bool-cases (is_generated client path s)) [
      | inl e ↦
          inr (IsRemoved-of_Fate client path t (f (is_generated-IsGenerated client path s e)) n)
      | inr e ↦ inl (λ g. ground (arith, IsGenerated-is_generated client path s g))
    ]

    all-Clear :
        (path : Str) (paths : List Str)
        → All (Beside client config) paths
        → All (Apart path) paths
        → All (Clear client config path) paths
    all-Clear path [] b a = tt
    all-Clear path (q ∷ paths) (b, bs) (a, aa) = ((b, a), all-Clear path paths bs aa)

    all-Settled :
        (all paths : List Str)
        → (run client [] order s).0 ≡ ok count
        → all ≡ run_paths client laws order s
        → All (Beside client config) all
        → All (Beside client config) paths
        → All (λ p. All (Apart p) all) paths
        → NoneAt paths (run client [] order s).1
        → All (Settled (run client [] order s).1) paths
    all-Settled all [] h e b bs aa ns = tt
    all-Settled all (path ∷ paths) h e b (p, bs) (a, aa) (n, ns) = (
      Settled-of_Fate path _
          (λ g.
            Fate-run client laws path config refl p order s count
              (subst (λ ps. All (Clear client config path) ps) e (all-Clear path all b a)) (inr g)
              h)
          n,
      all-Settled all paths h e b bs aa ns,
    )

    none_left :
        All (Beside client config) (run_paths client laws order s)
        → (run client [] order s).0 ≡ ok count
        → NoneAt (run_paths client laws order s) (run client [] order s).1
    unfolding run remove_default_ssh_dir_keys str_beq
    none_left b h =
        let (b1, b2) =
          All-of_append (Beside client config) (default_of client laws order client.home) _ b in
        NoneAt-and_opk_dir config refl _ (remove_default_ssh_dir_keys client order s) count b1 b2
          (λ n. (Cleared-default config n order s client.home b1).1) h

    argument_gone :
        (c : ℕ) (path : Str)
        → (run client (c ∷ path) order s).0 ≡ ok count
        → IsRemoved client (run client (c ∷ path) order s).1 (c ∷ path)
    unfolding run remove_specific_key str_beq
    argument_gone c path h =
        subst (λ t. IsRemoved client t (c ∷ path)) (sym (state-counted client laws _))
          (passed_gone (c ∷ path) s _ count ((λ e. cc), λ e. cc) h)

    -- After a logout that succeeds, of each key that it was to remove and that opkssh made, both
    -- the secret key and the certificate are gone. Those are the key of the argument, or, without
    -- one, the default names of all key types, in whichever order, and the entries of the identity
    -- directory that are no directory, not the configuration and no certificate. The paths are
    -- beside the configuration, no path is that of the certificate of another, and the file system
    -- keeps its laws.
    pub gone-run :
        (key_path : Str)
        → All (Beside client config) (run_paths client laws order s)
        → All (λ p. All (Apart p) (run_paths client laws order s)) (run_paths client laws order s)
        → (run client key_path order s).0 ≡ ok count
        → All
            (λ path.
              (¬ IsGenerated client s path) ⊎ IsRemoved client (run client key_path order s).1 path)
            (targets key_path order s)
    unfolding str_beq
    gone-run [] b a h = all-Settled (run_paths client laws order s) _ h refl b b a (none_left b h)
    gone-run (c ∷ path) b a h = (inr (argument_gone c path h), tt)
