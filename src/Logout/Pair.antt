-- ===== src/Logout/Pair.antt =====
-- What the removal of a pair of files does, with its line of the configuration and without.
use opkssh.Base.{
  true, ◌≡◌, ◌≢◌, ◌⊎◌, inl, inr, refl, sym, subst, ◌∙◌, arith, Str, ◌==◌, str_eq, str_beq_iff,
  Result, ok, err, then_do, Bool-cases,
}
use opkssh.Files.{FsError, not_exist, permission, other}
use opkssh.Files.Others.{KeepsOthers}
use opkssh.Login.{Client, certificate_path}
use opkssh.Logout.{
  key_not_removed, certificate_not_removed, unless_missing, remove_key_pair, remove_pair,
  remove_listed, remove_from_opk_ssh_config, rewrite_config, without_identity,
}
use opkssh.Logout.Generated.{Shrinks, Removes}

module _ (client : Client) (laws : KeepsOthers client.fs) (config : Str) where
  open client use {fs}

  -- A predicate carried through a step.
  kept {ℓ} :
      {E F : Type 0} (P : fs.State → Type ℓ) (f : E → F) (r : Result E (Unit {0}) × fs.State)
      (next : fs.State → Result F (Unit {0}) × fs.State)
      → P r.1
      → ((s : fs.State) → P s → P (next s).1)
      → P (then_do f r next).1
  unfolding then_do
  kept P f (ok _, s) next p step = step s p
  kept P f (err e, s) next p step = p

  state-unless_missing :
      (r : Result FsError (Unit {0}) × fs.State) → (unless_missing client r).1 ≡ r.1
  state-unless_missing (ok _, s) = refl
  state-unless_missing (err not_exist, s) = refl
  state-unless_missing (err permission, s) = refl
  state-unless_missing (err other, s) = refl

  only_if_removed :
      (r : Result FsError (Unit {0}) × fs.State)
      → (unless_missing client r).0 ≡ ok tt
      → (r.0 ≡ ok tt) ⊎ (r.0 ≡ err not_exist)
  only_if_removed (ok _, s) h = inl refl
  only_if_removed (err not_exist, s) h = inr refl
  only_if_removed (err permission, s) h = cc
  only_if_removed (err other, s) h = cc

  Shrinks-remove :
      (s0 s : fs.State) (path : Str)
      → Shrinks client config s0 s
      → Shrinks client config s0 (unless_missing client (fs.remove path s)).1
  Shrinks-remove s0 s path f =
      subst (Shrinks client config s0) (sym (state-unless_missing _)) λ p c n h.
        elim (Bool-cases (p == path)) [
          | inl e ↦ f p c n (removal_at p c e h)
          | inr e ↦
              f p c n
                (sym (laws.removed_elsewhere p path s (ground (arith, str_beq_iff p path))) ∙ h)
        ]
    where
      removal_at :
          (p c : Str)
          → (p == path) ≡ true
          → fs.read_file (fs.remove path s).1 p ≡ ok c
          → fs.read_file s p ≡ ok c
      removal_at p c e h =
          let same = (str_beq_iff p path).0 e in
          subst (λ q. fs.read_file s q ≡ ok c) (sym same)
            (laws.removal_only path c s
              (subst (λ q. fs.read_file (fs.remove path s).1 q ≡ ok c) same h))

  Has-remove :
      (file content path : Str) (s : fs.State)
      → file ≢ path
      → fs.read_file s file ≡ ok content
      → fs.read_file (unless_missing client (fs.remove path s)).1 file ≡ ok content
  Has-remove file content path s n h =
      subst (λ t. fs.read_file t file ≡ ok content) (sym (state-unless_missing _))
        (laws.removed_elsewhere file path s n ∙ h)

  Shrinks-remove_pair :
      (path : Str) (s : fs.State) → Shrinks client config s (remove_pair client path s).1
  unfolding remove_key_pair
  Shrinks-remove_pair path s =
      kept (Shrinks client config s) key_not_removed _ _ (Shrinks-remove s s path λ p c n h. h)
        λ t f.
          kept (Shrinks client config s) certificate_not_removed _ _ (Shrinks-remove s t _ f)
            λ u g. g

  pub keeps-remove_pair :
      (path file content : Str) (s : fs.State)
      → file ≢ path
      → file ≢ certificate_path path
      → fs.read_file s file ≡ ok content
      → fs.read_file (remove_pair client path s).1 file ≡ ok content
  unfolding remove_key_pair
  keeps-remove_pair path file content s n m h =
      kept (λ t. fs.read_file t file ≡ ok content) key_not_removed _ _
        (Has-remove file content path s n h)
        λ t g.
          kept (λ t. fs.read_file t file ≡ ok content) certificate_not_removed _ _
            (Has-remove file content _ t m g) λ u g. g

  -- The steps of a removal that succeeds.
  first_ok :
      {E F : Type 0} (f : E → F) (r : Result E (Unit {0}) × fs.State)
      (next : fs.State → Result F (Unit {0}) × fs.State)
      → (then_do f r next).0 ≡ ok tt
      → (r.0 ≡ ok tt) × ((next r.1).0 ≡ ok tt) × ((then_do f r next).1 ≡ (next r.1).1)
  unfolding then_do
  first_ok f (ok _, s) next h = (refl, h, refl)
  first_ok f (err e, s) next h = cc

  pub gone-remove_pair :
      (path content : Str) (s : fs.State)
      → path ≢ config
      → (remove_pair client path s).0 ≡ ok tt
      → fs.read_file (remove_pair client path s).1 path ≢ ok content
  unfolding remove_key_pair
  gone-remove_pair path content s n h g =
      let r = unless_missing client (fs.remove path s) in
      let (removed, rest, same) = first_ok key_not_removed r _ h in
      let after = Shrinks-remove r.1 r.1 (certificate_path path) (λ p c n h. h) in
      let (_, _, last) = first_ok certificate_not_removed _ _ rest in
      laws.removed path content s (only_if_removed _ removed) (
        subst (λ t. fs.read_file t path ≡ ok content) (state-unless_missing (fs.remove path s))
          (after path content n (subst (λ t. fs.read_file t path ≡ ok content) (same ∙ last) g)))

  pub gone_certificate-remove_pair :
      (path content : Str) (s : fs.State)
      → (remove_pair client path s).0 ≡ ok tt
      → fs.read_file (remove_pair client path s).1 (certificate_path path) ≢ ok content
  unfolding remove_key_pair
  gone_certificate-remove_pair path content s h g =
      let t = (unless_missing client (fs.remove path s)).1 in
      let certificate = certificate_path path in
      let (_, rest, same) =
        first_ok key_not_removed (unless_missing client (fs.remove path s)) _ h in
      let r = unless_missing client (fs.remove certificate t) in
      let (removed, _, last) = first_ok certificate_not_removed r _ rest in
      laws.removed certificate content t (only_if_removed _ removed) (
        subst (λ u. fs.read_file u certificate ≡ ok content)
          (state-unless_missing (fs.remove certificate t))
          (subst (λ u. fs.read_file u certificate ≡ ok content) (same ∙ last) g))

  pub remove_pair-Removes : Removes client config (remove_pair client)
  remove_pair-Removes = record {
    shrinks = Shrinks-remove_pair;
    keeps = λ path file content s n m c h. keeps-remove_pair path file content s n m h;
    gone = gone-remove_pair;
    gone_certificate = λ path content s n h. gone_certificate-remove_pair path content s h;
  }

  -- The rewritten configuration is the only file that changes.
  same-rewrite_config :
      (file path : Str) (s : fs.State) (r : Result FsError Str)
      → file ≢ config
      → fs.read_file (rewrite_config client config path s r).1 file ≡ fs.read_file s file
  same-rewrite_config file path s (err e) n = refl
  same-rewrite_config file path s (ok c) n =
      laws.written_elsewhere file config (without_identity path c) 0o600 s n

  same-remove_from_config :
      (file path : Str) (s : fs.State)
      → file ≢ config
      → fs.read_file (remove_from_opk_ssh_config client config path s).1 file ≡ fs.read_file s file
  unfolding remove_from_opk_ssh_config
  same-remove_from_config file path s n = same-rewrite_config file path s _ n

  gone-remove_listed :
      (path content : Str) (s : fs.State)
      → path ≢ config
      → (remove_listed client config path s).0 ≡ ok tt
      → fs.read_file (remove_listed client config path s).1 path ≢ ok content
  gone-remove_listed path content s n h g =
      let (pair, _, same) = first_ok (λ e. e) (remove_pair client path s) _ h in
      gone-remove_pair path content s n pair (
        sym (same-remove_from_config path path _ n)
        ∙ subst (λ t. fs.read_file t path ≡ ok content) same g)

  gone_certificate-remove_listed :
      (path content : Str) (s : fs.State)
      → certificate_path path ≢ config
      → (remove_listed client config path s).0 ≡ ok tt
      → fs.read_file (remove_listed client config path s).1 (certificate_path path) ≢ ok content
  gone_certificate-remove_listed path content s n h g =
      let (pair, _, same) = first_ok (λ e. e) (remove_pair client path s) _ h in
      let certificate = certificate_path path in
      gone_certificate-remove_pair path content s pair (
        sym (same-remove_from_config certificate path _ n)
        ∙ subst (λ t. fs.read_file t certificate ≡ ok content) same g)

  pub remove_listed-Removes : Removes client config (remove_listed client config)
  remove_listed-Removes = record {
    shrinks = λ path s.
        kept (Shrinks client config s) (λ e. e) _ _ (Shrinks-remove_pair path s)
          λ t f p c n h. f p c n (sym (same-remove_from_config p path t n) ∙ h);
    keeps = λ path file content s n m c h.
        kept (λ t. fs.read_file t file ≡ ok content) (λ e. e) _ _
          (keeps-remove_pair path file content s n m h)
          λ t g. same-remove_from_config file path t c ∙ g;
    gone = gone-remove_listed;
    gone_certificate = gone_certificate-remove_listed;
  }
