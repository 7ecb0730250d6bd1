-- ===== src/Login/Chooser.antt =====
-- What `determineProvider` may return.
use opkssh.Base.{
  Bool, true, false, List, [], ◌∷◌, ◌≡◌, ◌≢◌, inl, inr, refl, arith, ◌∙◌, Option, none, some, Str,
  str, ◌==◌, str_eq, All, Result, ok, err, ◌>>=◌, wrap, Bool-cases,
}
use opkssh.ClientConfig.{
  ProviderConfig, ProviderConfigError, Aliases, lookup_alias, create_providers_map,
}
use opkssh.ClientConfig.Op.{
  Op, OpError, is_browser, is_cicd_provider, to_provider, to_provider-is_browser,
}
use opkssh.Login.Provider.{
  Environment, Request, ChoiceError, Choice, single, chooser, not_for_browsers, no_map, built,
  argument_unparsed, environment_unparsed, no_op, from_config, browser_ops, checked_browser,
  by_alias, page, choose, choose_from, determine_provider, with_redirect,
}

module _ (env : Environment) (request : Request) where
  open env use {process}

  -- A choice that keeps what the code promises: a page has a provider, and all it has are for
  -- browsers; and no error says that one is not.
  abbrev pub Sound : Result ChoiceError Choice → Type 0
  Sound (ok (single op)) = Unit
  Sound (ok (chooser ops)) = (ops ≢ []) × All (λ op. is_browser op ≡ true) ops
  Sound (err e) = (issuer : Str) → e ≢ not_for_browsers issuer

  abbrev Browsers : Result ChoiceError (List Op) → Type 0
  Browsers (ok ops) = All (λ op. is_browser op ≡ true) ops
  Browsers (err e) = (issuer : Str) → e ≢ not_for_browsers issuer

  same_kind :
      (c : ProviderConfig)
      → is_cicd_provider process (with_redirect request.remote_redirect_uri c)
        ≡ is_cicd_provider process c
  unfolding is_cicd_provider
  same_kind c = ground arith

  -- One provider of the page.
  abbrev Fit : Result ChoiceError Op → Type 0
  Fit (ok op) = is_browser op ≡ true
  Fit (err e) = (issuer : Str) → e ≢ not_for_browsers issuer

  Fit-built :
      (c : ProviderConfig)
      → is_cicd_provider process c ≡ false
      → Fit (built env request c >>= checked_browser env request c)
  Fit-built c e = go (to_provider process d request.open_browser) refl
    where
      d : ProviderConfig
      d = with_redirect request.remote_redirect_uri c

      go :
          (r : Result OpError Op)
          → to_provider process d request.open_browser ≡ r
          → Fit (wrap no_op r >>= checked_browser env request c)
      go (err f) h = λ issuer g. ground arith
      go (ok op) h =
          let browser =
            to_provider-is_browser process d request.open_browser op (same_kind c ∙ e) h in
          rw browser browser

  Browsers-cons :
      (r : Result ChoiceError Op) (rest : Result ChoiceError (List Op))
      → Fit r
      → Browsers rest
      → Browsers (r >>= λ op. rest >>= λ ops. ok (op ∷ ops))
  Browsers-cons (err e) rest f b = f
  Browsers-cons (ok op) (err e) f b = b
  Browsers-cons (ok op) (ok ops) f b = (f, b)

  Browsers-browser_ops :
      (configs : List ProviderConfig) → Browsers (browser_ops env request configs)
  unfolding browser_ops
  Browsers-browser_ops [] = tt
  Browsers-browser_ops (c ∷ cs) = elim (Bool-cases (is_cicd_provider process c)) [
    | inl e ↦ rw e (Browsers-browser_ops cs)
    | inr e ↦ rw e (Browsers-cons _ _ (Fit-built c e) (Browsers-browser_ops cs))
  ]

  Sound-page : (r : Result ChoiceError (List Op)) → Browsers r → Sound (r >>= page env request)
  Sound-page (err e) b = b
  Sound-page (ok []) b = λ issuer e. ground arith
  Sound-page (ok (op ∷ ops)) b = ((λ e. ground arith), b)

  Sound-single : (r : Result OpError Op) → Sound (wrap no_op r >>= λ op. ok (single op))
  Sound-single (ok op) = tt
  Sound-single (err e) = λ issuer f. ground arith

  Sound-by_alias :
      (alias : Str) (from_env : Bool) (found : Option ProviderConfig)
      → Sound (by_alias env request alias from_env found)
  Sound-by_alias alias from_env none = λ issuer e. ground arith
  Sound-by_alias alias from_env (some c) = Sound-single _

  Sound-after_map :
      (alias : Str) (from_env : Bool) (r : Result ProviderConfigError Aliases)
      → Sound (wrap no_map r >>= λ m. by_alias env request alias from_env (lookup_alias alias m))
  Sound-after_map alias from_env (err e) = λ issuer f. ground arith
  Sound-after_map alias from_env (ok m) = Sound-by_alias alias from_env (lookup_alias alias m)

  Sound-choose :
      (alias : Str) (from_env : Bool) (configs : List ProviderConfig)
      → Sound (choose env request alias from_env configs)
  unfolding choose
  Sound-choose alias from_env configs = elim (Bool-cases (env.to_upper alias == str "WEBCHOOSER")) [
    | inl e ↦ rw e (Sound-page _ (Browsers-browser_ops configs))
    | inr e ↦ rw e (Sound-after_map alias from_env (create_providers_map configs))
  ]

  Sound-from_config : (configs : List ProviderConfig) → Sound (from_config env request configs)
  Sound-from_config [] = λ issuer e. ground arith
  Sound-from_config (c ∷ cs) = Sound-choose _ false (c ∷ cs)

  Sound-choose_from :
      (r : Result ProviderConfigError (Option (List ProviderConfig)))
      → Sound (wrap environment_unparsed r >>= choose_from env request)
  Sound-choose_from (err e) = λ issuer f. ground arith
  Sound-choose_from (ok (some configs)) = Sound-choose _ true configs
  Sound-choose_from (ok none) = Sound-from_config request.providers

  Sound-argument :
      (r : Result ProviderConfigError ProviderConfig)
      → Sound (wrap argument_unparsed r >>= λ c. built env request c >>= λ op. ok (single op))
  Sound-argument (err e) = λ issuer f. ground arith
  Sound-argument (ok c) = Sound-single _

  -- A login goes to one provider or to a page that offers at least one, all of them for browsers;
  -- the code's test of each provider of the page for one without a browser never fails.
  pub Sound-determine_provider : Sound (determine_provider env request)
  unfolding determine_provider
  Sound-determine_provider = elim (Bool-cases (request.provider_arg == [])) [
    | inl e ↦ rw e (Sound-choose_from _)
    | inr e ↦ rw e (Sound-argument _)
  ]
