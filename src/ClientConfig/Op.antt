-- ===== src/ClientConfig/Op.antt =====
-- What provider a configuration stands for: `ToProvider` and `IsCICDProvider`.
use opkssh.Base.{
  Bool, true, false, not, ◌&&◌, ◌||◌, List, [], ◌∷◌, ◌≡◌, refl, subst, Option, none, some, Str, str,
  ◌==◌, str_eq, contains, if◌then◌else◌, Result, ok, err,
}
use opkssh.Text.{has_prefix, trim_suffix}
use opkssh.ClientConfig.{
  ProviderConfig, cicd_unused_client_id, gitlab_ci_alias, github_issuer, google_issuer,
}

-- The options of a provider with a browser. `none` leaves the default of the library.
pub record Options : Type 0 where
  pub issuer : Str
  pub client_id : Str
  pub client_secret : Option Str
  pub scopes : Option (List Str)
  pub prompt_type : Str
  pub access_type : Str
  pub redirect_uris : List Str
  pub remote_redirect_uri : Str
  pub gq_sign : Bool
  pub open_browser : Bool

-- The providers of github.com/openpubkey/openpubkey.
pub data Op : Type 0 where
  google azure gitlab hello standard : Options → Op
  gitlab_ci : Str → Str → Op
  github : Op
  forgejo : Str → Op

-- Whether a provider is a `BrowserOpenIdProvider`.
abbrev pub is_browser : Op → Bool
is_browser (gitlab_ci issuer variable) = false
is_browser github = false
is_browser (forgejo issuer) = false
is_browser _ = true

-- The process, and the library's functions that read its environment: whether the provider of
-- GitHub can be made, and the issuer of the one of Forgejo, if it can.
pub record Process : Type 0 where
  pub get_env : Str → Str
  pub has_github_op : Bool
  pub forgejo_op_issuer : Option Str
  pub is_forgejo_issuer : Str → Bool

pub data OpError : Type 0 where
  no_issuer not_https no_client_id not_in_gitlab_ci no_github_op no_forgejo_op : OpError
  issuer_mismatch : Str → Str → OpError

-- `p.hasScopes()`
unfoldable pub has_scopes : List Str → Bool
has_scopes [] = false
has_scopes (s ∷ []) = not (s == [])
has_scopes (s ∷ t ∷ more) = true

module _ (process : Process) where
  -- `IsCICDProvider(p)`
  unfoldable pub is_cicd_provider : ProviderConfig → Bool
  is_cicd_provider p =
      p.issuer == github_issuer
      || (process.is_forgejo_issuer p.issuer && p.client_id == cicd_unused_client_id)
      || contains p.alias_list gitlab_ci_alias

  -- The options that all branches set alike.
  abbrev options : ProviderConfig → Bool → Option Str → Options
  options p open_browser secret = record {
    issuer = p.issuer;
    client_id = p.client_id;
    client_secret = secret;
    scopes = if has_scopes p.scopes then some p.scopes else none;
    prompt_type = p.prompt;
    access_type = p.access_type;
    redirect_uris = p.redirect_uris;
    remote_redirect_uri = p.remote_redirect_uri;
    gq_sign = false;
    open_browser = open_browser;
  }

  abbrev forgejo_of : Str → Option Str → Result OpError Op
  forgejo_of issuer none = err no_forgejo_op
  forgejo_of issuer (some found) =
      if not (found == trim_suffix issuer (str "/"))
      then err (issuer_mismatch issuer found)
      else ok (forgejo found)

  -- `p.ToProvider(openBrowser)`
  unfoldable pub to_provider : ProviderConfig → Bool → Result OpError Op
  unfolding has_scopes
  to_provider p open_browser =
      if p.issuer == []
      then err no_issuer
      else if not (has_prefix p.issuer (str "https://"))
      then err not_https
      else if p.client_id == []
      then err no_client_id
      else if has_prefix p.issuer google_issuer
      then ok (google (options p open_browser (some p.client_secret)))
      else if has_prefix p.issuer (str "https://login.microsoftonline.com")
      then ok (azure (options p open_browser none))
      else if contains p.alias_list gitlab_ci_alias
      then (if not (process.get_env (str "GITLAB_CI") == str "true")
          then err not_in_gitlab_ci
          else ok (gitlab_ci p.issuer (str "OPENPUBKEY_JWT")))
      else if trim_suffix p.issuer (str "/") == str "https://gitlab.com"
      then ok (gitlab (options p open_browser none))
      else if p.issuer == str "https://issuer.hello.coop"
      then ok (hello (options p open_browser none))
      else if p.issuer == github_issuer
      then (if process.has_github_op then ok github else err no_github_op)
      else if process.is_forgejo_issuer p.issuer && p.client_id == cicd_unused_client_id
      then forgejo_of p.issuer process.forgejo_op_issuer
      else ok (standard (options p open_browser (some p.client_secret)))

  -- A result that is no provider without a browser.
  abbrev Browsing : Result OpError Op → Type 0
  Browsing (ok op) = is_browser op ≡ true
  Browsing (err e) = Unit

  either :
      (b : Bool) (r t : Result OpError Op) → Browsing r → Browsing t → Browsing (if b then r else t)
  either true r t h k = h
  either false r t h k = k

  only_if_false :
      (b : Bool) (r t : Result OpError Op) → b ≡ false → Browsing t → Browsing (if b then r else t)
  only_if_false true r t e k = cc
  only_if_false false r t e k = k

  or_is_false : (a b c : Bool) → (a || b || c) ≡ false → (a ≡ false) × (b ≡ false) × (c ≡ false)
  or_is_false true b c h = cc
  or_is_false false true c h = cc
  or_is_false false false c h = (refl, refl, h)

  Browsing-to_provider :
      (p : ProviderConfig) (open_browser : Bool)
      → is_cicd_provider p ≡ false
      → Browsing (to_provider p open_browser)
  unfolding is_cicd_provider to_provider
  Browsing-to_provider p open_browser c =
      let (no_github, no_forgejo, no_gitlab) = or_is_false _ _ _ c in
      either (p.issuer == []) _ _ tt (
        either (not (has_prefix p.issuer (str "https://"))) _ _ tt (
          either (p.client_id == []) _ _ tt (
            either (has_prefix p.issuer google_issuer) _ _ refl (
              either (has_prefix p.issuer (str "https://login.microsoftonline.com")) _ _ refl (
                only_if_false (contains p.alias_list gitlab_ci_alias) _ _ no_gitlab (
                  either (trim_suffix p.issuer (str "/") == str "https://gitlab.com") _ _ refl (
                    either (p.issuer == str "https://issuer.hello.coop") _ _ refl (
                      only_if_false (p.issuer == github_issuer) _ _ no_github (
                        only_if_false
                          (process.is_forgejo_issuer p.issuer
                            && p.client_id == cicd_unused_client_id)
                          _ _ no_forgejo refl)))))))))

  -- A configuration that is none of a workflow never gives a provider without a browser.
  pub to_provider-is_browser :
      (p : ProviderConfig) (open_browser : Bool) (op : Op)
      → is_cicd_provider p ≡ false
      → to_provider p open_browser ≡ ok op
      → is_browser op ≡ true
  to_provider-is_browser p open_browser op c h =
      subst Browsing h (Browsing-to_provider p open_browser c)
