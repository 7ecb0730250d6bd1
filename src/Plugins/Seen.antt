-- ===== src/Plugins/Seen.antt =====
-- What a plugin command sees of the login that it decides on.
use opkssh.Base.{true, List, ◌≡◌, refl, ◌∙◌, arith, Option, none, some, Str, str, str_eq, str_beq}
use opkssh.Text.{has_prefix}
use opkssh.Text.Split.{Lacks}
use opkssh.Plugins.{EnvVars, put, plugin_prefix, clear_inherited, set_all}
use opkssh.Plugins.EnvVars.{get, NodupKeys, get-set_all-clear_inherited}
use opkssh.Plugins.Tokens.{RawClaims, TokenLib, and_then, token_map, populate_plugin_env_vars}

and_then-some :
    {A B : Type 0} (o : Option A) (f : A → Option B) (b : B)
    → and_then o f ≡ some b
    → (a : A) × (o ≡ some a) × (f a ≡ some b)
unfolding and_then
and_then-some none f b h = cc
and_then-some (some a) f b h = (a, refl, h)

abbrev config_name : Str
config_name = str "OPKSSH_PLUGIN_CONFIG"

module _ (lib : TokenLib) (pkt : lib.Pkt) (info principal cert typ : Str) (args : List Str) where
  -- The map of tokens that a plugin gets, whatever the parts that are read from the token.
  record IsTokenMap (tokens : EnvVars) : Type 0 where
    claims : RawClaims lib.Int
    verified : Str
    aud : Str
    groups : Str
    upk : Str
    compact : Str
    extra : Str
    tokens_eq :
        tokens
        ≡ token_map lib principal cert typ claims verified aud groups pkt upk compact info extra

  populate-IsTokenMap :
      (tokens : EnvVars)
      → populate_plugin_env_vars lib pkt info principal cert typ args ≡ some tokens
      → IsTokenMap tokens
  unfolding populate_plugin_env_vars
  populate-IsTokenMap tokens h =
      let (compact, _, h1) = and_then-some _ _ tokens h in
      let (key, _, h2) = and_then-some _ _ tokens h1 in
      let (upk, _, h3) = and_then-some _ _ tokens h2 in
      let (claims, _, h4) = and_then-some _ _ tokens h3 in
      let (verified, _, h5) = and_then-some _ _ tokens h4 in
      let (aud, _, h6) = and_then-some _ _ tokens h5 in
      let (groups, _, h7) = and_then-some _ _ tokens h6 in
      let (extra, _, h8) = and_then-some _ _ tokens h7 in
      record {
        claims = claims;
        verified = verified;
        aud = aud;
        groups = groups;
        upk = lib.base64 upk;
        compact = compact;
        extra = extra;
        tokens_eq = ground arith;
      }

  NodupKeys-token_map :
      (config : Str) (claims : RawClaims lib.Int) (verified aud groups upk compact extra : Str)
      → NodupKeys (
          put config_name config (
            token_map lib principal cert typ claims verified aud groups pkt upk compact info extra))
  unfolding put get str_beq
  NodupKeys-token_map config claims verified aud groups upk compact extra = ground arith

  NodupKeys-IsTokenMap :
      (config : Str) (tokens : EnvVars)
      → IsTokenMap tokens
      → NodupKeys (put config_name config tokens)
  NodupKeys-IsTokenMap config tokens m =
      rw m.tokens_eq
        (NodupKeys-token_map config m.claims m.verified m.aud m.groups m.upk m.compact m.extra)

  -- The variables that a plugin decides by.
  pub record Sees (config : Str) (env : EnvVars) : Type 0 where
    pub of_principal : get (str "OPKSSH_PLUGIN_U") env ≡ some principal
    pub of_cert : get (str "OPKSSH_PLUGIN_K") env ≡ some cert
    pub of_type : get (str "OPKSSH_PLUGIN_T") env ≡ some typ
    pub of_payload : get (str "OPKSSH_PLUGIN_PAYLOAD") env ≡ some (lib.base64 (lib.payload pkt))
    pub of_token : get (str "OPKSSH_PLUGIN_IDT") env ≡ some (lib.op_token pkt)
    pub of_user_info : get (str "OPKSSH_PLUGIN_USERINFO") env ≡ some info
    pub of_config : get (str "OPKSSH_PLUGIN_CONFIG") env ≡ some config

  Sees-token_map :
      (config : Str) (tokens : EnvVars)
      → IsTokenMap tokens
      → Sees config (put config_name config tokens)
  unfolding put get str_beq
  Sees-token_map config tokens m = record {
    of_principal = rw m.tokens_eq refl;
    of_cert = rw m.tokens_eq refl;
    of_type = rw m.tokens_eq refl;
    of_payload = rw m.tokens_eq refl;
    of_token = rw m.tokens_eq refl;
    of_user_info = rw m.tokens_eq refl;
    of_config = rw m.tokens_eq refl;
  }

  module _ (config : Str) (tokens inherited : EnvVars)
      (populated : populate_plugin_env_vars lib pkt info principal cert typ args ≡ some tokens)
      (all_set : (set_all (put config_name config tokens) (clear_inherited inherited inherited)).0
        ≡ none) where
    seen :
        (k : Str)
        → has_prefix k plugin_prefix ≡ true
        → Lacks b'=' k
        → get k (set_all (put config_name config tokens) (clear_inherited inherited inherited)).1
          ≡ get k (put config_name config tokens)
    seen k p l =
        get-set_all-clear_inherited k (put config_name config tokens) inherited
          (NodupKeys-IsTokenMap config tokens (populate-IsTokenMap tokens populated)) p l all_set

    -- Once its variables are set, a plugin command sees the principal, the certificate, the key
    -- type, the payload, the token and the userinfo of the login, and its configuration, whatever
    -- variables of these names the process inherited.
    pub Sees-set_all :
        Sees config
          (set_all (put config_name config tokens) (clear_inherited inherited inherited)).1
    unfolding has_prefix
    Sees-set_all =
        let own = Sees-token_map config tokens (populate-IsTokenMap tokens populated) in
        record {
          of_principal = seen (str "OPKSSH_PLUGIN_U") refl (omega arith) ∙ own.of_principal;
          of_cert = seen (str "OPKSSH_PLUGIN_K") refl (omega arith) ∙ own.of_cert;
          of_type = seen (str "OPKSSH_PLUGIN_T") refl (omega arith) ∙ own.of_type;
          of_payload = seen (str "OPKSSH_PLUGIN_PAYLOAD") refl (omega arith) ∙ own.of_payload;
          of_token = seen (str "OPKSSH_PLUGIN_IDT") refl (omega arith) ∙ own.of_token;
          of_user_info = seen (str "OPKSSH_PLUGIN_USERINFO") refl (omega arith) ∙ own.of_user_info;
          of_config = seen (str "OPKSSH_PLUGIN_CONFIG") refl (omega arith) ∙ own.of_config;
        }
