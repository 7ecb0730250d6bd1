-- ===== src/Plugins/EnvVars.antt =====
-- The environment that a plugin command sees.
use opkssh.Base.{
  true, [], ◌∷◌, ◌++◌, ◌≡◌, ◌≢◌, refl, arith, Option, none, some, Str, ◌==◌, nat_eq, str_eq,
  str_beq_iff, if◌then◌else◌, head_or, Bool-cases, inl, inr, Option-cases,
}
use opkssh.Text.{has_prefix, split}
use opkssh.Text.Split.{Lacks, split_at_sep}
use opkssh.Text.Trim.{has_prefix-append_left}
use opkssh.Plugins.{EnvVars, put, unset, plugin_prefix, clear_inherited, set_all}

unfoldable pub get : Str → EnvVars → Option Str
get k [] = none
get k ((j, v) ∷ env) = if j == k then some v else get k env

-- No name is listed twice.
abbrev pub NodupKeys : EnvVars → Type 0
NodupKeys [] = Unit
NodupKeys ((k, v) ∷ env) = (get k env ≡ none) × NodupKeys env

pub get-put :
    (j k v : Str) (env : EnvVars) → get j (put k v env) ≡ (if k == j then some v else get j env)
unfolding get put
get-put j k v [] = refl
get-put j k v ((i, w) ∷ env) =
    ground (arith, str_beq_iff i k, str_beq_iff i j, str_beq_iff k j, get-put j k v env)

get-unset : (j k : Str) (env : EnvVars) → get j (unset k env) ≡ (if k == j then none else get j env)
unfolding get unset
get-unset j k [] = ground arith
get-unset j k ((i, w) ∷ env) =
    ground (arith, str_beq_iff i k, str_beq_iff i j, str_beq_iff k j, get-unset j k env)

module _ (k : Str) where
  clear_inherited-none :
      (environ env : EnvVars) → get k env ≡ none → get k (clear_inherited environ env) ≡ none
  unfolding clear_inherited
  clear_inherited-none [] env h = h
  clear_inherited-none ((j, v) ∷ environ) env h =
      clear_inherited-none environ _
        (ground (arith, get-unset k (head_or [] (split (j ++ b'=' ∷ v) b'=')) env))

  clear_inherited_listed :
      (environ env : EnvVars)
      → has_prefix k plugin_prefix ≡ true
      → Lacks b'=' k
      → get k environ ≢ none
      → get k (clear_inherited environ env) ≡ none
  unfolding clear_inherited get
  clear_inherited_listed [] env p l h = absurd (h refl)
  clear_inherited_listed ((j, v) ∷ environ) env p l h = elim (Bool-cases (j == k)) [
    | inl same ↦ clear_inherited-none environ _ (
        ground (
          arith,
          str_beq_iff j k,
          str_beq_iff k k,
          has_prefix-append_left k (b'=' ∷ v) plugin_prefix p,
          split_at_sep k v b'=' l,
          get-unset k (head_or [] (split (k ++ b'=' ∷ v) b'=')) env,
        ))
    | inr other ↦ clear_inherited_listed environ _ p l (rw other at h)
  ]

  clear_inherited_prefix :
      (env : EnvVars)
      → has_prefix k plugin_prefix ≡ true
      → Lacks b'=' k
      → get k (clear_inherited env env) ≡ none
  clear_inherited_prefix env p l = elim (Option-cases (get k env)) [
    | inl e ↦ clear_inherited-none env env e
    | inr (v, e) ↦ clear_inherited_listed env env p l (λ n. cc)
  ]

  set_all_absent :
      (tokens env : EnvVars)
      → get k tokens ≡ none
      → (set_all tokens env).0 ≡ none
      → get k (set_all tokens env).1 ≡ get k env
  unfolding set_all get
  set_all_absent [] env h n = refl
  set_all_absent ((j, v) ∷ tokens) env h n =
      ground (arith, get-put k j v env, set_all_absent tokens (put j v env))

  set_all_present :
      (tokens env : EnvVars) (v : Str)
      → NodupKeys tokens
      → get k tokens ≡ some v
      → (set_all tokens env).0 ≡ none
      → get k (set_all tokens env).1 ≡ some v
  unfolding set_all get
  set_all_present [] env v u h n = cc
  set_all_present ((j, w) ∷ tokens) env v (fresh, u) h n = ground (
    arith,
    str_beq_iff j k,
    get-put k j w env,
    set_all_present tokens (put j w env) v u,
    set_all_absent tokens (put j w env),
  )

  -- What a plugin command is started with: of the names that begin with `OPKSSH_PLUGIN_` it sees
  -- the tokens and nothing else, whatever the process inherited, once all of them are set.
  pub get-set_all-clear_inherited :
      (tokens env : EnvVars)
      → NodupKeys tokens
      → has_prefix k plugin_prefix ≡ true
      → Lacks b'=' k
      → (set_all tokens (clear_inherited env env)).0 ≡ none
      → get k (set_all tokens (clear_inherited env env)).1 ≡ get k tokens
  get-set_all-clear_inherited tokens env u p l n = elim (Option-cases (get k tokens)) [
    | inl e ↦
        ground (
          arith,
          set_all_absent tokens (clear_inherited env env) e n,
          clear_inherited_prefix env p l,
        )
    | inr (v, e) ↦ ground (arith, set_all_present tokens (clear_inherited env env) v u e n)
  ]
