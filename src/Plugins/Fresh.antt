-- ===== src/Plugins/Fresh.antt =====
-- The results that `loadPlugins` returns, before a command has been run.
use opkssh.Base.{
  false, not, ◌&&◌, List, [], ◌∷◌, ◌++◌, ◌≡◌, refl, arith, Option, none, some, Str, str, str_eq,
  All, All-append, Result, ok, err, Bool-cases, inl, inr,
}
use opkssh.Text.{has_suffix}
use opkssh.Files.{FsError, FileInfo, Check, passed, refused, panicked}
use opkssh.Plugins.{
  PluginConfig, PluginResult, Run, returned, crash, Host, LoadPluginsError, insecure_dir, load_dir,
  listed, load_entry, required_policy_perms, required_policy_dir_perms, checked_config, read_config,
  config_result, load_entries, load_plugins,
}

-- A result that no command has written to yet.
abbrev pub IsFresh : PluginResult → Type 0
IsFresh r = r.allowed ≡ false

abbrev pub Ensures {ℓ κ} : {A : Type ℓ} → (A → Type κ) → Run A → Type κ
Ensures P (returned a) = P a
Ensures P crash = Unit

module _ (host : Host) where
  abbrev pub AllFresh : Result LoadPluginsError (List PluginResult) → Type 0
  AllFresh (ok rs) = All IsFresh rs
  AllFresh (err e) = Unit

  config_result-IsFresh :
      (path : Str) (o : Option PluginConfig) → IsFresh (config_result host path o)
  config_result-IsFresh path none = refl
  config_result-IsFresh path (some cmd) = ground arith

  read_config-IsFresh :
      (path : Str) (file : Result FsError Str) → IsFresh (read_config host path file)
  read_config-IsFresh path (err e) = refl
  read_config-IsFresh path (ok file) = config_result-IsFresh path (host.parse_yaml file)

  checked_config-IsFresh :
      (w : host.World) (path : Str) (c : Check) → Ensures IsFresh (checked_config host w path c)
  checked_config-IsFresh w path passed = read_config-IsFresh path (host.read_file w path)
  checked_config-IsFresh w path (refused e) = refl
  checked_config-IsFresh w path panicked = tt

  listed-AllFresh : (c : Run PluginResult) → Ensures IsFresh c → Ensures AllFresh (listed host c)
  listed-AllFresh (returned r) f = (f, tt)
  listed-AllFresh crash f = tt

  load_entry-AllFresh :
      (w : host.World) (path : Str) (st : Result FsError FileInfo)
      → Ensures AllFresh (load_entry host w path st)
  unfolding load_entry
  load_entry-AllFresh w path (err e) = tt
  load_entry-AllFresh w path (ok info) =
      elim (Bool-cases (not info.is_dir && has_suffix info.name (str ".yml"))) [
        | inl h ↦ rw h (
            listed-AllFresh (checked_config host w path (host.check w path required_policy_perms))
              (checked_config-IsFresh w path (host.check w path required_policy_perms)))
        | inr h ↦ rw h tt
      ]

  load_entries-AllFresh :
      (w : host.World) (dir : Str) (entries : List Str) (out : List PluginResult)
      → All IsFresh out
      → Ensures AllFresh (load_entries host w dir out entries)
  unfolding load_entries
  load_entries-AllFresh w dir [] out h = h
  load_entries-AllFresh w dir (entry ∷ entries) out h =
      next (load_entry host w path (host.stat w path))
        (load_entry-AllFresh w path (host.stat w path))
        (λ new f. load_entries-AllFresh w dir entries (out ++ new) (All-append IsFresh out new h f))
    where
      path : Str
      path = host.join_path dir entry

      next :
          (c : Run (Result LoadPluginsError (List PluginResult)))
          → Ensures AllFresh c
          → ((new : List PluginResult)
              → All IsFresh new
              → Ensures AllFresh (load_entries host w dir (out ++ new) entries))
          → Ensures AllFresh (elim c [
            | crash ↦ crash
            | returned (err e) ↦ returned (err e)
            | returned (ok new) ↦ load_entries host w dir (out ++ new) entries
          ])
      next crash f more = tt
      next (returned (err e)) f more = tt
      next (returned (ok new)) f more = more new f

  pub load_plugins-AllFresh :
      (dir : Str) (w : host.World) → Ensures AllFresh (load_plugins host dir w)
  unfolding load_plugins
  load_plugins-AllFresh dir w =
      go (host.check w dir required_policy_dir_perms) (host.read_dir w dir)
    where
      go :
          (c : Check) (r : Result FsError (List Str))
          → Ensures AllFresh (elim c [
            | panicked ↦ crash
            | refused e ↦ returned (err (insecure_dir e))
            | passed ↦ load_dir host w dir r
          ])
      go panicked r = tt
      go (refused e) r = tt
      go passed (err e) = tt
      go passed (ok entries) = load_entries-AllFresh w dir entries [] tt
