-- ===== src/ClientConfig/Parse.antt =====
-- The text of a list of providers, as it stands in the environment, and what is read from it.
use opkssh.Base.{
  true, false, List, [], ◌∷◌, map, ◌≡◌, ◌≢◌, ◌⊎◌, inl, inr, refl, ap, ◌∙◌, arith, Str, str, ◌==◌,
  nat_eq, str_eq, str_beq_iff, All, if◌then◌else◌, ok, err,
}
use opkssh.Text.{join, has_prefix}
use opkssh.Text.Split.{Lacks, split-join}
use opkssh.ClientConfig.{
  ProviderConfig, default_provider_config, google_issuer, from_split, with_google_secret,
  no_client_id, new_provider_config_from_string, all_from_strings,
  providers_config_list_from_strings,
}

-- A provider as it is written: `<alias>,<issuer>,<client_id>,<client_secret>,<scopes>`, of which
-- there is at least one scope.
pub record Entry : Type 0 where
  pub alias : Str
  pub issuer : Str
  pub client_id : Str
  pub client_secret : Str
  pub scope : Str
  pub more_scopes : List Str

abbrev scopes_text : Entry → Str
scopes_text e = join (e.scope ∷ e.more_scopes) (str " ")

abbrev fields : Entry → List Str
fields e = e.issuer ∷ e.client_id ∷ e.client_secret ∷ scopes_text e ∷ []

abbrev pub entry_text : Entry → Str
entry_text e = join (e.alias ∷ fields e) (str ",")

abbrev pub config_of_entry : Entry → ProviderConfig
config_of_entry e = record default_provider_config {
  alias_list = e.alias ∷ [];
  issuer = e.issuer;
  client_id = e.client_id;
  client_secret = e.client_secret;
  scopes = e.scope ∷ e.more_scopes;
}

-- An entry whose fields have no separator in them, with a client id, and a secret for Google.
pub record IsWritable (e : Entry) : Type 0 where
  pub no_comma : All (Lacks b',') (e.alias ∷ fields e)
  pub no_blank : All (Lacks b' ') (e.scope ∷ e.more_scopes)
  pub no_semicolon : Lacks b';' (entry_text e)
  pub has_client_id : e.client_id ≢ []
  pub has_secret : (has_prefix e.issuer google_issuer ≡ false) ⊎ (e.client_secret ≢ [])

accepted :
    (e : Entry)
    → IsWritable e
    → (if e.client_id == [] then err no_client_id else with_google_secret (config_of_entry e))
      ≡ ok (config_of_entry e)
accepted e w = elim w.has_secret [
  | inl n ↦ ground (arith, str_beq_iff e.client_id [], w.has_client_id)
  | inr n ↦
      ground (arith, str_beq_iff e.client_id [], str_beq_iff e.client_secret [], w.has_client_id)
]

new_provider_config-entry_text :
    (e : Entry)
    → IsWritable e
    → new_provider_config_from_string (entry_text e) true ≡ ok (config_of_entry e)
unfolding new_provider_config_from_string
new_provider_config-entry_text e w =
    ap (from_split true) (split-join e.alias (fields e) b',' w.no_comma)
    ∙ rw (split-join e.scope e.more_scopes b' ' w.no_blank) (accepted e w)

all_from_strings-entries :
    (es : List Entry)
    → All IsWritable es
    → all_from_strings (map entry_text es) ≡ ok (map config_of_entry es)
all_from_strings-entries [] w = refl
all_from_strings-entries (e ∷ es) (w, ws) =
    rw (new_provider_config-entry_text e w, all_from_strings-entries es ws) refl

texts_lack : (es : List Entry) → All IsWritable es → All (Lacks b';') (map entry_text es)
texts_lack [] w = tt
texts_lack (e ∷ es) (w, ws) = (w.no_semicolon, texts_lack es ws)

-- The texts of providers, joined by semicolons, are read as these providers, in their order, with
-- the defaults of a client in the other fields. There is at least one provider, none of the fields
-- has a separator in it, and each has a client id and, for Google, a secret.
pub providers_config_list-join :
    (e : Entry) (es : List Entry)
    → All IsWritable (e ∷ es)
    → providers_config_list_from_strings (join (map entry_text (e ∷ es)) (str ";"))
      ≡ ok (map config_of_entry (e ∷ es))
unfolding providers_config_list_from_strings
providers_config_list-join e es w =
    ap all_from_strings (split-join (entry_text e) (map entry_text es) b';' (texts_lack (e ∷ es) w))
    ∙ all_from_strings-entries (e ∷ es) w
