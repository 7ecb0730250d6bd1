-- ===== src/ClientConfig/Aliases.antt =====
-- The map from aliases to providers: `CreateProvidersMap`.
use opkssh.Base.{
  List, [], ◌∷◌, ◌++◌, ◌≡◌, inl, inr, refl, sym, ap, ◌∙◌, arith, Option, none, some, Str, str_eq,
  str_beq_iff, All, Result, ok, err, ◌>>=◌, Option-cases,
}
use opkssh.ClientConfig.{
  ProviderConfig, ProviderConfigError, duplicate_alias, Aliases, lookup_alias, add_alias,
  add_aliases, add_configs, create_providers_map,
}

abbrev with_aliases : ProviderConfig → List Str → Aliases
with_aliases c [] = []
with_aliases c (a ∷ as') = (a, c) ∷ with_aliases c as'

-- Every alias with the provider that lists it, in the order of the providers.
abbrev pub listed : List ProviderConfig → Aliases
listed [] = []
listed (c ∷ cs) = with_aliases c c.alias_list ++ listed cs

-- No alias is listed twice.
abbrev pub Distinct : Aliases → Type 0
Distinct [] = Unit
Distinct ((a, c) ∷ ps) = (lookup_alias a ps ≡ none) × Distinct ps

abbrev add_all : Aliases → Aliases → Result ProviderConfigError Aliases
add_all [] m = ok m
add_all ((a, c) ∷ ps) m = add_alias c a m (lookup_alias a m) >>= add_all ps

>>=_assoc :
    {E A : Type 0} (r : Result E A) (f g : A → Result E A) → (r >>= f) >>= g ≡ r >>= λ a. f a >>= g
>>=_assoc (ok a) f g = refl
>>=_assoc (err e) f g = refl

bind_cong :
    {E A : Type 0} (r : Result E A) (f g : A → Result E A)
    → ((a : A) → f a ≡ g a)
    → r >>= f ≡ r >>= g
bind_cong (ok a) f g h = h a
bind_cong (err e) f g h = refl

add_all-append : (ps qs m : Aliases) → add_all (ps ++ qs) m ≡ add_all ps m >>= add_all qs
add_all-append [] qs m = refl
add_all-append ((a, c) ∷ ps) qs m =
    bind_cong (add_alias c a m (lookup_alias a m)) _ _ (add_all-append ps qs)
    ∙ sym (>>=_assoc (add_alias c a m (lookup_alias a m)) (add_all ps) (add_all qs))

add_aliases_all :
    (c : ProviderConfig) (as' : List Str) (m : Aliases)
    → add_aliases c as' m ≡ add_all (with_aliases c as') m
unfolding add_aliases
add_aliases_all c [] m = refl
add_aliases_all c (a ∷ as') m =
    bind_cong (add_alias c a m (lookup_alias a m)) _ _ (add_aliases_all c as')

add_configs_all :
    (cs : List ProviderConfig) (m : Aliases) → add_configs cs m ≡ add_all (listed cs) m
unfolding add_configs
add_configs_all [] m = refl
add_configs_all (c ∷ cs) m =
    ap (λ r. r >>= add_configs cs) (add_aliases_all c c.alias_list m)
    ∙ bind_cong (add_all (with_aliases c c.alias_list) m) _ _ (add_configs_all cs)
    ∙ sym (add_all-append (with_aliases c c.alias_list) (listed cs) m)

-- No alias of a list has an entry yet.
abbrev Fresh : Aliases → Aliases → Type 0
Fresh m ps = All (λ (p : Str × ProviderConfig). lookup_alias p.0 m ≡ none) ps

Fresh-tail :
    (a : Str) (c : ProviderConfig) (m ps : Aliases)
    → Fresh ((a, c) ∷ m) ps
    → (lookup_alias a ps ≡ none) × Fresh m ps
unfolding lookup_alias
Fresh-tail a c m [] f = (refl, tt)
Fresh-tail a c m ((b, d) ∷ ps) (h, f) =
    let (l, g) = Fresh-tail a c m ps f in
    (ground (arith, str_beq_iff a b, str_beq_iff b a), (ground (arith, str_beq_iff a b), g))

Fresh-cons :
    (a : Str) (c : ProviderConfig) (m ps : Aliases)
    → lookup_alias a ps ≡ none
    → Fresh m ps
    → Fresh ((a, c) ∷ m) ps
unfolding lookup_alias
Fresh-cons a c m [] l f = tt
Fresh-cons a c m ((b, d) ∷ ps) l (h, f) = (
  ground (arith, str_beq_iff a b, str_beq_iff b a),
  Fresh-cons a c m ps (ground (arith, str_beq_iff b a)) f,
)

abbrev or_else : Option ProviderConfig → Option ProviderConfig → Option ProviderConfig
or_else none o = o
or_else (some c) o = some c

-- Adding succeeds exactly on distinct new aliases, and then every alias is found.
abbrev Judged : Aliases → Aliases → Result ProviderConfigError Aliases → Type 0
Judged ps m (ok n) =
    Distinct ps
    × Fresh m ps
    × ((a : Str) → lookup_alias a n ≡ or_else (lookup_alias a m) (lookup_alias a ps))
Judged ps m (err e) = ((a : Str) × (e ≡ duplicate_alias a)) × (¬ (Distinct ps × Fresh m ps))

Judged-cons :
    (a : Str) (c : ProviderConfig) (ps m : Aliases) (r : Result ProviderConfigError Aliases)
    → lookup_alias a m ≡ none
    → Judged ps ((a, c) ∷ m) r
    → Judged ((a, c) ∷ ps) m r
unfolding lookup_alias
Judged-cons a c ps m (ok n) new (d, f, l) =
    let (absent, g) = Fresh-tail a c m ps f in
    ((absent, d), (new, g), λ b. ground (arith, l b, str_beq_iff a b))
Judged-cons a c ps m (err e) new (dup, refuse) =
    (dup, λ i. refuse (i.0.1, Fresh-cons a c m ps i.0.0 i.1.1))

or_none : (o : Option ProviderConfig) → o ≡ or_else o none
or_none none = refl
or_none (some c) = refl

Fresh-empty : (ps : Aliases) → Fresh [] ps
unfolding lookup_alias
Fresh-empty [] = tt
Fresh-empty (p ∷ ps) = (refl, Fresh-empty ps)

judge : (ps m : Aliases) → Judged ps m (add_all ps m)
unfolding lookup_alias
judge [] m = (tt, tt, λ a. or_none (lookup_alias a m))
judge ((a, c) ∷ ps) m = elim (Option-cases (lookup_alias a m)) [
  | inl new ↦ rw new (Judged-cons a c ps m _ new (judge ps ((a, c) ∷ m)))
  | inr (d, e) ↦ rw e ((a, refl), λ i. ground arith)
]

abbrev pub Created : List ProviderConfig → Result ProviderConfigError Aliases → Type 0
Created configs (ok m) =
    Distinct (listed configs)
    × ((alias : Str) → lookup_alias alias m ≡ lookup_alias alias (listed configs))
Created configs (err e) = ((a : Str) × (e ≡ duplicate_alias a)) × (¬ Distinct (listed configs))

Created-Judged :
    (configs : List ProviderConfig) (r : Result ProviderConfigError Aliases)
    → Judged (listed configs) [] r
    → Created configs r
unfolding lookup_alias
Created-Judged configs (ok m) (d, f, l) = (d, l)
Created-Judged configs (err e) (dup, refuse) = (dup, λ d. refuse (d, Fresh-empty (listed configs)))

-- The map is made exactly if no alias is listed twice, by one provider or by two, and each alias
-- then leads to the provider that lists it, and others to none. The only error is that of a
-- duplicate alias.
pub create_providers_map_lem :
    (configs : List ProviderConfig) → Created configs (create_providers_map configs)
unfolding create_providers_map
create_providers_map_lem configs =
    rw (add_configs_all configs []) (Created-Judged configs _ (judge (listed configs) []))
