-- ===== src/Base/Outcome.antt =====
-- A Go result `(value, error)`, of which the callers use the value only where the error is nil.
use mathlib.Core.Path.{◌≡◌, refl}
use mathlib.Core.Bool.{Bool, true, false}
use mathlib.Core.Logic.{◌⊎◌, inl, inr}

pub data Result {ℓ κ} (E : Type ℓ) (A : Type κ) : Type (ℓ ⊔ κ) where
  ok : A → Result E A
  err : E → Result E A

infixl 5 ◌>>=◌ ◌>>◌
abbrev pub ◌>>=◌ {ℓ κ λ'} :
    {E : Type ℓ} {A : Type κ} {B : Type λ'} → Result E A → (A → Result E B) → Result E B
ok a >>= f = f a
err e >>= f = err e

abbrev pub ◌>>◌ {ℓ κ} : {E : Type ℓ} {B : Type κ} → Result E (Unit {0}) → Result E B → Result E B
m >> k = m >>= λ _. k

-- `if !test { return err }`.
abbrev pub guard {ℓ} : {E : Type ℓ} → Bool → E → Result E (Unit {0})
guard true e = ok tt
guard false e = err e

-- `fmt.Errorf("...: %w", err)`: an error wrapped in another.
abbrev pub wrap {ℓ κ μ} : {E : Type ℓ} {F : Type κ} {A : Type μ} → (E → F) → Result E A → Result F A
wrap f (ok a) = ok a
wrap f (err e) = err (f e)

pub Result-cases {ℓ κ} :
    {E : Type ℓ} {A : Type κ} (r : Result E A) → ((a : A) × (r ≡ ok a)) ⊎ ((e : E) × (r ≡ err e))
Result-cases (ok a) = inl (a, refl)
Result-cases (err e) = inr (e, refl)

-- `if err := step; err != nil { return wrapped err }`, on a state.
unfoldable pub then_do {ℓ κ μ} :
    {E : Type ℓ} {F : Type κ} {S : Type μ}
    → (E → F)
    → Result E (Unit {0}) × S
    → (S → Result F (Unit {0}) × S)
    → Result F (Unit {0}) × S
then_do f (ok _, s) next = next s
then_do f (err e, s) next = (err (f e), s)

-- `err == nil`
unfoldable pub is_ok {ℓ κ} : {E : Type ℓ} {A : Type κ} → Result E A → Bool
is_ok (ok a) = true
is_ok (err e) = false

pub ok_of_is_ok {ℓ} : {E : Type ℓ} (r : Result E (Unit {0})) → is_ok r ≡ true → r ≡ ok tt
unfolding is_ok
ok_of_is_ok (ok _) h = refl
ok_of_is_ok (err e) h = cc
