-- ===== src/Prelude/Outcome.antt =====
-- Outcomes of code that may return an error, and of code that may panic.
use mathlib.Core.Path.{◌≡◌, refl}
use mathlib.Core.Logic.{◌⊎◌, inl, inr}

pub data Result {ℓ κ} (E : Type κ) (A : Type ℓ) : Type (ℓ ⊔ κ) where
  ok : A → Result E A
  err : E → Result E A

infixl 5 ◌>>=◌ ◌>>◌
abbrev pub ◌>>=◌ {ℓ μ κ} :
    {E : Type κ} {A : Type ℓ} {B : Type μ} → Result E A → (A → Result E B) → Result E B
err failure >>= next = err failure
ok x >>= next = next x

abbrev pub ◌>>◌ {ℓ μ κ} :
    {E : Type κ} {A : Type ℓ} {B : Type μ} → Result E A → Result E B → Result E B
m >> k = m >>= λ _. k

-- What a bind that succeeds went through.
pub >>=-eq-ok {κ ℓ μ} :
    {E : Type κ} {A : Type ℓ} {B : Type μ} (first : Result E A) (next : A → Result E B) {done : B}
    → (first >>= next) ≡ ok done
    → (x : A) × (first ≡ ok x) × (next x ≡ ok done)
>>=-eq-ok (err failure) next eq = absurd (cc eq)
>>=-eq-ok (ok x) next eq = (x, refl, eq)

pub Result-cases {κ ℓ} :
    {E : Type κ} {A : Type ℓ} (r : Result E A) → ((e : E) × (r ≡ err e)) ⊎ ((x : A) × (r ≡ ok x))
Result-cases (err e) = inl (e, refl)
Result-cases (ok x) = inr (x, refl)

pub ok-injective {ℓ κ} :
    {E : Type κ} {A : Type ℓ} {a b : A} → ◌≡◌ {A = Result E A} (ok a) (ok b) → a ≡ b
ok-injective h = cc

pub bind-ok {κ ℓ μ} :
    {E : Type κ} {A : Type ℓ} {B : Type μ} {first : Result E A} {x : A} (next : A → Result E B)
    → first ≡ ok x
    → (first >>= next) ≡ next x
bind-ok next is = rw is refl
