-- ===== src/Prelude/Errors.antt =====
-- Go's `error` values and the results of code that may fail or panic.
use mathlib.Core.Logic.{◌⊎◌, inl, inr}
use Prim.Native.String.{String}
use mathlib.Core.Path.{◌≡◌, refl}

-- The errors that the program tells apart: `io.EOF`, its own sentinel for the docker hub, the three
-- HTTP error types of one type switch, and any other error with its text.
pub data Error : Type 0 where
  eof docker_hub_authentication_not_supported : Error
  unexpected_http : String → Error
  message : String → Error

-- `err.Error()`
abbrev pub error_text : Error → String
error_text eof = "EOF"
error_text docker_hub_authentication_not_supported = "Authentication on docker hub not supported"
error_text (unexpected_http s) = s
error_text (message s) = s

-- `panic` is a run-time panic: a nil dereference, an index out of range, a division by zero or a
-- failed type assertion. It also stands for the end of the process by `logrus.Fatalln`.
pub data Result {ℓ} (A : Type ℓ) : Type ℓ where
  ok : A → Result A
  err : Error → Result A
  panic : Result A

infixl 5 ◌>>=◌
abbrev pub ◌>>=◌ {ℓ ℓ'} : {A : Type ℓ} {C : Type ℓ'} → Result A → (A → Result C) → Result C
panic >>= k = panic
err x >>= k = err x
ok v >>= k = k v

infixl 5 ◌>>◌
abbrev pub ◌>>◌ {ℓ} : {C : Type ℓ} → Result (Unit {0}) → Result C → Result C
first >> second = first >>= λ done. second

-- A chain that succeeds does so in both of its parts.
pub >>=-eq-ok {ℓ ℓ'} :
    {A : Type ℓ} {C : Type ℓ'} (r : Result A) (k : A → Result C) {c : C}
    → (r >>= k) ≡ ok c
    → (v : A) × (r ≡ ok v) × (k v ≡ ok c)
>>=-eq-ok panic k made = cc
>>=-eq-ok (err x) k made = cc
>>=-eq-ok (ok v) k made = (v, refl, made)

pub ok_injective {ℓ} : {A : Type ℓ} {a b : A} → ok a ≡ ok b → a ≡ b
ok_injective h = cc

pub Result-cases {ℓ} :
    {A : Type ℓ} (r : Result A) → ((a : A) × (r ≡ ok a)) ⊎ ((e : Error) × (r ≡ err e)) ⊎ (r ≡ panic)
Result-cases (ok a) = inl (a, refl)
Result-cases (err e) = inr (inl (e, refl))
Result-cases panic = inr (inr refl)
