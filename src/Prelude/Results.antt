-- ===== src/Prelude/Results.antt =====
-- The exceptions that the modelled code raises, and results of code that may raise.
use mathlib.Core.Path.{◌≡◌, refl}
use mathlib.Core.Bool.{Bool, true, false}
use mathlib.Core.Logic.{◌⊎◌, inl, inr}

-- Python's exception classes, without their messages. A `while` loop that has more rounds than the
-- model gives it ends in `out_of_fuel`.
pub data Error : Type 0 where
  value_error index_error key_error invalid_block out_of_blocks canary_error out_of_fuel : Error

pub data Result {ℓ} (A : Type ℓ) : Type ℓ where
  ok : A → Result A
  err : Error → Result A

-- A method of an object: what was written before a raise stays written, so the new state comes
-- back beside the error too.
abbrev pub Exec {ℓ} : Type ℓ → Type ℓ → Type ℓ
Exec S A = S → Result A × S

abbrev pub is_ok {ℓ} : {A : Type ℓ} → Result A → Bool
is_ok (ok a) = true
is_ok (err e) = false

pub Result-cases {ℓ} :
    {A : Type ℓ} (r : Result A) → ((a : A) × (r ≡ ok a)) ⊎ ((e : Error) × (r ≡ err e))
Result-cases (ok a) = inl (a, refl)
Result-cases (err e) = inr (e, refl)

module _ {ℓ} {S A B : Type ℓ} where
  abbrev pub continue : Result A × S → (A → Exec S B) → Result B × S
  continue (ok a, s) f = f a s
  continue (err e, s) f = (err e, s)

  infixl 5 ◌>>=◌ ◌>>◌
  abbrev pub ◌>>=◌ : Exec S A → (A → Exec S B) → Exec S B
  ◌>>=◌ m f s = continue (m s) f

  abbrev pub ◌>>◌ : Exec S A → Exec S B → Exec S B
  m >> n = m >>= λ _. n

-- What holds of the state after the first step and is kept by the rest holds at the end.
pub continue-keeps {ℓ κ} :
    {S A B : Type ℓ} (P : S → Type κ) (m : Result A × S) (f : A → Exec S B)
    → P m.1
    → ((a : A) (s : S) → m.0 ≡ ok a → P s → P (f a s).1)
    → P (continue m f).1
continue-keeps P (ok a, s) f h k = k a s refl h
continue-keeps P (err e, s) f h k = h

pub continue-ok {ℓ} :
    {S A B : Type ℓ} (m : Result A × S) (f : A → Exec S B) {a : A}
    → m.0 ≡ ok a
    → continue m f ≡ f a m.1
continue-ok (ok a, s) f e = cc
continue-ok (err x, s) f e = cc
