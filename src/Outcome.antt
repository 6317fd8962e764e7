-- ===== src/Outcome.antt =====
-- Exceptions as values: the ones that the program raises, or lets pass, and chains of calls that
-- may raise.
use safe_signal_trader_v.Prelude.{
  Bool, true, false, not, ◌&&◌, if◌then◌else◌, Option, none, some, String, ◌≡◌, refl, ◌⊎◌, inl, inr,
}
use safe_signal_trader_v.Decimal.{Decimal, nonzero}

pub data Failure : Type 0 where
  -- `decimal.InvalidOperation`
  invalid_operation : Failure
  -- `decimal.DivisionByZero`
  division_by_zero : Failure
  -- `pydantic.ValidationError`
  validation_error : Failure
  value_error : String → Failure
  key_error : Failure
  runtime_error : String → Failure

-- What a call that may raise comes to.
pub data Result {ℓ} (A : Type ℓ) : Type ℓ where
  err : Failure → Result A
  ok : A → Result A

-- What a division raises where it has no result: 0 / 0 is an invalid operation too.
abbrev pub division_failure : Decimal → Decimal → Failure
division_failure a b = if nonzero a && not (nonzero b) then division_by_zero else invalid_operation

-- `if not c: raise e`
abbrev pub require : Bool → Failure → Result (Unit {0})
require false failure = err failure
require true failure = ok tt

-- A library call that answers or raises.
abbrev pub or_raise {ℓ} : {A : Type ℓ} → Option A → Failure → Result A
or_raise (some answer) failure = ok answer
or_raise none failure = err failure

-- The rest of a method runs on the answer of its first call, unless that raised.
infixl 5 ◌>>=◌
abbrev pub ◌>>=◌ {ℓ ℓ'} : {A : Type ℓ} {C : Type ℓ'} → Result A → (A → Result C) → Result C
err failure >>= rest = err failure
ok answer >>= rest = rest answer

infixl 5 ◌>>◌
abbrev pub ◌>>◌ {ℓ} : {C : Type ℓ} → Result (Unit {0}) → Result C → Result C
err failure >> rest = err failure
ok _ >> rest = rest

-- Nothing raised on the way to an answer.
pub bind_answered {ℓ ℓ'} :
    {A : Type ℓ} {C : Type ℓ'} (first : Result A) (rest : A → Result C) (c : C)
    → (first >>= rest) ≡ ok c
    → (a : A) × (first ≡ ok a) × (rest a ≡ ok c)
bind_answered (err failure) rest c e = cc
bind_answered (ok a) rest c e = (a, refl, e)

-- An answer, from the answers on the way to it.
pub bind_ok {ℓ ℓ'} :
    {A : Type ℓ} {C : Type ℓ'} (first : Result A) (rest : A → Result C) (a : A) (c : C)
    → first ≡ ok a
    → rest a ≡ ok c
    → (first >>= rest) ≡ ok c
bind_ok (err failure) rest a c e h = cc
bind_ok {A = A} (ok b) rest a c e h = let same : b ≡ a = ok_injective b a e in rw same h
  where
    ok_injective : (x y : A) → ok x ≡ ok y → x ≡ y
    ok_injective x y p = cc

-- Something raised: the first call, or what follows it.
pub bind_raised {ℓ ℓ'} :
    {A : Type ℓ} {C : Type ℓ'} (first : Result A) (rest : A → Result C) (failure : Failure)
    → (first >>= rest) ≡ err failure
    → (first ≡ err failure) ⊎ ((a : A) × (first ≡ ok a) × (rest a ≡ err failure))
bind_raised (err f) rest failure e = inl (cc)
bind_raised (ok a) rest failure e = inr (a, refl, e)
