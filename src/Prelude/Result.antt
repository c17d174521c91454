-- ===== src/Prelude/Result.antt =====
-- Exceptions as values. An `Error` stands for the exception's class and the message's subject.
use mathlib.Core.Bool.{Bool, true, false}
use mathlib.Core.Path.{◌≡◌, refl, ap}
use mathlib.Core.Logic.{◌⊎◌, inl, inr}

pub data Error : Type 0 where
  -- `ValueError`, with the fact that its message reports
  empty_text naive_datetime negative_decimal nonpositive_decimal : Error
  duplicate_instrument state_before_created limit_without_price : Error
  terminal_state illegal_transition transition_before_created : Error
  high_too_low low_too_high available_before_announced : Error
  cannot_sell no_sessions bad_target_size bad_buffer_size : Error
  partition_reversed negative_days partition_overlap fold_leak bad_spec empty_key : Error
  active_to_before_from : Error
  -- `ZeroDivisionError`, `KeyError`, `IndexError` and the program's `JobError`
  zero_division missing_key index_range job_not_found : Error
  -- of the symbol histories and of the artifact store
  overlapping_symbols ambiguous_symbol : Error
  empty_kind not_utc unsafe_path artifact_changed artifact_missing wrong_hash wrong_size : Error
  -- not an exception: a loop of the model ran out of fuel
  out_of_fuel : Error

-- How a call ends: with an exception or with a value.
pub data Result {ℓ} (V : Type ℓ) : Type ℓ where
  err : Error → Result V
  ok : V → Result V

-- `if b: raise e`
abbrev pub raise_if : Bool → Error → Result (Unit {0})
raise_if false e = ok tt
raise_if true e = err e

abbrev pub ◌>>=◌ {ℓ κ} : {V : Type ℓ} {W : Type κ} → Result V → (V → Result W) → Result W
err e >>= next = err e
ok v >>= next = next v

-- a check, and what follows it
abbrev pub ◌>>◌ {ℓ} : {W : Type ℓ} → Result (Unit {0}) → Result W → Result W
check >> next = check >>= λ u. next

infixl 5 ◌>>=◌ ◌>>◌
pub >>=-eq-ok {ℓ κ} :
    {V : Type ℓ} {W : Type κ} (call : Result V) (next : V → Result W) {w : W}
    → (call >>= next) ≡ ok w
    → (v : V) × (call ≡ ok v) × (next v ≡ ok w)
>>=-eq-ok (err e) next h = cc
>>=-eq-ok (ok v) next h = (v, refl, h)

pub Result-cases {ℓ} :
    {A : Type ℓ} (r : Result A) → ((e : Error) × (r ≡ err e)) ⊎ ((a : A) × (r ≡ ok a))
Result-cases (ok a) = inr (a, refl)
Result-cases (err e) = inl (e, refl)

or_else {ℓ} : {A : Type ℓ} → A → Result A → A
or_else d (ok a) = a
or_else d (err e) = d

pub ok-injective {ℓ} : {A : Type ℓ} {a b : A} → ok a ≡ ok b → a ≡ b
unfolding or_else
ok-injective {a} h = ap (or_else a) h
