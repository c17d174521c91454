-- ===== src/Domain/Identity.antt =====
-- Identities and the shared checks (quantlab/domain/identity.py). A dataclass is a record, and its
-- `__post_init__` a function that returns the value or the exception. The checks by `isinstance`
-- are left to the types. A UUID is its 128-bit number, whose order is that of its text.
use quantlab_v.Prelude.{
  ℕ, Bool, true, not, ◌&&◌, ◌||◌, Option, none, some, [], ◌∷◌, leb, ◌==◌, Text,
}
use quantlab_v.Prelude.Result.{
  ◌>>◌, Result, ok, raise_if, empty_text, naive_datetime, negative_decimal, nonpositive_decimal,
  active_to_before_from,
}
use quantlab_v.Time.{Date, DateTime, date_lt}
use quantlab_v.Decimal
use quantlab_v.Decimal.{Decimal, nought}

abbrev pub InstrumentId : Type 0
InstrumentId = ℕ

pub data InstrumentType : Type 0 where
  equity etf : InstrumentType

pub data InstrumentStatus : Type 0 where
  active delisted : InstrumentStatus

-- `str.isspace` for one character
unfoldable pub is_space : ℕ → Bool
is_space c =
    leb 9 c && leb c 13
    || leb 28 c && leb c 32
    || c == 0x85
    || c == 0xa0
    || c == 0x1680
    || leb 0x2000 c && leb c 0x200a
    || c == 0x2028
    || c == 0x2029
    || c == 0x202f
    || c == 0x205f
    || c == 0x3000

-- `not value.strip()`
unfoldable pub is_blank : Text → Bool
unfolding is_space
is_blank [] = true
is_blank (c ∷ s) = is_space c && is_blank s

unfoldable pub require_nonempty : Text → Result (Unit {0})
unfolding is_blank
require_nonempty value = raise_if (is_blank value) empty_text

unfoldable pub require_timezone_aware : DateTime → Result (Unit {0})
require_timezone_aware value = raise_if (not value.aware) naive_datetime

unfoldable pub require_nonnegative_decimal : Decimal → Result (Unit {0})
require_nonnegative_decimal value = raise_if (Decimal.lt value nought) negative_decimal

unfoldable pub require_positive_decimal : Decimal → Result (Unit {0})
require_positive_decimal value = raise_if (Decimal.le value nought) nonpositive_decimal

-- a check of a value that may be `None`
abbrev pub if_some {ℓ} : {A : Type ℓ} → Option A → (A → Result (Unit {0})) → Result (Unit {0})
if_some none f = ok tt
if_some (some a) f = f a

pub record Instrument : Type 0 where
  pub instrument_id : InstrumentId
  pub issuer_name : Text
  pub security_name : Text
  pub instrument_type : InstrumentType
  pub exchange : Text
  pub currency : Text
  pub active_from : Date
  pub status : InstrumentStatus
  pub active_to : Option Date

-- `Instrument.__post_init__`
unfoldable pub new_instrument : Instrument → Result Instrument
new_instrument i = do
  require_nonempty i.issuer_name
  require_nonempty i.security_name
  require_nonempty i.exchange
  require_nonempty i.currency
  if_some i.active_to (λ t. raise_if (date_lt t i.active_from) active_to_before_from)
  ok i

-- `replace` runs `__post_init__` again.
unfoldable pub with_symbol_change : Instrument → Text → Text → Text → Result Instrument
with_symbol_change i issuer security exchange =
    new_instrument
      (record i { issuer_name = issuer; security_name = security; exchange = exchange })

pub record SymbolHistory : Type 0 where
  pub instrument_id : InstrumentId
  pub symbol : Text
  pub exchange : Text
  pub valid_from : Date
  pub source : Text
  pub valid_to : Option Date

-- `SymbolHistory.__post_init__`
unfoldable pub new_symbol_history : SymbolHistory → Result SymbolHistory
new_symbol_history h = do
  require_nonempty h.symbol
  require_nonempty h.exchange
  require_nonempty h.source
  if_some h.valid_to (λ t. raise_if (date_lt t h.valid_from) active_to_before_from)
  ok h
