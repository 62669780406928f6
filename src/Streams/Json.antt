-- ===== src/Streams/Json.antt =====
-- JSON documents as `orjson.loads` gives them, and the results of the parsers of
-- exchange/binance_usdm/public_streams.py.
use binance_algo.Base.{
  subst, eq_iff, ap, arith, ℕ, String, Bool, true, false, Option, none, some, Result, ok, err, ◌≡◌,
  refl, if◌then◌else◌, str_eq,
}

pub data ℤ : Type 0 where
  pos negsuc : ℕ → ℤ

-- A number with a point or an exponent is kept as its text.
mutual
  pub data Json : Type 0 where
    null : Json
    boolean : Bool → Json
    integer : ℤ → Json
    decimal : String → Json
    text : String → Json
    array : Items → Json
    object : Members → Json

  pub data Items : Type 0 where
    no_items : Items
    item : Json → Items → Items

  pub data Members : Type 0 where
    no_members : Members
    member : String → Json → Members → Members

-- `document.get(key)`
unfoldable pub get : String → Members → Option Json
get k no_members = none
get k (member j v rest) = if str_eq j k then some v else get k rest

-- `document.get(key) == value`
abbrev pub is_text : String → Option Json → Bool
is_text s (some (text t)) = str_eq t s
is_text s _ = false

-- `DataContractError`, by what its message says.
pub data StreamError : Type 0 where
  invalid_json not_an_object missing_stream_or_data server_shutdown symbol_mismatch : StreamError
  unsupported_stream unexpected_event_type different_interval : String → StreamError
  invalid_type not_an_integer not_numeric not_finite : String → StreamError
  no_symbols duplicate_symbols no_subscriptions negative_id : StreamError
  no_names : String → StreamError

infixl 5 ◌>>=◌ ◌>>◌
unfoldable pub ◌>>=◌ {ℓ κ μ} :
    {E : Type ℓ} {A : Type κ} {B : Type μ} → Result E A → (A → Result E B) → Result E B
ok a >>= f = f a
err e >>= f = err e

abbrev pub ◌>>◌ {ℓ κ μ} :
    {E : Type ℓ} {A : Type κ} {B : Type μ} → Result E A → Result E B → Result E B
m >> k = m >>= λ _. k

abbrev pub fail_if {ℓ} : {E : Type ℓ} → Bool → E → Result E (Unit {0})
fail_if true e = err e
fail_if false e = ok tt

-- What holds of a result that is not an error.
abbrev pub Returns {ℓ κ μ} : {E : Type ℓ} {A : Type κ} → (A → Type μ) → Result E A → Type μ
Returns P (ok a) = P a
Returns P (err e) = Unit

pub Returns-bind {ℓ κ μ ν} :
    {E : Type ℓ} {A : Type κ} {B : Type μ} (P : B → Type ν) (m : Result E A) (f : A → Result E B)
    → ((a : A) → m ≡ ok a → Returns P (f a))
    → Returns P (m >>= f)
unfolding ◌>>=◌
Returns-bind P (ok a) f h = h a refl
Returns-bind P (err e) f h = tt

pub Returns-map {ℓ κ μ ν} :
    {E : Type ℓ} {A : Type κ} {P : A → Type μ} {Q : A → Type ν} (r : Result E A)
    → ((a : A) → P a → Q a)
    → Returns P r
    → Returns Q r
Returns-map (ok a) f h = f a h
Returns-map (err e) f h = tt

pub is_text_iff : (s : String) (o : Option Json) → is_text s o ≡ true → o ≡ some (text s)
is_text_iff s none h = ground arith
is_text_iff s (some (text t)) h = ap (λ u. some (text u)) ((eq_iff t s).0 h)
is_text_iff s (some null) h = ground arith
is_text_iff s (some (boolean _)) h = ground arith
is_text_iff s (some (integer _)) h = ground arith
is_text_iff s (some (decimal _)) h = ground arith
is_text_iff s (some (array _)) h = ground arith
is_text_iff s (some (object _)) h = ground arith

pub Returns-at {ℓ κ μ} :
    {E : Type ℓ} {A : Type κ} (P : A → Type μ) (r : Result E A) {a : A}
    → Returns P r
    → r ≡ ok a
    → P a
Returns-at P r h e = subst (Returns P) e h
