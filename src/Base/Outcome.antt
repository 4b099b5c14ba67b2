-- ===== src/Base/Outcome.antt =====
-- Rust's `anyhow::Result`: a value, or an error with its message. `ensure!`, `bail!` and `context`
-- are `ensure`, `err` and `context`; the operator `?` is a bind of a `do` block.
use Prim.Native.String.{String}
use mathlib.Core.Path.{◌≡◌, refl}
use mathlib.Core.Logic.{◌⊎◌, inl, inr}
use mathlib.Core.Bool.{Bool, true, false}
use mathlib.Core.Option.{Option, none, some}

pub data Result {ℓ} (T : Type ℓ) : Type ℓ where
  ok : T → Result T
  err : String → Result T

abbrev pub ensure : Bool → String → Result (Unit {0})
ensure false message = err message
ensure true message = ok tt

infixl 5 ◌>>=◌
abbrev pub ◌>>=◌ {ℓ κ} : {T : Type ℓ} {U : Type κ} → Result T → (T → Result U) → Result U
err message >>= next = err message
ok value >>= next = next value

-- The message of an absent value; the context that a caller adds to an error is not kept.
abbrev pub context {ℓ} : {T : Type ℓ} → Option T → String → Result T
context (some value) message = ok value
context none message = err message

infixl 5 ◌>>◌
abbrev pub ◌>>◌ {ℓ} : {U : Type ℓ} → Result (Unit {0}) → Result U → Result U
first >> second = first >>= (λ done. second)

pub Result-cases {ℓ} :
    {T : Type ℓ} (r : Result T)
    → ((value : T) × (r ≡ ok value)) ⊎ ((message : String) × (r ≡ err message))
Result-cases (err message) = inr (message, refl)
Result-cases (ok value) = inl (value, refl)

-- Inversion of a successful bind.
pub >>=-eq-ok {ℓ κ} :
    {T : Type ℓ} {U : Type κ} (r : Result T) (next : T → Result U) {u : U}
    → (r >>= next) ≡ ok u
    → (value : T) × (r ≡ ok value) × (next value ≡ ok u)
>>=-eq-ok (err message) next h = cc
>>=-eq-ok (ok value) next h = (value, refl, h)
