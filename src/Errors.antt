-- ===== src/Errors.antt =====
-- common/errors.go: the sentinel errors and `ErrorMatcher`.
-- A Go error here is a chain of `fmt.Errorf("...: %w", err)` wraps. What the program asks of such a
-- chain is `errors.Is` with a sentinel, so a chain is modelled by the error at its bottom; `opaque`
-- is a chain with no sentinel of this repository. The texts of the wraps are left out.
use fq_connector_go.Common.{Bool, true, false, ◌||◌, Option, none, some, List, [], ◌∷◌, ◌≡◌, refl}

pub data Sentinel : Type 0 where
  table_does_not_exist data_source_not_supported data_type_not_supported : Sentinel
  data_type_mismatch method_not_supported read_limit_exceeded invalid_request : Sentinel
  value_out_of_type_bounds unimplemented_typed_value unimplemented_expression : Sentinel
  unsupported_expression unimplemented_operation unimplemented_predicate_type : Sentinel
  invariant_violation unimplemented_arithmetical_expression empty_table_name : Sentinel
  page_size_exceeded : Sentinel

unfoldable pub Sentinel-discrete : Discrete Sentinel
Sentinel-discrete = hlevel

pub data Error : Type 0 where
  wraps : Sentinel → Error
  opaque : Error

-- errors.Is(err, s); a nil error is `none`.
unfoldable pub is : Option Error → Sentinel → Bool
unfolding Sentinel-discrete
is (some (wraps e)) s = elim (Sentinel-discrete e s) [ yes _ ↦ true | no _ ↦ false ]
is (some opaque) s = false
is none s = false

pub record ErrorMatcher : Type 0 where
  pub errors : List Sentinel

match_any : Option Error → List Sentinel → Bool
match_any err [] = false
match_any err (e ∷ es) = is err e || match_any err es

-- ErrorMatcher.Match
unfoldable pub matches : ErrorMatcher → Option Error → Bool
unfolding match_any
matches m err = match_any err m.errors

-- The result of a fallible function: a value, or an error.
pub data Result {ℓ} (A : Type ℓ) : Type ℓ where
  ok : A → Result A
  err : Error → Result A

-- A function that returns, or panics.
pub data Returned (A : Type 0) : Type 0 where
  value : A → Returned A
  panics : Returned A

-- The `err` variable of a Go call.
abbrev pub error_of {ℓ} : {A : Type ℓ} → Result A → Option Error
error_of (ok a) = none
error_of (err e) = some e

-- `if err != nil { return ..., err }` between a call and what follows it.
module _ {ℓ κ} {A : Type ℓ} {B : Type κ} where
  infixl 5 ◌>>=◌
  abbrev pub ◌>>=◌ : (called : Result A) (next : A → Result B) → Result B
  ◌>>=◌ (err x) next = err x
  ◌>>=◌ (ok v) next = next v

  -- What a chain that succeeds went through.
  pub >>=-eq-ok :
      (called : Result A) (next : A → Result B) {end : B}
      → ◌>>=◌ called next ≡ ok end
      → (v : A) × (called ≡ ok v) × (next v ≡ ok end)
  >>=-eq-ok (err x) next went = cc
  >>=-eq-ok (ok v) next went = (v, refl, went)

test_is : is (some (wraps empty_table_name)) empty_table_name ≡ true
unfolding is
test_is = refl
