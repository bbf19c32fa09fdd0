-- ===== src/Predicate/Lookup.antt =====
-- How a database finds the argument of a placeholder whose text says which it is, as `$1` of
-- PostgreSQL does and `?` of ClickHouse and MySQL does not.
use mathlib.Core.Path.{fun_ext}
use fq_connector_go.Common.{
  ℕ, zero, suc, ◌+◌, Bool, true, false, Bytes, bytes_eq, [], ◌∷◌, Option, none, some, ◌≡◌, ◌≢◌,
  refl, ap, ◌∙◌, arith, if◌then◌else◌, get_elem?,
}
use fq_connector_go.Ydb.Equality.Getters.{bytes_eq-eq, bytes_eq_refl}
use fq_connector_go.Predicate.Formatter.{QueryArg, QueryArgs, SqlFormatter}

if_false : {A : Type 0} (b : Bool) (x y : A) → b ≢ true → (if b then x else y) ≡ y
if_false true x y h = absurd (h refl)
if_false false x y h = refl

module _ {Split : Type 0} (formatter : SqlFormatter Split) where
  -- Different arguments have different placeholders.
  abbrev pub NumbersArguments : Type 0
  NumbersArguments = (m n : ℕ) → formatter.get_placeholder m ≡ formatter.get_placeholder n → m ≡ n

  -- The first of the arguments, numbered from `n` on, whose placeholder is this text.
  unfoldable pub argument_from : ℕ → QueryArgs → Bytes → Option QueryArg
  argument_from n [] text = none
  argument_from n (a ∷ args) text =
      let later = argument_from (suc n) args text in
      if bytes_eq (formatter.get_placeholder n) text then some a else later

  -- The argument that a placeholder with this text is bound to.
  unfoldable pub argument_of : QueryArgs → Bytes → Option QueryArg
  unfolding argument_from
  argument_of args text = argument_from 0 args text

  argument_from-get :
      (args : QueryArgs) (k n : ℕ)
      → NumbersArguments
      → argument_from k args (formatter.get_placeholder (k + n)) ≡ get_elem? args n
  unfolding argument_from
  argument_from-get [] k n numbers = refl
  argument_from-get (a ∷ args) k zero numbers =
      let here : k + 0 ≡ k = omega arith in
      rw (here, bytes_eq_refl (formatter.get_placeholder k)) refl
  argument_from-get (a ∷ args) k (suc n) numbers =
      let next : k + suc n ≡ suc k + n = omega arith in
      let other : bytes_eq (formatter.get_placeholder k) (formatter.get_placeholder (k + suc n))
          ≢ true =
        λ e. let same = numbers k (k + suc n) (bytes_eq-eq _ _ e) in omega arith in
      if_false _ _ _ other
      ∙ ap (λ j. argument_from (suc k) args (formatter.get_placeholder j)) next
      ∙ argument_from-get args (suc k) n numbers

  -- Where different arguments have different placeholders, each is bound to the argument with its
  -- number.
  pub argument_of-get :
      (args : QueryArgs)
      → NumbersArguments
      → (λ n. argument_of args (formatter.get_placeholder n)) ≡ get_elem? args
  unfolding argument_of
  argument_of-get args numbers = fun_ext (λ n.
      let e : n ≡ 0 + n = omega arith in
      ap (λ j. argument_from 0 args (formatter.get_placeholder j)) e
      ∙ argument_from-get args 0 n numbers)
