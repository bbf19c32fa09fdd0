-- ===== src/Common/Lists.antt =====
-- Lists measured and indexed by native numbers, and byte strings.
use Prim.Native.Nat.{ℕ, zero, suc, ◌+◌}
use Prim.Native.Char.{code}
use Prim.Native.String.{String}
use mathlib.Core.Path.{◌≡◌, refl, ap}
use mathlib.Core.Bool.{Bool, true, false, ◌&&◌}
use mathlib.Core.List.{List, [], ◌∷◌, ◌++◌}
use mathlib.Core.Option.{Option, none, some}
use native.Mathlib.Omega.{arith}
use fq_connector_go.Common.Tests.{◌==◌}

module _ {ℓ} {A : Type ℓ} where
  abbrev pub length : List A → ℕ
  length [] = 0
  length (x ∷ xs) = suc (length xs)

  abbrev pub get_elem? : List A → ℕ → Option A
  get_elem? [] i = none
  get_elem? (x ∷ xs) zero = some x
  get_elem? (x ∷ xs) (suc i) = get_elem? xs i

  pub length-append : (xs ys : List A) → length (xs ++ ys) ≡ length xs + length ys
  length-append [] ys = omega arith
  length-append (x ∷ xs) ys = omega (arith, length-append xs ys)

  -- The element behind a prefix.
  pub get_elem?-append_length :
      (xs : List A) (x : A) (ys : List A) → get_elem? (xs ++ x ∷ ys) (length xs) ≡ some x
  get_elem?-append_length [] x ys = refl
  get_elem?-append_length (y ∷ xs) x ys = get_elem?-append_length xs x ys

-- The numbers from `n` on, `k` of them.
abbrev pub count_from : ℕ → ℕ → List ℕ
count_from n zero = []
count_from n (suc k) = n ∷ count_from (suc n) k

pub count_from-add : (n j k : ℕ) → count_from n j ++ count_from (n + j) k ≡ count_from n (j + k)
count_from-add n zero k =
    let e : n + 0 ≡ n = omega arith in let f : 0 + k ≡ k = omega arith in rw (e, f)
count_from-add n (suc j) k =
    let e : n + suc j ≡ suc n + j = omega arith in
    let f : suc j + k ≡ suc (j + k) = omega arith in
    rw (e, f) (ap (λ l. n ∷ l) (count_from-add (suc n) j k))

abbrev pub Bytes : Type 0
Bytes = List ℕ

-- The code points of a literal; these are its bytes, since every literal of the program is ASCII.
abbrev pub codes : String → Bytes
codes String.[] = []
codes (String.◌∷◌ c s) = code c ∷ codes s

-- Equality of byte strings.
abbrev pub bytes_eq : Bytes → Bytes → Bool
bytes_eq [] [] = true
bytes_eq [] (d ∷ t) = false
bytes_eq (c ∷ s) [] = false
bytes_eq (c ∷ s) (d ∷ t) = c == d && bytes_eq s t

-- A predicate at every element.
abbrev pub All {ℓ κ} : {A : Type ℓ} → (A → Type κ) → List A → Type κ
All P [] = Unit
All P (x ∷ xs) = P x × All P xs
