-- ===== src/Ydb/Equality/Fuel.antt =====
-- common/ydb_type_helpers.go: the fuel of TypesEqual is enough.
use fq_connector_go.Common.{
  ℕ, zero, suc, ◌+◌, ◌≤◌, Bool, true, false, Bytes, Option, none, some, ◌≡◌, ◌≢◌, refl, ap, ◌∙◌,
  arith,
}
use fq_connector_go.Ydb.{
  YdbType, optional, list, tuple, struct, dict, variant_tuple, variant_struct, tagged, decimal,
  pg_type, Elements, no_elements, element, Members, no_members, member,
}
use fq_connector_go.Ydb.Equality.{
  Answer, value, panics, out_of_fuel, get_decimal, get_pg_type, get_optional, get_list, get_dict,
  get_tuple, get_struct, Variant, tuple_items, struct_items, get_variant, get_tagged, if_set,
  dereferenced, get_tuple_items, get_struct_items, and_then, size, elements_size, members_size,
  types_equal_in, elements_equal_in, members_equal_in, types_equal,
}

pub size-positive : (t : YdbType) → 1 ≤ size t
unfolding size
size-positive (optional t) = omega arith
size-positive _ = omega arith

-- The size of what a getter gives.
get_optional-size : (u b : YdbType) → get_optional u ≡ some b → size u ≡ suc (size b)
unfolding get_optional size
get_optional-size (optional t) b h = cc
get_optional-size _ b h = cc

get_list-size : (u b : YdbType) → get_list u ≡ some b → size u ≡ suc (size b)
unfolding get_list size
get_list-size (list t) b h = cc
get_list-size _ b h = cc

get_dict-size :
    (u : YdbType) (b : YdbType × YdbType)
    → get_dict u ≡ some b
    → size u ≡ suc (size (b.0) + size (b.1))
unfolding get_dict size
get_dict-size (dict k p) b h = cc
get_dict-size _ b h = cc

get_tuple-size :
    (u : YdbType) (us : Elements) → get_tuple u ≡ some us → size u ≡ suc (elements_size us)
unfolding get_tuple size
get_tuple-size (tuple ts) us h = cc
get_tuple-size _ us h = cc

get_struct-size :
    (u : YdbType) (ms : Members) → get_struct u ≡ some ms → size u ≡ suc (members_size ms)
unfolding get_struct size
get_struct-size (struct ts) us h = cc
get_struct-size _ us h = cc

get_tuple_items-size :
    (u : YdbType) (v : Variant) (us : Elements)
    → get_variant u ≡ some v
    → get_tuple_items v ≡ some us
    → size u ≡ suc (elements_size us)
unfolding get_variant get_tuple_items size
get_tuple_items-size (variant_tuple ts) v us h k =
    let same : tuple_items ts ≡ v = cc in
    let items : get_tuple_items (tuple_items ts) ≡ some us = ap get_tuple_items same ∙ k in cc
get_tuple_items-size (variant_struct ts) v us h k =
    let same : struct_items ts ≡ v = cc in
    let items : get_tuple_items (struct_items ts) ≡ some us = ap get_tuple_items same ∙ k in cc
get_tuple_items-size _ v us h k = cc

get_struct_items-size :
    (u : YdbType) (v : Variant) (us : Members)
    → get_variant u ≡ some v
    → get_struct_items v ≡ some us
    → size u ≡ suc (members_size us)
unfolding get_variant get_struct_items size
get_struct_items-size (variant_struct ts) v us h k =
    let same : struct_items ts ≡ v = cc in
    let items : get_struct_items (struct_items ts) ≡ some us = ap get_struct_items same ∙ k in cc
get_struct_items-size (variant_tuple ts) v us h k =
    let same : tuple_items ts ≡ v = cc in
    let items : get_struct_items (tuple_items ts) ≡ some us = ap get_struct_items same ∙ k in cc
get_struct_items-size _ v us h k = cc

get_tagged-size :
    (u : YdbType) (b : Bytes × YdbType) → get_tagged u ≡ some b → size u ≡ suc (size (b.1))
unfolding get_tagged size
get_tagged-size (tagged tag t) b h = cc
get_tagged-size _ b h = cc

if_set-ends :
    {A : Type 0} (o : Option A) {f : A → Answer}
    → ((a : A) → o ≡ some a → f a ≢ out_of_fuel)
    → if_set o f ≢ out_of_fuel
unfolding if_set
if_set-ends none h = λ e. absurd (cc e)
if_set-ends (some a) h = h a refl

dereferenced-ends :
    {A : Type 0} (o : Option A) {f : A → Answer}
    → ((a : A) → o ≡ some a → f a ≢ out_of_fuel)
    → dereferenced o f ≢ out_of_fuel
unfolding dereferenced
dereferenced-ends none h = λ e. absurd (cc e)
dereferenced-ends (some a) h = h a refl

value-ends : (b : Bool) → value b ≢ out_of_fuel
value-ends b e = absurd (cc e)

and_then-ends : (a b : Answer) → a ≢ out_of_fuel → b ≢ out_of_fuel → and_then a b ≢ out_of_fuel
unfolding and_then
and_then-ends panics b h k = h
and_then-ends out_of_fuel b h k = h
and_then-ends (value false) b h k = value-ends false
and_then-ends (value true) b h k = k

-- A test of the lengths, and a loop.
counted-ends : (b : Bool) (r : Answer) → r ≢ out_of_fuel → and_then (value b) r ≢ out_of_fuel
counted-ends b r k = and_then-ends (value b) r (value-ends b) k

mutual
  unfolding types_equal_in elements_equal_in members_equal_in size elements_size members_size

  -- Fuel of the sizes of both types is not used up.
  types_equal_in-ends :
      (n : ℕ) (t u : YdbType) → size t + size u ≤ n → types_equal_in n t u ≢ out_of_fuel
  types_equal_in-ends zero t u h = absurd (let p = size-positive t in omega arith)
  types_equal_in-ends (suc n) (optional a) u h =
      if_set-ends (get_optional u)
        (λ b e. let s = get_optional-size u b e in types_equal_in-ends n b a (omega arith))
  types_equal_in-ends (suc n) (list a) u h =
      if_set-ends (get_list u)
        (λ b e. let s = get_list-size u b e in types_equal_in-ends n b a (omega arith))
  types_equal_in-ends (suc n) (dict x y) u h = if_set-ends (get_dict u) (λ b e.
      let s = get_dict-size u b e in
      and_then-ends _ _ (types_equal_in-ends n (b.0) x (omega arith))
        (types_equal_in-ends n (b.1) y (omega arith)))
  types_equal_in-ends (suc n) (tuple ts) u h = if_set-ends (get_tuple u) (λ us e.
      let s = get_tuple-size u us e in
      counted-ends _ _ (elements_equal_in-ends n us ts (omega arith)))
  types_equal_in-ends (suc n) (struct ms) u h = if_set-ends (get_struct u) (λ us e.
      let s = get_struct-size u us e in
      counted-ends _ _ (members_equal_in-ends n us ms (omega arith)))
  types_equal_in-ends (suc n) (variant_tuple ts) u h = if_set-ends (get_variant u) (λ v x.
      dereferenced-ends (get_tuple_items v) (λ us y.
        let s = get_tuple_items-size u v us x y in
        counted-ends _ _ (elements_equal_in-ends n us ts (omega arith))))
  types_equal_in-ends (suc n) (variant_struct ms) u h = if_set-ends (get_variant u) (λ v x.
      dereferenced-ends (get_struct_items v) (λ us y.
        let s = get_struct_items-size u v us x y in
        counted-ends _ _ (members_equal_in-ends n us ms (omega arith))))
  types_equal_in-ends (suc n) (tagged tag a) u h = dereferenced-ends (get_tagged u) (λ b e.
      let s = get_tagged-size u b e in
      counted-ends _ _ (types_equal_in-ends n (b.1) a (omega arith)))
  types_equal_in-ends (suc n) (decimal x y) u h = if_set-ends (get_decimal u) (λ b e. value-ends _)
  types_equal_in-ends (suc n) (pg_type x) u h = if_set-ends (get_pg_type u) (λ b e. value-ends _)
  types_equal_in-ends (suc n) _ u h = λ e. absurd (cc e)

  elements_equal_in-ends :
      (n : ℕ) (ts us : Elements)
      → elements_size ts + elements_size us ≤ n
      → elements_equal_in n ts us ≢ out_of_fuel
  elements_equal_in-ends (suc n) (element t ts) (element u us) h =
      let p = size-positive t in
      let q = size-positive u in
      and_then-ends _ _ (types_equal_in-ends n u t (omega arith))
        (elements_equal_in-ends n ts us (omega arith))
  elements_equal_in-ends (suc n) (element t ts) no_elements h = value-ends true
  elements_equal_in-ends (suc n) no_elements us h = value-ends true
  elements_equal_in-ends zero (element t ts) us h = absurd (omega arith)
  elements_equal_in-ends zero no_elements us h = absurd (omega arith)

  members_equal_in-ends :
      (n : ℕ) (ts us : Members)
      → members_size ts + members_size us ≤ n
      → members_equal_in n ts us ≢ out_of_fuel
  members_equal_in-ends (suc n) (member x t ts) (member y u us) h =
      let p = size-positive t in
      let q = size-positive u in
      and_then-ends _ _ (counted-ends _ _ (types_equal_in-ends n u t (omega arith)))
        (members_equal_in-ends n ts us (omega arith))
  members_equal_in-ends (suc n) (member x t ts) no_members h = value-ends true
  members_equal_in-ends (suc n) no_members us h = value-ends true
  members_equal_in-ends zero (member x t ts) us h = absurd (omega arith)
  members_equal_in-ends zero no_members us h = absurd (omega arith)

-- The recursion of TypesEqual, which swaps its arguments on the way down, comes to an end for all
-- types: it is never cut off, since no chain of calls is longer than the sizes of the two types
-- together.
pub types_equal-ends : (t u : YdbType) → types_equal t u ≢ out_of_fuel
unfolding types_equal
types_equal-ends t u = types_equal_in-ends (size t + size u) t u (omega arith)
