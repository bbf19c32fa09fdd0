-- ===== src/Ydb/Equality/Getters.antt =====
-- common/ydb_type_helpers.go: what the tests of TypesEqual and the getters of a type tell of it.
use fq_connector_go.Common.{
  ℕ, Bool, true, false, Bytes, bytes_eq, ◌==◌, Option, none, some, ◌≡◌, ◌≢◌, refl, ap, [], ◌∷◌, ◌∙◌,
  arith,
}
use fq_connector_go.Ydb.{
  PrimitiveTypeId, YdbType, type_id, decimal, optional, list, tuple, struct, dict, variant_tuple,
  variant_struct, tagged, pg_type, Elements, Members,
}
use fq_connector_go.Ydb.Equality.{
  Answer, value, panics, out_of_fuel, decided, unspecified_primitive, get_type_id, get_optional,
  get_list, get_dict, get_decimal, get_tuple, get_struct, Variant, tuple_items, struct_items,
  get_variant, get_tagged, get_pg_type, if_set, dereferenced, get_tuple_items, get_struct_items,
  and_then,
}

pub decided-true : {P : Type 0} (d : Dec P) → decided d ≡ true → P
unfolding decided
decided-true (yes p) h = p
decided-true (no n) h = absurd (cc h)

pub decided-holds : {P : Type 0} (d : Dec P) → P → decided d ≡ true
unfolding decided
decided-holds (yes p) h = refl
decided-holds (no n) h = absurd (n h)

pub ==-refl : (n : ℕ) → (n == n) ≡ true
==-refl n = ground arith

pub ==-eq : (m n : ℕ) → (m == n) ≡ true → m ≡ n
==-eq m n h = ground arith

pub bytes_eq-eq : (s t : Bytes) → bytes_eq s t ≡ true → s ≡ t
bytes_eq-eq [] [] h = refl
bytes_eq-eq [] (d ∷ t) h = cc
bytes_eq-eq (c ∷ s) [] h = cc
bytes_eq-eq (c ∷ s) (d ∷ t) h =
    let heads : c ≡ d = ground arith in
    let tails : bytes_eq s t ≡ true = ground arith in let same = bytes_eq-eq s t tails in cc

pub bytes_eq_refl : (s : Bytes) → bytes_eq s s ≡ true
bytes_eq_refl [] = refl
bytes_eq_refl (c ∷ s) = rw (==-refl c, bytes_eq_refl s) refl

pub and_then-true : (a b : Answer) → and_then a b ≡ value true → (a ≡ value true) × (b ≡ value true)
unfolding and_then
and_then-true panics b h = absurd (cc h)
and_then-true out_of_fuel b h = absurd (cc h)
and_then-true (value false) b h = absurd (cc h)
and_then-true (value true) b h = (refl, h)

pub both : {a b : Answer} → a ≡ value true → b ≡ value true → and_then a b ≡ value true
unfolding and_then
both {a = panics} h k = cc
both {a = out_of_fuel} h k = cc
both {a = value x} h k = let t : x ≡ true = cc in rw t k

pub if_set-true :
    {A : Type 0} (o : Option A) (f : A → Answer)
    → if_set o f ≡ value true
    → (a : A) × (o ≡ some a) × (f a ≡ value true)
unfolding if_set
if_set-true none f h = absurd (cc h)
if_set-true (some a) f h = (a, refl, h)

pub dereferenced-true :
    {A : Type 0} (o : Option A) (f : A → Answer)
    → dereferenced o f ≡ value true
    → (a : A) × (o ≡ some a) × (f a ≡ value true)
unfolding dereferenced
dereferenced-true none f h = absurd (cc h)
dereferenced-true (some a) f h = (a, refl, h)

pub value-true : (b : Bool) → value b ≡ value true → b ≡ true
value-true b h = cc

-- A getter gives something for the types of its kind only.
pub get_type_id-inv :
    (u : YdbType) (p : PrimitiveTypeId)
    → p ≢ unspecified_primitive
    → p ≡ get_type_id u
    → type_id p ≡ u
unfolding get_type_id
get_type_id-inv (type_id q) p n h = ap type_id h
get_type_id-inv _ p n h = absurd (n h)

pub get_optional-inv : (u : YdbType) (b : YdbType) → get_optional u ≡ some b → u ≡ optional b
unfolding get_optional
get_optional-inv (optional t) b h = cc
get_optional-inv _ b h = cc

pub get_list-inv : (u : YdbType) (b : YdbType) → get_list u ≡ some b → u ≡ list b
unfolding get_list
get_list-inv (list t) b h = cc
get_list-inv _ b h = cc

pub get_dict-inv :
    (u : YdbType) (b : (YdbType × YdbType)) → get_dict u ≡ some b → u ≡ dict (b.0) (b.1)
unfolding get_dict
get_dict-inv (dict k p) b h = cc
get_dict-inv _ b h = cc

pub get_decimal-inv : (u : YdbType) (b : (ℕ × ℕ)) → get_decimal u ≡ some b → u ≡ decimal (b.0) (b.1)
unfolding get_decimal
get_decimal-inv (decimal p s) b h = cc
get_decimal-inv _ b h = cc

pub get_tuple-inv : (u : YdbType) (b : Elements) → get_tuple u ≡ some b → u ≡ tuple b
unfolding get_tuple
get_tuple-inv (tuple ts) b h = cc
get_tuple-inv _ b h = cc

pub get_struct-inv : (u : YdbType) (b : Members) → get_struct u ≡ some b → u ≡ struct b
unfolding get_struct
get_struct-inv (struct ms) b h = cc
get_struct-inv _ b h = cc

pub get_tagged-inv :
    (u : YdbType) (b : (Bytes × YdbType)) → get_tagged u ≡ some b → u ≡ tagged (b.0) (b.1)
unfolding get_tagged
get_tagged-inv (tagged tag t) b h = cc
get_tagged-inv _ b h = cc

pub get_pg_type-inv : (u : YdbType) (b : Bytes) → get_pg_type u ≡ some b → u ≡ pg_type b
unfolding get_pg_type
get_pg_type-inv (pg_type name) b h = cc
get_pg_type-inv _ b h = cc

pub get_tuple_items-inv :
    (u : YdbType) (v : Variant) (us : Elements)
    → get_variant u ≡ some v
    → get_tuple_items v ≡ some us
    → u ≡ variant_tuple us
unfolding get_variant get_tuple_items
get_tuple_items-inv (variant_tuple ts) v us h k =
    let same : tuple_items ts ≡ v = cc in
    let items : get_tuple_items (tuple_items ts) ≡ some us = ap get_tuple_items same ∙ k in cc
get_tuple_items-inv (variant_struct ts) v us h k =
    let same : struct_items ts ≡ v = cc in
    let items : get_tuple_items (struct_items ts) ≡ some us = ap get_tuple_items same ∙ k in cc
get_tuple_items-inv _ v us h k = cc

pub get_struct_items-inv :
    (u : YdbType) (v : Variant) (us : Members)
    → get_variant u ≡ some v
    → get_struct_items v ≡ some us
    → u ≡ variant_struct us
unfolding get_variant get_struct_items
get_struct_items-inv (variant_struct ts) v us h k =
    let same : struct_items ts ≡ v = cc in
    let items : get_struct_items (struct_items ts) ≡ some us = ap get_struct_items same ∙ k in cc
get_struct_items-inv (variant_tuple ts) v us h k =
    let same : tuple_items ts ≡ v = cc in
    let items : get_struct_items (tuple_items ts) ≡ some us = ap get_struct_items same ∙ k in cc
get_struct_items-inv _ v us h k = cc

pub counts_eq : {m n : ℕ} → ◌≡◌ {A = Answer} (value (m == n)) (value true) → m ≡ n
counts_eq h = ==-eq _ _ (value-true _ h)
