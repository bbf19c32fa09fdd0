-- ===== src/Ydb/Equality.antt =====
-- common/ydb_type_helpers.go: TypesEqual and its helpers, which swap their arguments on the way down
-- as the source does.
pub mod Agrees
pub mod Fuel
pub mod Getters
use fq_connector_go.Common.{
  Bytes, Option, none, some, ℕ, zero, suc, ◌+◌, Bool, true, false, ◌&&◌, bytes_eq, ℕ_discrete, ◌==◌,
  ◌≡◌, refl,
}
use fq_connector_go.Ydb.{
  PrimitiveTypeId, YdbType, type_id, decimal, optional, list, tuple, struct, dict, variant_tuple,
  variant_struct, tagged, void_type, null_type, empty_list, empty_dict, pg_type, unset, Elements,
  no_elements, element, Members, no_members, member,
}

unfoldable pub PrimitiveTypeId-discrete : Discrete PrimitiveTypeId
unfolding ℕ_discrete
PrimitiveTypeId-discrete = hlevel ℕ_discrete

unfoldable pub decided : {P : Type 0} → Dec P → Bool
decided (yes p) = true
decided (no n) = false

unfoldable pub same_primitive : PrimitiveTypeId → PrimitiveTypeId → Bool
unfolding PrimitiveTypeId-discrete decided
same_primitive p q = decided (PrimitiveTypeId-discrete p q)

-- `PRIMITIVE_TYPE_ID_UNSPECIFIED`, which GetTypeId gives for a type of another kind.
abbrev pub unspecified_primitive : PrimitiveTypeId
unspecified_primitive = PrimitiveTypeId.other 0

unfoldable pub get_type_id : YdbType → PrimitiveTypeId
get_type_id (type_id p) = p
get_type_id _ = unspecified_primitive

-- The getters of the `oneof`; `none` is the nil that they give for a type of another kind.
unfoldable pub get_optional : YdbType → Option YdbType
get_optional (optional t) = some t
get_optional _ = none

unfoldable pub get_list : YdbType → Option YdbType
get_list (list t) = some t
get_list _ = none

unfoldable pub get_dict : YdbType → Option (YdbType × YdbType)
get_dict (dict k p) = some (k, p)
get_dict _ = none

unfoldable pub get_decimal : YdbType → Option (ℕ × ℕ)
get_decimal (decimal p s) = some (p, s)
get_decimal _ = none

unfoldable pub get_tuple : YdbType → Option Elements
get_tuple (tuple ts) = some ts
get_tuple _ = none

unfoldable pub get_struct : YdbType → Option Members
get_struct (struct ms) = some ms
get_struct _ = none

-- The `oneof` of Ydb.VariantType.
pub data Variant : Type 0 where
  tuple_items : Elements → Variant
  struct_items : Members → Variant

unfoldable pub get_variant : YdbType → Option Variant
get_variant (variant_tuple ts) = some (tuple_items ts)
get_variant (variant_struct ms) = some (struct_items ms)
get_variant _ = none

unfoldable pub get_tagged : YdbType → Option (Bytes × YdbType)
get_tagged (tagged tag t) = some (tag, t)
get_tagged _ = none

unfoldable pub get_pg_type : YdbType → Option Bytes
get_pg_type (pg_type name) = some name
get_pg_type _ = none

-- What TypesEqual comes to: a Boolean, or a panic, or, which the source does not have, that the
-- recursion was cut off.
pub data Answer : Type 0 where
  value : Bool → Answer
  panics out_of_fuel : Answer

-- `rhsType != nil && ...`
unfoldable pub if_set : {A : Type 0} → Option A → (A → Answer) → Answer
if_set none f = value false
if_set (some a) f = f a

-- The use of a pointer that may be nil.
unfoldable pub dereferenced : {A : Type 0} → Option A → (A → Answer) → Answer
dereferenced none f = panics
dereferenced (some a) f = f a

-- The items of a variant, of which the getter of the other kind gives nil.
unfoldable pub get_tuple_items : Variant → Option Elements
get_tuple_items (tuple_items ts) = some ts
get_tuple_items (struct_items ms) = none

unfoldable pub get_struct_items : Variant → Option Members
get_struct_items (tuple_items ts) = none
get_struct_items (struct_items ms) = some ms

-- `&&`, whose right side is not evaluated if the left one is false.
unfoldable pub and_then : Answer → Answer → Answer
and_then panics r = panics
and_then out_of_fuel r = out_of_fuel
and_then (value false) r = value false
and_then (value true) r = r

unfoldable pub element_count : Elements → ℕ
element_count no_elements = 0
element_count (element t ts) = suc (element_count ts)

unfoldable pub member_count : Members → ℕ
member_count no_members = 0
member_count (member name t ms) = suc (member_count ms)

-- The size of a type bounds the depth of the recursion.
unfoldable mutual
  pub size : YdbType → ℕ
  size (optional t) = suc (size t)
  size (list t) = suc (size t)
  size (tuple ts) = suc (elements_size ts)
  size (struct ms) = suc (members_size ms)
  size (dict k p) = suc (size k + size p)
  size (variant_tuple ts) = suc (elements_size ts)
  size (variant_struct ms) = suc (members_size ms)
  size (tagged tag t) = suc (size t)
  size _ = 1

  pub elements_size : Elements → ℕ
  elements_size no_elements = 1
  elements_size (element t ts) = suc (size t + elements_size ts)

  pub members_size : Members → ℕ
  members_size no_members = 1
  members_size (member name t ms) = suc (size t + members_size ms)

unfoldable mutual
  -- TypesEqual, on fuel. The test of the types without a payload compares
  -- the getter, which always gives the null value, with the null value.
  pub types_equal_in : ℕ → YdbType → YdbType → Answer
  types_equal_in zero t r = out_of_fuel
  types_equal_in (suc n) (type_id p) r = value (same_primitive p (get_type_id r))
  types_equal_in (suc n) null_type r = value false
  types_equal_in (suc n) (optional a) r = if_set (get_optional r) (λ b. types_equal_in n b a)
  types_equal_in (suc n) (dict k p) r =
      if_set (get_dict r) (λ b. and_then (types_equal_in n (b.0) k) (types_equal_in n (b.1) p))
  types_equal_in (suc n) (list a) r = if_set (get_list r) (λ b. types_equal_in n b a)
  types_equal_in (suc n) (decimal p s) r =
      if_set (get_decimal r) (λ b. value (b.0 == p && b.1 == s))
  types_equal_in (suc n) (tuple ts) r =
      if_set (get_tuple r)
        (λ us. and_then (value (element_count us == element_count ts)) (elements_equal_in n us ts))
  types_equal_in (suc n) (struct ms) r =
      if_set (get_struct r)
        (λ ns. and_then (value (member_count ms == member_count ns)) (members_equal_in n ns ms))
  types_equal_in (suc n) (variant_tuple ts) r = if_set (get_variant r) (λ v.
      dereferenced (get_tuple_items v)
        (λ us. and_then (value (element_count us == element_count ts)) (elements_equal_in n us ts)))
  types_equal_in (suc n) (variant_struct ms) r = if_set (get_variant r) (λ v.
      dereferenced (get_struct_items v)
        (λ ns. and_then (value (member_count ms == member_count ns)) (members_equal_in n ns ms)))
  types_equal_in (suc n) (tagged tag a) r =
      dereferenced (get_tagged r)
        (λ b. and_then (value (bytes_eq (b.0) tag)) (types_equal_in n (b.1) a))
  types_equal_in (suc n) void_type r = value false
  types_equal_in (suc n) empty_list r = value false
  types_equal_in (suc n) empty_dict r = value false
  types_equal_in (suc n) (pg_type name) r = if_set (get_pg_type r) (λ b. value (bytes_eq b name))
  types_equal_in (suc n) unset r = panics

  -- The loop of tuplesEqual, which compares the elements of the second tuple with those of the first.
  pub elements_equal_in : ℕ → Elements → Elements → Answer
  elements_equal_in zero ts us = out_of_fuel
  elements_equal_in (suc n) (element t ts) (element u us) =
      and_then (types_equal_in n u t) (elements_equal_in n ts us)
  elements_equal_in (suc n) _ _ = value true

  -- The loop of structsEqual.
  pub members_equal_in : ℕ → Members → Members → Answer
  members_equal_in zero ms ns = out_of_fuel
  members_equal_in (suc n) (member name t ms) (member name' u ns) =
      and_then (and_then (value (bytes_eq name' name)) (types_equal_in n u t))
        (members_equal_in n ms ns)
  members_equal_in (suc n) _ _ = value true

-- TypesEqual, with fuel for either type.
unfoldable pub types_equal : YdbType → YdbType → Answer
unfolding types_equal_in size
types_equal t u = types_equal_in (size t + size u) t u

test_never : types_equal null_type null_type ≡ value false
unfolding types_equal
test_never = refl

test_optional :
    types_equal (optional (type_id PrimitiveTypeId.utf8)) (optional (type_id PrimitiveTypeId.utf8))
    ≡ value true
unfolding types_equal same_primitive get_type_id if_set get_optional
test_optional = refl
