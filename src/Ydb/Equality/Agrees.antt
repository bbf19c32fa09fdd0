-- ===== src/Ydb/Equality/Agrees.antt =====
-- common/ydb_type_helpers.go: TypesEqual agrees with equality on the types that it can compare.
use fq_connector_go.Common.{
  ℕ, zero, suc, ◌+◌, ◌≤◌, true, ◌&&◌, ◌==◌, ◌≡◌, ◌≢◌, ◌↔◌, refl, sym, ap, ◌∙◌, arith, subst,
}
use fq_connector_go.Ydb.{
  YdbType, type_id, decimal, optional, list, tuple, struct, dict, variant_tuple, variant_struct,
  tagged, void_type, null_type, empty_list, empty_dict, pg_type, unset, Elements, no_elements,
  element, Members, no_members, member,
}
use fq_connector_go.Ydb.Equality.Fuel.{size-positive}
use fq_connector_go.Ydb.Equality.{
  value, PrimitiveTypeId-discrete, same_primitive, unspecified_primitive, get_type_id, get_optional,
  get_list, get_dict, get_decimal, get_tuple, get_struct, get_variant, get_tagged, get_pg_type,
  if_set, dereferenced, get_tuple_items, get_struct_items, and_then, element_count, member_count,
  size, elements_size, members_size, types_equal_in, elements_equal_in, members_equal_in,
  types_equal,
}
use fq_connector_go.Ydb.Equality.Getters.{
  decided-true, decided-holds, ==-refl, bytes_eq-eq, bytes_eq_refl, and_then-true, both,
  if_set-true, dereferenced-true, value-true, get_type_id-inv, get_optional-inv, get_list-inv,
  get_dict-inv, get_decimal-inv, get_tuple-inv, get_struct-inv, get_tagged-inv, get_pg_type-inv,
  get_tuple_items-inv, get_struct_items-inv, counts_eq,
}

unfoldable mutual
  -- A type without a part that TypesEqual does not compare by its content: one without a payload, or
  -- a primitive type with the unspecified id.
  pub IsComparable : YdbType → Type 0
  IsComparable (type_id p) = p ≢ unspecified_primitive
  IsComparable (decimal p s) = Unit
  IsComparable (optional t) = IsComparable t
  IsComparable (list t) = IsComparable t
  IsComparable (tuple ts) = AreComparable ts
  IsComparable (struct ms) = HasComparable ms
  IsComparable (dict k p) = IsComparable k × IsComparable p
  IsComparable (variant_tuple ts) = AreComparable ts
  IsComparable (variant_struct ms) = HasComparable ms
  IsComparable (tagged tag t) = IsComparable t
  IsComparable (pg_type name) = Unit
  IsComparable _ = ⊥

  pub AreComparable : Elements → Type 0
  AreComparable no_elements = Unit
  AreComparable (element t ts) = IsComparable t × AreComparable ts

  pub HasComparable : Members → Type 0
  HasComparable no_members = Unit
  HasComparable (member name t ms) = IsComparable t × HasComparable ms

mutual
  unfolding types_equal_in elements_equal_in members_equal_in IsComparable AreComparable
      HasComparable element_count member_count same_primitive

  types_equal_in-eq :
      (n : ℕ) (t u : YdbType)
      → IsComparable t
      → IsComparable u
      → types_equal_in n t u ≡ value true
      → t ≡ u
  types_equal_in-eq zero t u p q h = absurd (cc h)
  types_equal_in-eq (suc n) (type_id x) u p q h =
      get_type_id-inv u x p (decided-true (PrimitiveTypeId-discrete x (get_type_id u)) (cc h))
  types_equal_in-eq (suc n) (optional a) u p q h =
      let (b, e, k) = if_set-true (get_optional u) _ h in
      let s = get_optional-inv u b e in
      let same = types_equal_in-eq n b a (subst IsComparable s q) p k in
      ap optional (sym same) ∙ sym s
  types_equal_in-eq (suc n) (list a) u p q h =
      let (b, e, k) = if_set-true (get_list u) _ h in
      let s = get_list-inv u b e in
      let same = types_equal_in-eq n b a (subst IsComparable s q) p k in ap list (sym same) ∙ sym s
  types_equal_in-eq (suc n) (dict x y) u p q h =
      let (b, e, k) = if_set-true (get_dict u) _ h in
      let s = get_dict-inv u b e in
      let (k1, k2) = and_then-true _ _ k in
      let r = subst IsComparable s q in
      let same1 : b.0 ≡ x = types_equal_in-eq n (b.0) x (r.0) (p.0) k1 in
      let same2 : b.1 ≡ y = types_equal_in-eq n (b.1) y (r.1) (p.1) k2 in cc
  types_equal_in-eq (suc n) (decimal x y) u p q h =
      let (b, e, k) = if_set-true (get_decimal u) _ h in
      let s = get_decimal-inv u b e in
      let j = value-true (b.0 == x && b.1 == y) k in
      let same1 : b.0 ≡ x = ground arith in let same2 : b.1 ≡ y = ground arith in cc
  types_equal_in-eq (suc n) (tuple ts) u p q h =
      let (us, e, k) = if_set-true (get_tuple u) _ h in
      let s = get_tuple-inv u us e in
      let (k1, k2) = and_then-true _ _ k in
      let same = elements_equal_in-eq n us ts (subst IsComparable s q) p (counts_eq k1) k2 in
      ap tuple same ∙ sym s
  types_equal_in-eq (suc n) (struct ms) u p q h =
      let (ns, e, k) = if_set-true (get_struct u) _ h in
      let s = get_struct-inv u ns e in
      let (k1, k2) = and_then-true _ _ k in
      let same = members_equal_in-eq n ns ms (subst IsComparable s q) p (counts_eq k1) k2 in
      ap struct same ∙ sym s
  types_equal_in-eq (suc n) (variant_tuple ts) u p q h =
      let (v, x, j) = if_set-true (get_variant u) _ h in
      let (us, e, k) = dereferenced-true (get_tuple_items v) _ j in
      let s = get_tuple_items-inv u v us x e in
      let (k1, k2) = and_then-true _ _ k in
      let same = elements_equal_in-eq n us ts (subst IsComparable s q) p (counts_eq k1) k2 in
      ap variant_tuple same ∙ sym s
  types_equal_in-eq (suc n) (variant_struct ms) u p q h =
      let (v, x, j) = if_set-true (get_variant u) _ h in
      let (ns, e, k) = dereferenced-true (get_struct_items v) _ j in
      let s = get_struct_items-inv u v ns x e in
      let (k1, k2) = and_then-true _ _ k in
      let same = members_equal_in-eq n ns ms (subst IsComparable s q) p (counts_eq k1) k2 in
      ap variant_struct same ∙ sym s
  types_equal_in-eq (suc n) (tagged x a) u p q h =
      let (b, e, k) = dereferenced-true (get_tagged u) _ h in
      let s = get_tagged-inv u b e in
      let (k1, k2) = and_then-true _ _ k in
      let same1 : b.0 ≡ x = bytes_eq-eq (b.0) x (value-true _ k1) in
      let same2 : b.1 ≡ a = types_equal_in-eq n (b.1) a (subst IsComparable s q) p k2 in cc
  types_equal_in-eq (suc n) (pg_type x) u p q h =
      let (b, e, k) = if_set-true (get_pg_type u) _ h in
      let s = get_pg_type-inv u b e in let same : b ≡ x = bytes_eq-eq b x (value-true _ k) in cc
  types_equal_in-eq (suc n) void_type u p q h = absurd p
  types_equal_in-eq (suc n) null_type u p q h = absurd p
  types_equal_in-eq (suc n) empty_list u p q h = absurd p
  types_equal_in-eq (suc n) empty_dict u p q h = absurd p
  types_equal_in-eq (suc n) unset u p q h = absurd p

  elements_equal_in-eq :
      (n : ℕ) (us ts : Elements)
      → AreComparable us
      → AreComparable ts
      → element_count us ≡ element_count ts
      → elements_equal_in n us ts ≡ value true
      → ts ≡ us
  elements_equal_in-eq zero us ts q p l h = absurd (cc h)
  elements_equal_in-eq (suc n) no_elements no_elements q p l h = refl
  elements_equal_in-eq (suc n) no_elements (element t ts) q p l h = absurd (omega arith)
  elements_equal_in-eq (suc n) (element u us) no_elements q p l h = absurd (omega arith)
  elements_equal_in-eq (suc n) (element u us) (element t ts) q p l h =
      let (k1, k2) = and_then-true _ _ h in
      let same1 : t ≡ u = types_equal_in-eq n t u (p.0) (q.0) k1 in
      let same2 : ts ≡ us = elements_equal_in-eq n us ts (q.1) (p.1) (omega arith) k2 in cc

  members_equal_in-eq :
      (n : ℕ) (us ts : Members)
      → HasComparable us
      → HasComparable ts
      → member_count ts ≡ member_count us
      → members_equal_in n us ts ≡ value true
      → ts ≡ us
  members_equal_in-eq zero us ts q p l h = absurd (cc h)
  members_equal_in-eq (suc n) no_members no_members q p l h = refl
  members_equal_in-eq (suc n) no_members (member y t ts) q p l h = absurd (omega arith)
  members_equal_in-eq (suc n) (member x u us) no_members q p l h = absurd (omega arith)
  members_equal_in-eq (suc n) (member x u us) (member y t ts) q p l h =
      let (k1, k2) = and_then-true _ _ h in
      let (j1, j2) = and_then-true _ _ k1 in
      let same : y ≡ x = bytes_eq-eq y x (value-true _ j1) in
      let same1 : t ≡ u = types_equal_in-eq n t u (p.0) (q.0) j2 in
      let same2 : ts ≡ us = members_equal_in-eq n us ts (q.1) (p.1) (omega arith) k2 in cc

mutual
  unfolding types_equal_in elements_equal_in members_equal_in IsComparable AreComparable
      HasComparable size elements_size members_size get_type_id get_optional get_list get_dict
      get_decimal get_tuple get_struct get_variant get_tagged get_pg_type get_tuple_items
      get_struct_items if_set dereferenced and_then same_primitive

  types_equal_in_refl :
      (n : ℕ) (t : YdbType) → size t ≤ n → IsComparable t → types_equal_in n t t ≡ value true
  types_equal_in_refl zero t h p = absurd (let s = size-positive t in omega arith)
  types_equal_in_refl (suc n) (type_id x) h p =
      ap value (decided-holds (PrimitiveTypeId-discrete x x) refl)
  types_equal_in_refl (suc n) (optional t) h p = types_equal_in_refl n t (omega arith) p
  types_equal_in_refl (suc n) (list t) h p = types_equal_in_refl n t (omega arith) p
  types_equal_in_refl (suc n) (dict x y) h p =
      both (types_equal_in_refl n x (omega arith) (p.0))
        (types_equal_in_refl n y (omega arith) (p.1))
  types_equal_in_refl (suc n) (decimal x y) h p = ap value (rw (==-refl x, ==-refl y) refl)
  types_equal_in_refl (suc n) (tuple ts) h p =
      both (ap value (==-refl _)) (elements_equal_in_refl n ts (omega arith) p)
  types_equal_in_refl (suc n) (struct ts) h p =
      both (ap value (==-refl _)) (members_equal_in_refl n ts (omega arith) p)
  types_equal_in_refl (suc n) (variant_tuple ts) h p =
      both (ap value (==-refl _)) (elements_equal_in_refl n ts (omega arith) p)
  types_equal_in_refl (suc n) (variant_struct ts) h p =
      both (ap value (==-refl _)) (members_equal_in_refl n ts (omega arith) p)
  types_equal_in_refl (suc n) (tagged x t) h p =
      both (ap value (bytes_eq_refl x)) (types_equal_in_refl n t (omega arith) p)
  types_equal_in_refl (suc n) (pg_type x) h p = ap value (bytes_eq_refl x)
  types_equal_in_refl (suc n) void_type h p = absurd p
  types_equal_in_refl (suc n) null_type h p = absurd p
  types_equal_in_refl (suc n) empty_list h p = absurd p
  types_equal_in_refl (suc n) empty_dict h p = absurd p
  types_equal_in_refl (suc n) unset h p = absurd p

  elements_equal_in_refl :
      (n : ℕ) (ts : Elements)
      → elements_size ts ≤ n
      → AreComparable ts
      → elements_equal_in n ts ts ≡ value true
  elements_equal_in_refl zero (element t ts) h p = absurd (omega arith)
  elements_equal_in_refl zero no_elements h p = absurd (omega arith)
  elements_equal_in_refl (suc n) no_elements h p = refl
  elements_equal_in_refl (suc n) (element t ts) h p =
      let s = size-positive t in
      both (types_equal_in_refl n t (omega arith) (p.0))
        (elements_equal_in_refl n ts (omega arith) (p.1))

  members_equal_in_refl :
      (n : ℕ) (ts : Members)
      → members_size ts ≤ n
      → HasComparable ts
      → members_equal_in n ts ts ≡ value true
  members_equal_in_refl zero (member x t ts) h p = absurd (omega arith)
  members_equal_in_refl zero no_members h p = absurd (omega arith)
  members_equal_in_refl (suc n) no_members h p = refl
  members_equal_in_refl (suc n) (member x t ts) h p =
      let s = size-positive t in
      both (both (ap value (bytes_eq_refl x)) (types_equal_in_refl n t (omega arith) (p.0)))
        (members_equal_in_refl n ts (omega arith) (p.1))

-- TypesEqual answers true exactly for equal types, if neither type has a part without a payload or a
-- primitive type with the unspecified id.
pub types_equal-agrees :
    (t u : YdbType) → IsComparable t → IsComparable u → (types_equal t u ≡ value true) ↔ (t ≡ u)
unfolding types_equal
types_equal-agrees t u p q = (
  types_equal_in-eq (size t + size u) t u p q,
  λ e.
      subst (λ x. types_equal t x ≡ value true) e
        (types_equal_in_refl (size t + size t) t (omega arith) p),
)
