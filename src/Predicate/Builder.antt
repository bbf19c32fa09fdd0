-- ===== src/Predicate/Builder.antt =====
-- predicate_builder.go, the state of `predicateBuilder` and the formatting of constant values.
-- A method is an action on the state, `Build`. What a method appended to the arguments before it
-- failed stays appended, so the state comes back beside an error too.
use fq_connector_go.Common.{
  ◌-◌, Bool, true, false, Bytes, codes, List, Option, none, some, if◌then◌else◌,
}
use fq_connector_go.Errors.{Error, wraps, unimplemented_typed_value, Result, ok, err}
use fq_connector_go.Ydb.{
  PrimitiveTypeId, YdbType, type_id, optional, Value, bool_value, int32_value, int64_value,
  uint32_value, uint64_value, float_value, double_value, bytes_value, text_value, null_flag_value,
  other_value, TypedValue, ℤ,
}
use fq_connector_go.Predicate.Formatter.{
  Scalar, unix_micro, GoType, go_bool, go_int8, go_uint8, go_int16, go_uint16, go_int32, go_uint32,
  go_int64, go_uint64, go_bytes, go_string, Any, plain, pointer, nil_pointer, QueryArgs, add_typed,
  count, SqlFormatter,
}

-- The fields of `predicateBuilder` that change.
pub record Builder : Type 0 where
  pub args : QueryArgs
  pub conjunction_errors : List Error

abbrev pub Build : Type 0 → Type 0
Build A = Builder → Result A × Builder

abbrev pub return : {A : Type 0} → A → Build A
return a st = (ok a, st)

abbrev pub raise : {A : Type 0} → Error → Build A
raise e st = (err e, st)

abbrev pub continue : {A B : Type 0} → Result A → (A → Build B) → Build B
continue (ok a) f st = f a st
continue (err e) f st = (err e, st)

infixl 5 ◌>>=◌
abbrev pub ◌>>=◌ : {A B : Type 0} → Build A → (A → Build B) → Build B
◌>>=◌ m f st = let r = m st in continue r.0 f r.1

-- The inner switch of formatNullFlagValue: the type of the nil pointer for each primitive type.
unfoldable pub null_pointer_type : PrimitiveTypeId → Option GoType
null_pointer_type PrimitiveTypeId.bool = some go_bool
null_pointer_type PrimitiveTypeId.int8 = some go_int8
null_pointer_type PrimitiveTypeId.uint8 = some go_uint8
null_pointer_type PrimitiveTypeId.int16 = some go_int16
null_pointer_type PrimitiveTypeId.uint16 = some go_uint16
null_pointer_type PrimitiveTypeId.int32 = some go_int32
null_pointer_type PrimitiveTypeId.uint32 = some go_uint32
null_pointer_type PrimitiveTypeId.int64 = some go_int64
null_pointer_type PrimitiveTypeId.uint64 = some go_uint64
null_pointer_type PrimitiveTypeId.string = some go_bytes
null_pointer_type PrimitiveTypeId.utf8 = some go_string
null_pointer_type _ = none

-- The Go value of an int64 constant, by the type that it is declared with.
unfoldable pub int64_scalar : YdbType → ℤ → Option Scalar
int64_scalar (type_id PrimitiveTypeId.int64) v = some (Scalar.int64 v)
int64_scalar (type_id PrimitiveTypeId.timestamp) v = some (unix_micro v)
int64_scalar _ v = none

abbrev pub unimplemented : {A : Type 0} → Build A
unimplemented = raise (wraps unimplemented_typed_value)

module _ {Split : Type 0} (formatter : SqlFormatter Split) where
  -- `pb.args.AddTyped(t, v)`, then the placeholder of the argument that was added.
  unfoldable pub bind_value : YdbType → Any → Build Bytes
  unfolding add_typed
  bind_value t v st =
      let args = add_typed t v st.args in
      (ok (formatter.get_placeholder (count args - 1)), record st { args = args })

  unfoldable pub bind_scalar : YdbType → Option Scalar → Build Bytes
  unfolding bind_value
  bind_scalar t none = unimplemented
  bind_scalar t (some s) = bind_value t (plain s)

  -- addTypedNull
  unfoldable pub add_typed_null : YdbType → Option GoType → Build Bytes
  unfolding bind_value
  add_typed_null t none = unimplemented
  add_typed_null t (some g) = bind_value t (nil_pointer g)

  -- predicateBuilder.formatNullFlagValue
  unfoldable pub format_null_flag_value : YdbType → Build Bytes
  unfolding add_typed_null null_pointer_type
  format_null_flag_value (optional (type_id p)) =
      add_typed_null (optional (type_id p)) (null_pointer_type p)
  format_null_flag_value _ = unimplemented

  -- predicateBuilder.formatPrimitiveValue
  unfoldable pub format_primitive_value : YdbType → Value → Bool → Build Bytes
  unfolding bind_value bind_scalar format_null_flag_value int64_scalar
  format_primitive_value t (bool_value b) true = return (if b then codes "true" else codes "false")
  format_primitive_value t (bool_value b) false = bind_value t (plain (Scalar.bool b))
  format_primitive_value t (int32_value v) embed_bool = bind_value t (plain (Scalar.int32 v))
  format_primitive_value t (uint32_value v) embed_bool = bind_value t (plain (Scalar.uint32 v))
  format_primitive_value t (int64_value v) embed_bool = bind_scalar t (int64_scalar t v)
  format_primitive_value t (uint64_value v) embed_bool = bind_value t (plain (Scalar.uint64 v))
  format_primitive_value t (float_value v) embed_bool = bind_value t (plain (Scalar.float v))
  format_primitive_value t (double_value v) embed_bool = bind_value t (plain (Scalar.double v))
  format_primitive_value t (bytes_value v) embed_bool = bind_value t (plain (Scalar.bytes v))
  format_primitive_value t (text_value v) embed_bool = bind_value t (plain (Scalar.text v))
  format_primitive_value t null_flag_value embed_bool = format_null_flag_value t
  format_primitive_value t other_value embed_bool = unimplemented

  -- predicateBuilder.formatOptionalValue
  unfoldable pub format_optional_value : YdbType → Value → Build Bytes
  unfolding bind_value format_null_flag_value
  format_optional_value t (bool_value b) = bind_value t (pointer (Scalar.bool b))
  format_optional_value t (int32_value v) = bind_value t (pointer (Scalar.int32 v))
  format_optional_value t (uint32_value v) = bind_value t (pointer (Scalar.uint32 v))
  format_optional_value t (int64_value v) = bind_value t (pointer (Scalar.int64 v))
  format_optional_value t (uint64_value v) = bind_value t (pointer (Scalar.uint64 v))
  format_optional_value t (float_value v) = bind_value t (pointer (Scalar.float v))
  format_optional_value t (double_value v) = bind_value t (pointer (Scalar.double v))
  format_optional_value t (bytes_value v) = bind_value t (pointer (Scalar.bytes v))
  format_optional_value t (text_value v) = bind_value t (pointer (Scalar.text v))
  format_optional_value t null_flag_value = format_null_flag_value t
  format_optional_value t other_value = unimplemented

  unfoldable pub format_value_as : YdbType → Value → Bool → Build Bytes
  unfolding format_primitive_value format_optional_value
  format_value_as (optional t) v embed_bool = format_optional_value (optional t) v
  format_value_as t v embed_bool = format_primitive_value t v embed_bool

  -- predicateBuilder.formatValue
  unfoldable pub format_value : TypedValue → Bool → Build Bytes
  unfolding format_value_as
  format_value v embed_bool = format_value_as v.ydb_type v.value embed_bool
