-- ===== src/Ydb.antt =====
-- The YDB types and values of the requests, as common/ydb_type_helpers.go and the datasources read
-- them. The protobuf definitions are a third-party package: the constructors are the `oneof` cases
-- that the source names. A message pointer inside a message is taken to be set; a missing payload
-- of a `oneof` is `unset`.
pub mod Equality
use fq_connector_go.Common.{ℕ, Bool, Bytes}

-- Ydb.Type_PrimitiveTypeId, with the ids that the source names; `other n` is any other id.
pub data PrimitiveTypeId : Type 0 where
  bool int8 uint8 int16 uint16 int32 uint32 int64 uint64 float double : PrimitiveTypeId
  date datetime timestamp string utf8 json : PrimitiveTypeId
  other : ℕ → PrimitiveTypeId

-- Signed integers: `negsuc n` is -(n + 1).
pub data ℤ : Type 0 where
  pos : ℕ → ℤ
  negsuc : ℕ → ℤ

mutual
  -- The `oneof` of Ydb.Type.
  pub data YdbType : Type 0 where
    type_id : PrimitiveTypeId → YdbType
    decimal : ℕ → ℕ → YdbType
    optional : YdbType → YdbType
    list : YdbType → YdbType
    tuple : Elements → YdbType
    struct : Members → YdbType
    dict : YdbType → YdbType → YdbType
    variant_tuple : Elements → YdbType
    variant_struct : Members → YdbType
    tagged : Bytes → YdbType → YdbType
    void_type null_type empty_list empty_dict : YdbType
    pg_type : Bytes → YdbType
    unset : YdbType

  pub data Elements : Type 0 where
    no_elements : Elements
    element : YdbType → Elements → Elements

  pub data Members : Type 0 where
    no_members : Members
    member : Bytes → YdbType → Members → Members

-- The `oneof` of Ydb.Value. Floating-point numbers are their bit patterns.
pub data Value : Type 0 where
  bool_value : Bool → Value
  int32_value int64_value : ℤ → Value
  uint32_value uint64_value float_value double_value : ℕ → Value
  bytes_value text_value : Bytes → Value
  null_flag_value : Value
  other_value : Value

pub record TypedValue : Type 0 where
  pub ydb_type : YdbType
  pub value : Value
