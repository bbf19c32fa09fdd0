-- ===== src/Paging/Size.antt =====
-- app/server/paging/size.go: the estimated size of a row. An acceptor is the Go value that a column
-- is scanned into; its constructors are the cases of the type switch of `sizeOfValueBloated`, with
-- the lengths that the switch reads. Pointers to values of a fixed size are not followed by it.
use fq_connector_go.Common.{ℕ, ◌+◌, ◌%◌, ◌^◌, List, [], ◌∷◌, ◌++◌, Option, none, some, get_elem?}
use fq_connector_go.Errors.{wraps, opaque, data_type_not_supported, Result, ok, err, ◌>>=◌}

abbrev pub u64_mod : ℕ
u64_mod = 2 ^ 64

-- Addition in uint64.
abbrev pub add_u64 : ℕ → ℕ → ℕ
add_u64 a b = (a + b) % u64_mod

-- Types of a fixed size that are accepted as a value, a pointer or a pointer to a pointer.
pub data FixedType : Type 0 where
  bool int8 uint8 int16 uint16 int32 uint32 float32 int64 uint64 float64 : FixedType
  time object_id : FixedType

-- Types of a fixed size that are accepted as a pointer (pgtype), and `**uuid.UUID`.
pub data PointerType : Type 0 where
  pg_bool pg_int2 pg_int4 pg_int8 pg_float4 pg_float8 pg_date pg_timestamp uuid : PointerType

-- A value of a variable length, behind no pointer, one or two.
pub data Behind (A : Type 0) : Type 0 where
  direct : A → Behind A
  pointer : Option A → Behind A
  double_pointer : Option (Option A) → Behind A

pub data Acceptor : Type 0 where
  fixed : FixedType → Acceptor
  fixed_pointer : PointerType → Acceptor
  byte_slice string : Behind ℕ → Acceptor
  binary_pointer : Option ℕ → Acceptor
  binary_double_pointer : Option (Option ℕ) → Acceptor
  pg_text : ℕ → Acceptor
  string_map : Behind (List (ℕ × ℕ)) → Acceptor
  unexpected : Acceptor

-- acceptorKind; its zero value `unknownSize` only comes with an error.
pub data AcceptorKind : Type 0 where
  fixed_size variable_size : AcceptorKind

unfoldable pub fixed_size_of : FixedType → ℕ
fixed_size_of FixedType.bool = 1
fixed_size_of FixedType.int8 = 1
fixed_size_of FixedType.uint8 = 1
fixed_size_of FixedType.int16 = 2
fixed_size_of FixedType.uint16 = 2
fixed_size_of FixedType.int32 = 4
fixed_size_of FixedType.uint32 = 4
fixed_size_of FixedType.float32 = 4
fixed_size_of FixedType.int64 = 8
fixed_size_of FixedType.uint64 = 8
fixed_size_of FixedType.float64 = 8
fixed_size_of FixedType.time = 16
fixed_size_of FixedType.object_id = 12

unfoldable pub pointer_size_of : PointerType → ℕ
pointer_size_of pg_bool = 1
pointer_size_of pg_int2 = 2
pointer_size_of pg_int4 = 4
pointer_size_of pg_int8 = 8
pointer_size_of pg_float4 = 4
pointer_size_of pg_float8 = 8
pointer_size_of pg_date = 16
pointer_size_of pg_timestamp = 16
pointer_size_of uuid = 16

-- A nil pointer counts as nothing.
unfoldable pub size_behind : {A : Type 0} → (A → ℕ) → Behind A → ℕ
size_behind f (direct a) = f a
size_behind f (pointer none) = 0
size_behind f (pointer (some a)) = f a
size_behind f (double_pointer none) = 0
size_behind f (double_pointer (some none)) = 0
size_behind f (double_pointer (some (some a))) = f a

-- The loop over a map: the lengths of the keys and of the values.
unfoldable pub map_size : ℕ → List (ℕ × ℕ) → ℕ
map_size size [] = size
map_size size ((k, v) ∷ entries) = map_size (add_u64 size (k + v)) entries

-- sizeOfValueBloated
unfoldable pub size_of_value_bloated : Acceptor → Result (ℕ × AcceptorKind)
unfolding fixed_size_of pointer_size_of size_behind map_size
size_of_value_bloated (fixed t) = ok (fixed_size_of t, fixed_size)
size_of_value_bloated (fixed_pointer t) = ok (pointer_size_of t, fixed_size)
size_of_value_bloated (byte_slice b) = ok (size_behind (λ n. n) b, variable_size)
size_of_value_bloated (string b) = ok (size_behind (λ n. n) b, variable_size)
size_of_value_bloated (binary_pointer p) = ok (size_behind (λ n. n) (pointer p), variable_size)
size_of_value_bloated (binary_double_pointer p) =
    ok (size_behind (λ n. n) (double_pointer p), variable_size)
size_of_value_bloated (pg_text n) = ok (n, variable_size)
size_of_value_bloated (string_map b) = ok (size_behind (map_size 0) b, variable_size)
size_of_value_bloated unexpected = err (wraps data_type_not_supported)

pub record SizePattern : Type 0 where
  pub varying_size_ix : List ℕ
  pub fixed_size_total : ℕ

-- Indexing with the index of an acceptor; a row that is too short is a panic in the source, and an
-- error here.
unfoldable pub acceptor_at : List Acceptor → ℕ → Result Acceptor
acceptor_at row ix = elim (get_elem? row ix) [ none ↦ err opaque | some a ↦ ok a ]

unfoldable pub estimate_from : ℕ → List ℕ → List Acceptor → Result ℕ
unfolding acceptor_at size_of_value_bloated
estimate_from total [] row = ok total
estimate_from total (ix ∷ ixs) row = do
  a ← acceptor_at row ix
  size ← size_of_value_bloated a
  estimate_from (add_u64 total size.0) ixs row

-- sizePattern.estimate
unfoldable pub estimate : SizePattern → List Acceptor → Result ℕ
unfolding estimate_from
estimate sp row = estimate_from sp.fixed_size_total sp.varying_size_ix row

-- The switch of newSizePattern on the kind of an acceptor.
unfoldable pub note_acceptor : ℕ → ℕ × AcceptorKind → SizePattern → SizePattern
note_acceptor i (size, fixed_size) sp = record sp {
  fixed_size_total = add_u64 sp.fixed_size_total size;
}
note_acceptor i (size, variable_size) sp = record sp {
  varying_size_ix = sp.varying_size_ix ++ i ∷ [];
}

unfoldable pub pattern_from : ℕ → SizePattern → List Acceptor → Result SizePattern
unfolding note_acceptor size_of_value_bloated
pattern_from i sp [] = ok sp
pattern_from i sp (a ∷ row) = do
  size ← size_of_value_bloated a
  pattern_from (i + 1) (note_acceptor i size sp) row

-- newSizePattern
unfoldable pub new_size_pattern : List Acceptor → Result SizePattern
unfolding pattern_from
new_size_pattern row = pattern_from 0 (record { varying_size_ix = []; fixed_size_total = 0 }) row
