-- ===== src/Paging/Estimate.antt =====
-- size.go: the estimate by a pattern, which measures only what varies, against the sizes of all the
-- values of a row.
use fq_connector_go.Common.{
  ℕ, ◌+◌, ◌%◌, List, [], ◌∷◌, ◌++◌, append_assoc, Option, length, ◌≡◌, refl, subst, arith,
  length-append, get_elem?-append_length,
}
use fq_connector_go.Errors.{Result, ok, err, >>=-eq-ok}
use fq_connector_go.Paging.Size.{
  Acceptor, FixedType, PointerType, Behind, fixed, fixed_pointer, byte_slice, string,
  binary_pointer, binary_double_pointer, pg_text, string_map, unexpected, AcceptorKind, fixed_size,
  variable_size, size_of_value_bloated, SizePattern, acceptor_at, estimate_from, estimate,
  note_acceptor, pattern_from, new_size_pattern, add_u64, u64_mod,
}

-- The same case of the type switch.
pub data SameType : Acceptor → Acceptor → Type 0 where
  fixed_type : (t : FixedType) → SameType (fixed t) (fixed t)
  pointer_type : (t : PointerType) → SameType (fixed_pointer t) (fixed_pointer t)
  byte_slice_type : (m n : Behind ℕ) → SameType (byte_slice m) (byte_slice n)
  string_type : (m n : Behind ℕ) → SameType (string m) (string n)
  binary_type : (m n : Option ℕ) → SameType (binary_pointer m) (binary_pointer n)
  binary_double_type :
      (m n : Option (Option ℕ)) → SameType (binary_double_pointer m) (binary_double_pointer n)
  text_type : (m n : ℕ) → SameType (pg_text m) (pg_text n)
  map_type : (m n : Behind (List (ℕ × ℕ))) → SameType (string_map m) (string_map n)
  unexpected_type : SameType unexpected unexpected

-- Two rows that are scanned into the same types.
abbrev pub SameTypes : List Acceptor → List Acceptor → Type 0
SameTypes [] [] = Unit
SameTypes (a ∷ row) (b ∷ row') = SameType a b × SameTypes row row'
SameTypes _ _ = ⊥

pub size_in : Result (ℕ × AcceptorKind) → ℕ
size_in (ok (n, kind)) = n
size_in (err e) = 0

-- The size of a value, 0 for one of an unexpected type.
abbrev pub size_of_value : Acceptor → ℕ
size_of_value a = size_in (size_of_value_bloated a)

-- The sizes of all values of a row.
abbrev pub row_size : List Acceptor → ℕ
row_size [] = 0
row_size (a ∷ row) = size_of_value a + row_size row

same_fixed :
    {a b : Acceptor} (n : ℕ)
    → SameType a b
    → size_of_value_bloated a ≡ ok (n, fixed_size)
    → size_of_value b ≡ n
unfolding size_of_value_bloated size_in
same_fixed n (fixed_type t) h = cc
same_fixed n (pointer_type t) h = cc
same_fixed n (byte_slice_type m k) h = cc
same_fixed n (string_type m k) h = cc
same_fixed n (binary_type m k) h = cc
same_fixed n (binary_double_type m k) h = cc
same_fixed n (text_type m k) h = cc
same_fixed n (map_type m k) h = cc
same_fixed n unexpected_type h = cc

same_variable :
    {a b : Acceptor} (n : ℕ)
    → SameType a b
    → size_of_value_bloated a ≡ ok (n, variable_size)
    → size_of_value_bloated b ≡ ok (size_of_value b, variable_size)
unfolding size_of_value_bloated size_in
same_variable n (fixed_type t) h = cc
same_variable n (pointer_type t) h = cc
same_variable n (byte_slice_type m k) h = refl
same_variable n (string_type m k) h = refl
same_variable n (binary_type m k) h = refl
same_variable n (binary_double_type m k) h = refl
same_variable n (text_type m k) h = refl
same_variable n (map_type m k) h = refl
same_variable n unexpected_type h = cc

-- More bytes at the start are more bytes at the end.
estimate_from-add :
    (ixs : List ℕ) (row : List Acceptor) (total size t : ℕ)
    → estimate_from total ixs row ≡ ok t
    → estimate_from (add_u64 total size) ixs row ≡ ok (add_u64 t size)
unfolding estimate_from
estimate_from-add [] row total size t h = cc
estimate_from-add (ix ∷ ixs) row total size t h =
    let (a, at, h') = >>=-eq-ok (acceptor_at row ix) _ h in
    let (s, sized, h'') = >>=-eq-ok (size_of_value_bloated a) _ h' in
    let swap : add_u64 (add_u64 total size) s.0 ≡ add_u64 (add_u64 total s.0) size = omega arith in
    rw (at, sized, swap) (estimate_from-add ixs row (add_u64 total s.0) size t h'')

-- One more index at the end.
estimate_from-snoc :
    (ixs : List ℕ) (ix : ℕ) (row : List Acceptor) (a : Acceptor) (total t n : ℕ)
    → estimate_from total ixs row ≡ ok t
    → acceptor_at row ix ≡ ok a
    → size_of_value_bloated a ≡ ok (n, variable_size)
    → estimate_from total (ixs ++ ix ∷ []) row ≡ ok (add_u64 t n)
unfolding estimate_from
estimate_from-snoc [] ix row a total t n h at sized =
    let k : total ≡ t = cc h in rw (at, sized, k) refl
estimate_from-snoc (jx ∷ ixs) ix row a total t n h at sized =
    let (b, bat, h') = >>=-eq-ok (acceptor_at row jx) _ h in
    let (s, bsized, h'') = >>=-eq-ok (size_of_value_bloated b) _ h' in
    rw (bat, bsized) (estimate_from-snoc ixs ix row a (add_u64 total s.0) t n h'' at sized)

acceptor_at-append :
    (before : List Acceptor) (a : Acceptor) (after : List Acceptor)
    → acceptor_at (before ++ a ∷ after) (length before) ≡ ok a
unfolding acceptor_at
acceptor_at-append before a after = rw (get_elem?-append_length before a after, acceptor_at)

-- One round of newSizePattern, for a row of the same types.
noted :
    (i n : ℕ) (kind : AcceptorKind) (sp : SizePattern) {a b : Acceptor} (row : List Acceptor)
    (t : ℕ)
    → SameType a b
    → size_of_value_bloated a ≡ ok (n, kind)
    → acceptor_at row i ≡ ok b
    → estimate sp row ≡ ok t
    → estimate (note_acceptor i (n, kind) sp) row ≡ ok (add_u64 t (size_of_value b))
unfolding note_acceptor estimate
noted i n fixed_size sp row t same h at e =
    rw (same_fixed n same h) (estimate_from-add sp.varying_size_ix row sp.fixed_size_total n t e)
noted i n variable_size sp {b = b} row t same h at e =
    estimate_from-snoc sp.varying_size_ix i row b sp.fixed_size_total t (size_of_value b) e at
      (same_variable n same h)

pattern_from-estimate :
    (first before row : List Acceptor) (sp sp' : SizePattern) (t : ℕ)
    → SameTypes first row
    → pattern_from (length before) sp first ≡ ok sp'
    → estimate sp (before ++ row) ≡ ok (t % u64_mod)
    → estimate sp' (before ++ row) ≡ ok ((t + row_size row) % u64_mod)
unfolding pattern_from
pattern_from-estimate [] before [] sp sp' t same h e =
    let k : sp' ≡ sp = cc h in let z : t + 0 ≡ t = omega arith in rw (k, z) e
pattern_from-estimate [] before (b ∷ row) sp sp' t same h e = elim same [ ]
pattern_from-estimate (a ∷ first) before [] sp sp' t same h e = elim same [ ]
pattern_from-estimate (a ∷ first) before (b ∷ row) sp sp' t (s, same) h e =
    let ((n, kind), sized, h') = >>=-eq-ok (size_of_value_bloated a) _ h in
    let one : estimate (note_acceptor (length before) (n, kind) sp) (before ++ b ∷ row)
        ≡ ok (add_u64 (t % u64_mod) (size_of_value b)) =
      noted (length before) n kind sp (before ++ b ∷ row) (t % u64_mod) s sized
        (acceptor_at-append before b row) e in
    let assoc : (before ++ b ∷ []) ++ row ≡ before ++ b ∷ row = append_assoc before (b ∷ []) row in
    let longer : length (before ++ b ∷ []) ≡ length before + 1 = length-append before (b ∷ []) in
    let sum : add_u64 (t % u64_mod) (size_of_value b) ≡ (t + size_of_value b) % u64_mod =
      omega arith in
    let later =
      pattern_from-estimate first (before ++ b ∷ []) row
        (note_acceptor (length before) (n, kind) sp) sp' (t + size_of_value b) same (rw longer h')
        (rw (assoc, ← sum) one) in
    let total : (t + size_of_value b) + row_size row ≡ t + (size_of_value b + row_size row) =
      omega arith in
    subst (λ r. estimate sp' r ≡ ok ((t + row_size (b ∷ row)) % u64_mod)) assoc (rw (← total) later)

-- If newSizePattern makes a pattern from a row, the estimate by it of any row of the same types
-- succeeds. It is the sum modulo 2^64 of the sizes of all the values of that row.
pub new_size_pattern-estimate :
    (first row : List Acceptor) (sp : SizePattern)
    → SameTypes first row
    → new_size_pattern first ≡ ok sp
    → estimate sp row ≡ ok (row_size row % u64_mod)
unfolding new_size_pattern
new_size_pattern-estimate first row sp same h =
    let z : 0 + row_size row ≡ row_size row = omega arith in
    let start : estimate (record { varying_size_ix = []; fixed_size_total = 0 }) row ≡ ok 0 =
      unfold estimate in (unfold estimate_from in refl) in
    subst (λ n. estimate sp row ≡ ok (n % u64_mod)) z
      (pattern_from-estimate first [] row (record { varying_size_ix = []; fixed_size_total = 0 }) sp
        0 same h start)
