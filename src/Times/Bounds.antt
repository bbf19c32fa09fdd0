-- ===== src/Times/Bounds.antt =====
-- time.go: no conversion wraps around.
use fq_connector_go.Common.{
  ℕ, ◌*◌, ◌/◌, ◌%◌, ◌≤◌, ◌<◌, Bool-cases, ltb, ◌≡◌, ◌⊎◌, inl, inr, refl, ap, arith,
}
use fq_connector_go.Errors.{wraps, value_out_of_type_bounds, Result, ok, err}
use fq_connector_go.Ydb.{ℤ, pos, negsuc}
use fq_connector_go.Times.{
  max_ydb_time, in_bounds, time_to_ydb_date, time_to_ydb_datetime, time_to_ydb_timestamp,
}

-- A quotient of doubles: it does not decrease, and is exact for whole days.
pub record CountsDays (days_of : ℕ → ℕ) : Type 0 where
  pub monotone : (m n : ℕ) → m ≤ n → days_of m ≤ days_of n
  pub whole_days : (d : ℕ) → d ≤ 65535 → days_of (d * 86400000000000) ≡ d

-- The three conversions of a point in time.
abbrev pub Converted : (ℕ → ℕ) → ℤ → Result ℕ → Result ℕ → Result ℕ → Type 0
Converted days_of t date datetime timestamp =
    (time_to_ydb_date days_of t ≡ date)
    × (time_to_ydb_datetime t ≡ datetime)
    × (time_to_ydb_timestamp t ≡ timestamp)

-- A point in time before 1970 or past the start of 2106.
abbrev pub IsOutside : ℤ → Type 0
IsOutside t = ((n : ℕ) × (t ≡ negsuc n)) ⊎ ((n : ℕ) × (t ≡ pos n) × (max_ydb_time < n))

-- A point in time either is one from 1970 to the start of 2106 and is converted to its seconds and
-- microseconds, and to its days, of which there are at most 49673, without a wrap-around, or is before
-- 1970 or past the start of 2106, and all three conversions fail because the value is out of bounds.
-- The quotient that gives the days is taken not to decrease and to be exact for whole days.
pub time_to_ydb-bounds :
    (days_of : ℕ → ℕ) (t : ℤ)
    → CountsDays days_of
    → ((n : ℕ) × (t ≡ pos n)
        × (n ≤ max_ydb_time)
        × (days_of n ≤ 49673)
        × Converted days_of t (ok (days_of n)) (ok (n / 1000000000)) (ok (n / 1000)))
      ⊎ (IsOutside t
          × Converted days_of t
              (err (wraps value_out_of_type_bounds))
              (err (wraps value_out_of_type_bounds))
              (err (wraps value_out_of_type_bounds)))
unfolding time_to_ydb_date time_to_ydb_datetime time_to_ydb_timestamp in_bounds
time_to_ydb-bounds days_of (negsuc n) h = inr (inl (n, refl), (refl, refl, refl))
time_to_ydb-bounds days_of (pos n) h = elim (Bool-cases (ltb max_ydb_time n)) [
  | inl e ↦
      let past : max_ydb_time < n = ground arith in
      inr (inr (n, refl, past), (rw e refl, rw e refl, rw e refl))
  | inr e ↦
      let within : n ≤ max_ydb_time = ground arith in
      let below = h.monotone n max_ydb_time within in
      let most : days_of max_ydb_time ≡ 49673 = h.whole_days 49673 (omega arith) in
      let few : days_of n ≤ 49673 = omega arith in
      let date : days_of n % 65536 ≡ days_of n = omega arith in
      let seconds : n / 1000000000 % 4294967296 ≡ n / 1000000000 = omega arith in
      let micros : n / 1000 % 18446744073709551616 ≡ n / 1000 = omega arith in
      inl (
        n,
        refl,
        within,
        few,
        (rw e (ap (λ x. ok x) date), rw e (ap (λ x. ok x) seconds), rw e (ap (λ x. ok x) micros)),
      )
]
