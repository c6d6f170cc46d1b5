-- ===== src/Files/Doubles.antt =====
-- `ceil((double) m_file_size / (double) Config::CHUNK_SIZE)` in `FileManager::initFileInfo` of
-- src/utils/FileManager.cpp: the conversion and the division round to 53 bits, to the nearest value
-- and to an even one between two.
use secure_cloud_storage.Common.{
  ℕ, zero, suc, ◌+◌, ◌-◌, ◌*◌, ◌/◌, ◌%◌, ◌^◌, ◌≤◌, ◌<◌, ◌≡◌, refl, ◌∙◌, true, arith, ltb,
  if◌then◌else◌,
}
use native.Mathlib.Nat.{div-eq_of_lt-le, mul-le-mul_right}
use secure_cloud_storage.Config.{chunk_size}

-- The quotient, rounded to the nearest natural number, and to the even one between two.
unfoldable pub rounded : ℕ → ℕ → ℕ
rounded a b =
    let q = a / b in
    let r = a % b in if ltb (2 * r) b then q else if ltb b (2 * r) then q + 1 else q + q % 2

-- The unit in the last of the 53 places of a number below 2^(53 + fuel).
unfoldable pub unit_of : ℕ → ℕ → ℕ
unit_of zero n = 1
unit_of (suc fuel) n = let rest = unit_of fuel (n / 2) in if ltb n (2 ^ 53) then 1 else 2 * rest

-- `(double) n` for a `streamsize`, which is below 2^63.
unfoldable pub to_double : ℕ → ℕ
unfolding unit_of rounded
to_double n = rounded n (unit_of 11 n) * unit_of 11 n

-- The power of two that lifts a quotient to 53 places before the point: `bound` is 2^52 times the
-- divisor.
unfoldable pub lift_of : ℕ → ℕ → ℕ → ℕ
lift_of zero a bound = 1
lift_of (suc fuel) a bound =
    let rest = lift_of fuel (2 * a) bound in if ltb a bound then 2 * rest else 1

-- The quotient by the chunk size as `double`, for a number below 2^63, rounded up. No more than 72
-- doublings take a positive number to 2^52 times the chunk size.
unfoldable pub ceil_of_chunks : ℕ → ℕ
unfolding lift_of rounded
ceil_of_chunks a =
    let lift = lift_of 80 a (2 ^ 52 * chunk_size) in
    (rounded (a * lift) chunk_size + lift - 1) / lift

-- The number of chunks of a file.
unfoldable pub chunks_of : ℕ → ℕ
unfolding to_double ceil_of_chunks
chunks_of size = ceil_of_chunks (to_double size)

unit_of-small : (fuel n : ℕ) → n < 2 ^ 53 → unit_of (suc fuel) n ≡ 1
unfolding unit_of
unit_of-small fuel n small =
    let now : ltb n (2 ^ 53) ≡ true = ground arith in rw (now, unit_of) refl

rounded-one : (n : ℕ) → rounded n 1 ≡ n
unfolding rounded
rounded-one n = ground arith

to_double-small : (n : ℕ) → n < 2 ^ 53 → to_double n ≡ n
unfolding to_double
to_double-small n small = rw (unit_of-small 10 n small) (omega (arith, rounded-one n))

abbrev doubled : ℕ → ℕ → ℕ
doubled zero a = a
doubled (suc d) a = doubled d (2 * a)

abbrev power : ℕ → ℕ
power zero = 1
power (suc d) = 2 * power d

doubled-le : (d a : ℕ) → a ≤ doubled d a
doubled-le zero a = omega arith
doubled-le (suc d) a = omega (arith, doubled-le d (2 * a))

lift_of-le :
    (d fuel a bound : ℕ) → doubled d a < bound → d < fuel → power (suc d) ≤ lift_of fuel a bound
unfolding lift_of
lift_of-le d zero a bound small enough = absurd (omega arith)
lift_of-le zero (suc fuel) a bound small enough =
    let positive = lift_of-positive fuel (2 * a) bound in ground arith
  where
    lift_of-positive : (fuel a bound : ℕ) → 1 ≤ lift_of fuel a bound
    lift_of-positive zero a bound = omega arith
    lift_of-positive (suc fuel) a bound =
        let rest = lift_of-positive fuel (2 * a) bound in ground arith
lift_of-le (suc d) (suc fuel) a bound small enough =
    let rest = lift_of-le d fuel (2 * a) bound small (omega arith) in
    let below = doubled-le d (2 * a) in ground arith

-- A number that is by more than half a unit above `v` and not above `u` is rounded in between.
rounded-between :
    (x u v : ℕ)
    → x ≤ chunk_size * u
    → chunk_size * v + 500000 < x
    → (rounded x chunk_size ≤ u) × (v + 1 ≤ rounded x chunk_size)
unfolding rounded
rounded-between x u v most least = (ground arith, ground arith)

-- With a lift of at least 2^19 the quotient rounds up to the number of chunks.
ceil_lifted :
    (a c lift : ℕ)
    → power 19 ≤ lift
    → chunk_size * c < a
    → a ≤ chunk_size * (c + 1)
    → (rounded (a * lift) chunk_size + lift - 1) / lift ≡ c + 1
ceil_lifted a c lift high above most =
    let up : a * lift ≤ chunk_size * (c + 1) * lift = mul-le-mul_right lift most in
    let upper : a * lift ≤ chunk_size * ((c + 1) * lift) = grind arith in
    let low : (chunk_size * c + 1) * lift ≤ a * lift = mul-le-mul_right lift (omega arith) in
    let lower : chunk_size * (c * lift) + lift ≤ a * lift = grind arith in
    let sum : (c + 1) * lift ≡ c * lift + lift = grind arith in
    let (below, over) =
      rounded-between (a * lift) ((c + 1) * lift) (c * lift) upper (omega arith) in
    let next : (c + 1 + 1) * lift ≡ (c + 1) * lift + lift = grind arith in
    div-eq_of_lt-le lift (omega arith) (omega arith)

-- For a size below 2^53 the count that is computed in double precision is exact: it is the size over
-- the chunk size, rounded up.
pub chunks_of_lem : (size : ℕ) → size < 2 ^ 53 → chunks_of size ≡ (size + 999999) / chunk_size
unfolding chunks_of ceil_of_chunks
chunks_of_lem zero small = refl
chunks_of_lem (suc n) small =
    let high = lift_of-le 18 80 (suc n) (2 ^ 52 * chunk_size) (omega arith) (omega arith) in
    rw (to_double-small (suc n) small) (
      ceil_lifted (suc n) (n / chunk_size) (lift_of 80 (suc n) (2 ^ 52 * chunk_size)) high
        (omega arith) (omega arith)
      ∙ omega arith)
