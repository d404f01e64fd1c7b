-- ===== src/Kafka/Backoff.antt =====
-- The waits between retries: `backoffFor` of internal/kafka/consumer.go.
use theme_park_nftengine.Prelude.{ℕ, zero, suc, ◌*◌, ◌^◌, ◌≤◌, ◌<◌, ◌≡◌, sym, ◌∙◌, ◌%◌, arith}
use theme_park_nftengine.Kafka.Consumer.{Consumer, doubled, backoff_for}

doubled_le : (d n : ℕ) → d ≤ d * 2 ^ n
doubled_le d zero = omega arith
doubled_le d (suc n) = grind (arith, doubled_le d n)

pow_step : (d n : ℕ) → d * 2 ^ suc n ≡ d * 2 * 2 ^ n
pow_step d n = grind arith

in_range : (d : ℕ) → d < 2 ^ 63 → d % 2 ^ 64 ≡ d
in_range d h = omega (arith, h)

doubled_lem : (d n : ℕ) → d * 2 ^ n < 2 ^ 63 → doubled d n ≡ d * 2 ^ n
unfolding doubled
doubled_lem d zero h = omega arith
doubled_lem d (suc n) h =
    let e = pow_step d n in
    let fits = doubled_le (d * 2) n in
    rw (in_range (d * 2) (omega (arith, e, fits, h)))
      (doubled_lem (d * 2) n (omega (arith, e, h)) ∙ sym e)

-- The wait before a retry is the base, doubled once for each attempt before it, as long as that fits in
-- the nanoseconds of an int64.
pub backoff_for_lem :
    (c : Consumer) (n : ℕ)
    → c.backoff_ms * 1000000 * 2 ^ n < 2 ^ 63
    → backoff_for c n ≡ c.backoff_ms * 1000000 * 2 ^ n
unfolding backoff_for
backoff_for_lem c n h = doubled_lem (c.backoff_ms * 1000000) n h
