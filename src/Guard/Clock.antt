-- ===== src/Guard/Clock.antt =====
-- guard/clock.go: readings of the monotonic clock, and the arithmetic of durations. A struct of
-- one field is that field, and a duration is Go's int64 of nanoseconds, wrap-around included.
use gronin.Prelude.{ℕ, ◌+◌, ◌^◌, ◌≤◌, ◌<◌, ◌≡◌, Bool, arith}
use gronin.Prelude.Int.{ℤ, pos_part, neg_part, ◌+ℤ◌, ◌-ℤ◌, ltb_ℤ, int64, int64-id}

abbrev pub Duration : Type 0
Duration = ℤ

abbrev pub Instant : Type 0
Instant = ℤ

abbrev pub second : ℕ
second = 1_000_000_000

-- `Instant.Add`, and `+` of two durations.
unfoldable pub add : ℤ → ℤ → ℤ
add i d = int64 (i +ℤ d)

-- `Instant.Sub`, and `-` of two durations.
unfoldable pub sub : ℤ → ℤ → ℤ
sub i j = int64 (i -ℤ j)

-- `Instant.Before`.
unfoldable pub before : Instant → Instant → Bool
before i j = ltb_ℤ i j

-- A value at most 2^62 ns, some 146 years, from zero: sums of two of these do not wrap.
abbrev pub IsNear : ℤ → Type 0
IsNear z = (pos_part z ≤ 2 ^ 62) × (neg_part z ≤ 2 ^ 62)

pub add-exact :
    (i d : ℤ)
    → pos_part i + pos_part d < 2 ^ 63
    → neg_part i + neg_part d < 2 ^ 63
    → add i d ≡ i +ℤ d
unfolding add ◌+ℤ◌
add-exact i d h k = int64-id (i +ℤ d) (ground arith) (ground arith)

pub sub-exact :
    (i j : ℤ)
    → pos_part i + neg_part j < 2 ^ 63
    → neg_part i + pos_part j < 2 ^ 63
    → sub i j ≡ i -ℤ j
unfolding sub ◌-ℤ◌
sub-exact i j h k = int64-id (i -ℤ j) (ground arith) (ground arith)
