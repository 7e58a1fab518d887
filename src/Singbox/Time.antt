-- ===== src/Singbox/Time.antt =====
-- time.Time and time.Duration of Go's standard library, as core/singboxcore uses them.
-- An instant is the number of nanoseconds since Go's zero time, which is 0. A Duration is a signed
-- number of nanoseconds.
use proxy_hub.Prelude.{ℕ, ◌+◌, ◌*◌, ◌/◌, Bool, ltb, ◌==◌}
use proxy_hub.Prelude.Int.{ℤ, pos, pos_part}

abbrev pub Time : Type 0
Time = ℕ

abbrev pub Duration : Type 0
Duration = ℤ

abbrev pub zero_time : Time
zero_time = 0

-- t.IsZero().
abbrev pub is_zero : Time → Bool
is_zero t = t == 0

-- t.After(u) and t.Before(u).
abbrev pub is_after : Time → Time → Bool
is_after t u = ltb u t

abbrev pub is_before : Time → Time → Bool
is_before t u = ltb t u

-- t.Add(d), for a duration that is positive wherever the code calls it.
abbrev pub add_time : Time → Duration → Time
add_time t d = t + pos_part d

abbrev pub second : ℕ
second = 1_000_000_000

abbrev pub seconds : ℕ → Duration
seconds n = pos (n * second)

-- d.Milliseconds(), for a duration that is not negative.
abbrev pub milliseconds : Duration → ℕ
milliseconds d = pos_part d / 1_000_000
