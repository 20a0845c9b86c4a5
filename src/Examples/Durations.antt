-- ===== src/Examples/Durations.antt =====
-- Durations at which float64 and int64 do not keep the exact value.
use wb_test_task.Base.{◌≡◌, refl}
use wb_test_task.Base.Int.{pos, negsuc, ◌-ℤ◌, floor_mod}
use wb_test_task.Aggregator.{whole_seconds, rounded_seconds, leading_power}
use wb_test_task.Settings.Valid.{milliseconds}

-- Up to 2 ^ 24 seconds, which are 194 days, the seconds are exact; a nanosecond below 16777217 s is given
-- as 16777217 s.
short_window : whole_seconds (pos 8388607999999999) ≡ pos 8388607
unfolding whole_seconds rounded_seconds leading_power
short_window = refl

last_exact_window : whole_seconds (pos 16777215999999999) ≡ pos 16777215
unfolding whole_seconds rounded_seconds leading_power
last_exact_window = refl

rounded_window : whole_seconds (pos 16777216999999999) ≡ pos 16777217
unfolding whole_seconds rounded_seconds leading_power
rounded_window = refl

negative_window : whole_seconds (negsuc 1499999999) ≡ negsuc 0
unfolding whole_seconds rounded_seconds leading_power ◌-ℤ◌
negative_window = refl

some_milliseconds : milliseconds (pos 500) ≡ pos 500000000
unfolding milliseconds floor_mod
some_milliseconds = refl

negative_milliseconds : milliseconds (negsuc 0) ≡ negsuc 999999
unfolding milliseconds floor_mod
negative_milliseconds = refl

-- The first number of milliseconds whose nanoseconds do not fit 63 bits.
wrapped_milliseconds : milliseconds (pos 9223372036855) ≡ negsuc 9223372036854551615
unfolding milliseconds floor_mod
wrapped_milliseconds = refl
