-- ===== src/Clock.antt =====
-- What the code uses of Go's package time. A Time is the number of nanoseconds since the zero Time,
-- 1 January of year 1, and a Duration is a number of nanoseconds. The saturation of Time.Add at the
-- ends of the int64 range of seconds, 292 billion years away, is left out; the wrapping additions of
-- time.Unix and Time.Unix are not.
use pje_headless.Base.{
  ℕ, ◌+◌, ◌-◌, ◌*◌, ◌/◌, ◌%◌, ◌^◌, ◌≡◌, Bool, true, false, arith, ltb, ◌==◌, if◌then◌else◌, ◌<◌,
}
use pje_headless.Base.Int.{ℤ, pos, negsuc, ◌+ℤ◌, ◌-ℤ◌, ltb_ℤ}

abbrev pub Time : Type 0
Time = ℤ

abbrev pub Duration : Type 0
Duration = ℤ

abbrev pub second : ℕ
second = 1_000_000_000

abbrev pub zero_time : Time
zero_time = pos 0

unfoldable pub is_zero : Time → Bool
is_zero (pos n) = n == 0
is_zero (negsuc n) = false

-- t.Before(u)
unfoldable pub before : Time → Time → Bool
before t u = ltb_ℤ t u

-- The int64 with the same remainder by 2^64.
unfoldable pub wrap64 : ℤ → ℤ
wrap64 (pos n) = let r = n % 2 ^ 64 in if ltb r (2 ^ 63) then pos r else negsuc (2 ^ 64 - 1 - r)
wrap64 (negsuc n) = let r = n % 2 ^ 64 in if ltb r (2 ^ 63) then negsuc r else pos (2 ^ 64 - 1 - r)

-- Seconds from the zero Time to 1 January 1970.
abbrev pub unix_to_internal : ℕ
unix_to_internal = 62_135_596_800

abbrev scale : ℤ → ℤ
scale (pos n) = pos (n * second)
scale (negsuc n) = negsuc (n * second + (second - 1))

-- Whole seconds, rounded down.
abbrev seconds : ℤ → ℤ
seconds (pos n) = pos (n / second)
seconds (negsuc n) = negsuc (n / second)

-- time.Unix(sec, 0)
unfoldable pub from_unix : ℤ → Time
unfolding wrap64 ◌+ℤ◌
from_unix sec = scale (wrap64 (sec +ℤ pos unix_to_internal))

-- t.Unix()
unfoldable pub unix : Time → ℤ
unfolding wrap64 ◌-ℤ◌
unix t = wrap64 (seconds t -ℤ pos unix_to_internal)

-- The numbers that an int64 holds.
abbrev pub IsInt64 : ℤ → Type 0
IsInt64 (pos n) = n < 2 ^ 63
IsInt64 (negsuc n) = n < 2 ^ 63

seconds-scale : (z : ℤ) → seconds (scale z) ≡ z
seconds-scale (pos n) = ground arith
seconds-scale (negsuc n) = ground arith

-- Seconds survive the way to a Time and back, through both wrapping additions.
pub unix-from_unix : (sec : ℤ) → IsInt64 sec → unix (from_unix sec) ≡ sec
unfolding unix from_unix
unix-from_unix (pos n) h = ground arith
unix-from_unix (negsuc n) h = ground arith

-- The only number of seconds that time.Unix takes to the zero Time.
pub is_zero-from_unix :
    (sec : ℤ) → IsInt64 sec → is_zero (from_unix sec) ≡ true → sec ≡ negsuc (unix_to_internal - 1)
unfolding is_zero from_unix
is_zero-from_unix (pos n) h e = ground arith
is_zero-from_unix (negsuc n) h e = ground arith
