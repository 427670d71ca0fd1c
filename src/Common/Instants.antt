-- ===== src/Common/Instants.antt =====
-- `time.Time` as nanoseconds from the Unix epoch and `time.Duration` as an int64 of nanoseconds.
-- Instants do not wrap; durations do, as in Go.
use Prim.Native.Nat.{ℕ, ◌+◌, ◌-◌, ◌%◌, ◌/◌, ◌^◌}
use mathlib.Core.Path.{◌≡◌}
use mathlib.Core.Bool.{Bool}
use native.Mathlib.Omega.{arith}
use syncmesh.Common.Tests.{ltb, if◌then◌else◌}
use syncmesh.Common.Int.{ℤ, pos, negsuc, sub_ℕ, ◌+ℤ◌, ◌-ℤ◌, ◌*ℤ◌, ltb_ℤ}

abbrev pub Time : Type 0
Time = ℤ

abbrev pub Duration : Type 0
Duration = ℤ

pub second : ℤ
second = pos (10 ^ 9)

-- The zero value of `time.Time`, 1 January of the year 1.
pub zero_time : Time
unfolding ◌*ℤ◌ second
zero_time = negsuc 62135596799 *ℤ second

pub max_int64 : ℤ
max_int64 = pos (2 ^ 63 - 1)

pub min_int64 : ℤ
min_int64 = negsuc (2 ^ 63 - 1)

-- The int64 with the bit pattern of an integer.
pub wrap_int64 : ℤ → ℤ
wrap_int64 (pos n) =
    let low = n % 2 ^ 64 in if ltb low (2 ^ 63) then pos low else sub_ℕ low (2 ^ 64)
wrap_int64 (negsuc n) =
    let low = n % 2 ^ 64 in if ltb low (2 ^ 63) then negsuc low else pos (2 ^ 64 - 1 - low)

-- `time.Unix(s, 0)`.
unfoldable pub unix_time : ℤ → Time
unfolding ◌*ℤ◌ second
unix_time s = s *ℤ second

-- `t.After(u)` and `t.Before(u)`.
abbrev pub after : Time → Time → Bool
after t u = ltb_ℤ u t

abbrev pub before : Time → Time → Bool
before t u = ltb_ℤ t u

-- `t.Add(-seconds * time.Second)`.
unfoldable pub seconds_before : ℕ → Time → Time
unfolding ◌-ℤ◌ ◌*ℤ◌ second
seconds_before n t = t -ℤ pos n *ℤ second

-- `t.Sub(u)` saturates at the ends of the int64 range.
unfoldable pub elapsed : Time → Time → Duration
unfolding ◌-ℤ◌ max_int64 min_int64
elapsed t u =
    let d = t -ℤ u in
    if ltb_ℤ max_int64 d then max_int64 else if ltb_ℤ d min_int64 then min_int64 else d

-- `t.Unix()`, which rounds down.
unfoldable pub unix_seconds : Time → ℤ
unix_seconds (pos n) = pos (n / 10 ^ 9)
unix_seconds (negsuc n) = negsuc (n / 10 ^ 9)

-- Adding to a wrapped number wraps the sum.
pub wrap_int64-add : (n k : ℕ) → wrap_int64 (wrap_int64 (pos n) +ℤ pos k) ≡ wrap_int64 (pos (n + k))
unfolding wrap_int64 ◌+ℤ◌
wrap_int64-add n k = ground arith

pub wrap_int64-zero : wrap_int64 (pos 0) ≡ pos 0
unfolding wrap_int64
wrap_int64-zero = ground arith
