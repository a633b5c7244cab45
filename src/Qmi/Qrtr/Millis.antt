-- ===== src/Qmi/Qrtr/Millis.antt =====
-- A duration as the timeout of poll(2) (`durationMillis` of driver/qmi/qrtr/conn.go).
use euicc_go.Prelude.{
  ℕ, ◌+◌, ◌*◌, ◌/◌, ◌%◌, ◌^◌, ◌≤◌, ◌<◌, ◌≡◌, refl, ltb, ◌==◌, if◌then◌else◌, arith,
}
use euicc_go.Prelude.Int.{ℤ, pos, negsuc}

-- The nanoseconds in a millisecond.
abbrev pub millisecond : ℕ
millisecond = 1000000

abbrev pub rounded : ℕ → ℕ
rounded d = if d % millisecond == 0 then d / millisecond else d / millisecond + 1

abbrev pub capped : ℕ → ℕ
capped ms = if ltb ms 1 then 1 else if ltb 2147483647 ms then 2147483647 else ms

-- The duration is an int64 of nanoseconds.
unfoldable pub duration_millis : ℤ → ℕ
duration_millis (negsuc n) = 0
duration_millis (pos n) = if n == 0 then 0 else capped (rounded n)

-- A positive duration is rounded up to a timeout of at least 1, which is an int32, so that poll does not
-- return before the duration is over unless it is more than the largest timeout, and returns less
-- than a millisecond after it. A duration of 0 or less has the timeout 0.
pub duration_millis-bounds :
    (d : ℕ)
    → (0 < d
        → (1 ≤ duration_millis (pos d))
          × (duration_millis (pos d) < 2 ^ 31)
          × (d ≤ 2147483647 * millisecond → d ≤ duration_millis (pos d) * millisecond)
          × (duration_millis (pos d) * millisecond < d + millisecond))
      × (duration_millis (pos 0) ≡ 0)
      × (duration_millis (negsuc d) ≡ 0)
unfolding duration_millis
duration_millis-bounds d =
    (λ h. (ground arith, ground arith, λ k. ground arith, ground arith), refl, refl)
