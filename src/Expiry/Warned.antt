-- ===== src/Expiry/Warned.antt =====
-- When a secret is reported: the status against the calendar, up to the largest threshold that an int64
-- of nanoseconds holds.
use omnivault.Base.{ℕ, ◌*◌, ◌+◌, ◌≤◌, leb, if◌then◌else◌, pos, wrap_int64, ◌≡◌, ◌≢◌, arith}
use omnivault.Vault.Types.{Time}
use omnivault.Expiry.{Status, check, sub_time, warning_threshold, hour}

-- The days that fit: 106751 days are less than 2^63 nanoseconds.
abbrev pub most_days : ℕ
most_days = 106751

warning_threshold_lem : (n : ℕ) → n ≤ most_days → warning_threshold (pos n) ≡ pos (n * 24 * hour)
unfolding warning_threshold wrap_int64
warning_threshold_lem n h = ground arith

pub check-status :
    (expires now : Time) (n : ℕ)
    → expires ≢ 0
    → n ≤ most_days
    → (check expires (pos n) now).status ≡ (
        if leb expires now
        then Status.expired
        else if leb expires (now + n * 24 * hour)
        then Status.warning
        else Status.ok)
unfolding check sub_time
check-status expires now n e h = ground (arith, warning_threshold_lem n h)
