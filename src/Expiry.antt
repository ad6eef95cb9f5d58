-- ===== src/Expiry.antt =====
-- internal/expiry/expiry.go: the expiry of a secret against the clock. A Duration is an int64 of
-- nanoseconds. What package fmt, package time and the floating-point numbers make of a duration is the
-- record `Texts`.
pub mod Warned
use omnivault.Base.{
  ℕ, ◌*◌, ◌+◌, ◌-◌, ◌%◌, Bytes, codes, Bool, true, false, Option, none, some, [], ◌++◌, ltb, leb,
  ◌==◌, if◌then◌else◌, ℤ, pos, negsuc, sub_ℕ, leb_ℤ, wrap_int64, pos_part, neg_part, two_63,
  negate_int64,
}
use omnivault.Vault.Types.{Time}
use omnivault.Vault.Errors.{Error, message}

pub data Status : Type 0 where
  ok warning expired : Status

unfoldable pub status_text : Status → Bytes
status_text Status.ok = codes "ok"
status_text Status.warning = codes "warning"
status_text Status.expired = codes "expired"

pub record Result : Type 0 where
  pub status : Status
  pub expires_at : Time
  pub time_until : ℤ
  pub warning_days : ℤ

-- t.Sub(u): the difference, or the nearest Duration.
unfoldable pub sub_time : Time → Time → ℤ
sub_time t u =
    if leb u t
    then pos (if ltb (t - u) two_63 then t - u else two_63 - 1)
    else negsuc (if ltb (u - t - 1) two_63 then u - t - 1 else two_63 - 1)

abbrev pub hour : ℕ
hour = 3600000000000

-- time.Duration(warningDays) * 24 * time.Hour
unfoldable pub warning_threshold : ℤ → ℤ
warning_threshold (pos n) = wrap_int64 (pos (n * 24 * hour))
warning_threshold (negsuc n) = wrap_int64 (negsuc ((n + 1) * 24 * hour - 1))

abbrev pub result_of : Time → ℤ → ℤ → Status → Result
result_of expires_at time_until warning_days status = record {
  status = status;
  expires_at = expires_at;
  time_until = time_until;
  warning_days = warning_days;
}

unfoldable pub check : Time → ℤ → Time → Result
unfolding sub_time warning_threshold
check expires_at warning_days now =
    let time_until = sub_time expires_at now in
    let result = result_of expires_at time_until warning_days in
    if expires_at == 0
    then record { status = Status.ok; expires_at = 0; time_until = pos 0; warning_days = pos 0 }
    else if leb_ℤ time_until (pos 0)
    then result Status.expired
    else if leb_ℤ time_until (warning_threshold warning_days)
    then result Status.warning
    else result Status.ok

-- int(d.Hours() / 24), int(d.Hours()) and int(d.Minutes()) of a duration; %d; the format "2006-01-02".
pub record Texts : Type 0 where
  pub whole_days : ℤ → ℕ
  pub whole_hours : ℤ → ℕ
  pub whole_minutes : ℤ → ℕ
  pub decimal : ℕ → Bytes
  pub date : Time → Bytes

abbrev pub units : Bytes → Bytes → Bytes → ℕ → Bytes
units one many number n = if n == 1 then one else number ++ many

module _ (tx : Texts) where
  open tx use {whole_days, whole_hours, whole_minutes, decimal, date}

  abbrev pub magnitude : ℤ → ℤ
  magnitude d = if ltb (neg_part d) 1 then d else negate_int64 d

  unfoldable pub format_duration : ℤ → Bytes
  format_duration given =
      let d = magnitude given in
      let days = whole_days d in
      let hours = whole_hours d % 24 in
      let minutes = whole_minutes d % 60 in
      if ltb 0 days
      then units (codes "1 day") (codes " days") (decimal days) days
      else if ltb 0 hours
      then units (codes "1 hour") (codes " hours") (decimal hours) hours
      else if ltb 0 minutes
      then units (codes "1 minute") (codes " minutes") (decimal minutes) minutes
      else codes "less than a minute"

  -- What is written, and the error that is returned.
  unfoldable pub write_warning : Bytes → Result → Bytes × Option Error
  unfolding format_duration
  write_warning path r = elim r.status [
    | ok ↦ ([], none)
    | warning ↦ (
      codes "WARNING: Secret '"
          ++ (path
              ++ (codes "' expires in "
                  ++ (format_duration r.time_until
                      ++ (codes " (on " ++ (date r.expires_at ++ codes ")\n"))))),
      none,
    )
    | expired ↦ (
      codes "WARNING: Secret '"
          ++ (path
              ++ (codes "' has expired (expired "
                  ++ (format_duration (negate_int64 r.time_until) ++ codes " ago)\n"))),
      some (message (codes "secret expired")),
    )
  ]
