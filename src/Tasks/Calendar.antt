-- ===== src/Tasks/Calendar.antt =====
-- server/task.rs: `iso_now` and `epoch_days_to_ymd`. `secs` is a `u64`, and so are all the numbers;
-- no subtraction goes below 0, and no sum passes 2^64.
use ida_mcp.Base.{
  ℕ, ◌+◌, ◌-◌, ◌*◌, ◌/◌, ◌%◌, ◌∷◌, ◌++◌, Text, text, padded, ltb, leb, if◌then◌else◌,
}

unfoldable pub epoch_days_to_ymd : ℕ → ℕ × ℕ × ℕ
epoch_days_to_ymd days =
    let z = days + 719468 in
    let era = z / 146097 in
    let doe = z - era * 146097 in
    let yoe = (doe - doe / 1460 + doe / 36524 - doe / 146096) / 365 in
    let y = yoe + era * 400 in
    let doy = doe - (365 * yoe + yoe / 4 - yoe / 100) in
    let mp = (5 * doy + 2) / 153 in
    let d = doy - (153 * mp + 2) / 5 + 1 in
    let m : ℕ = if ltb mp 10 then mp + 3 else mp - 9 in
    let year : ℕ = if leb m 2 then y + 1 else y in (year, m, d)

unfoldable pub iso_now : ℕ → Text
unfolding epoch_days_to_ymd padded
iso_now secs =
    let days = secs / 86400 in
    let time_secs = secs % 86400 in
    let hours = time_secs / 3600 in
    let minutes = (time_secs % 3600) / 60 in
    let seconds = time_secs % 60 in
    let (year, month, day) = epoch_days_to_ymd days in
    padded 4 year
    ++ (b'-' ∷ padded 2 month)
    ++ (b'-' ∷ padded 2 day)
    ++ (b'T' ∷ padded 2 hours)
    ++ (b':' ∷ padded 2 minutes)
    ++ (b':' ∷ padded 2 seconds)
    ++ text "Z"
