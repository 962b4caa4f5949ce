-- ===== src/Prediction/Context.antt =====
-- src/services/prediction/prediction/context.py: the windows in which events of an asset are gathered.
-- Instants are microseconds, counted from a midnight in UTC.
use stock_prediction.Base.{ℕ, ◌+◌, ◌-◌, ◌*◌, ◌/◌, ◌%◌, Bool, leb}

-- A minute, and a day.
abbrev pub minute : ℕ
minute = 60000000

abbrev pub day : ℕ
day = 1440 * minute

abbrev pub day_start : ℕ → ℕ
day_start t = t - t % day

-- `window_bounds`; the quotient of the minutes is taken of the microseconds.
unfoldable pub window_bounds : ℕ → ℕ → ℕ × ℕ
window_bounds event_time window_minutes =
    let bucket = (event_time % day) / (window_minutes * minute) in
    let start = day_start event_time + bucket * (window_minutes * minute) in
    (start, start + window_minutes * minute)

-- `is_ready`
pub is_ready : ℕ → ℕ → ℕ → Bool
is_ready window_end now grace_minutes = leb (window_end + grace_minutes * minute) now
