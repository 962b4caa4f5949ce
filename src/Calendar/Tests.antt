-- ===== src/Calendar/Tests.antt =====
-- Tests of the calendar, and its theorems at concrete dates. 2026-08-17 is a Monday, ordinal 739845.
use stock_prediction.Base.{ℕ, ◌+◌, ◌*◌, ◌/◌, ◌<◌, ◌≡◌, refl, some, true, arith}
use stock_prediction.Calendar.{
  ok, Zone, ZoneDatabase, retreat, previous_session, next_session, is_trading_day, advance,
  resolve_baseline_settlement,
}
use stock_prediction.Calendar.Days.{
  NoSessionBetween, previous_session_lem, next_session_lem, previous-next_session,
}
use stock_prediction.Calendar.Resolve.{IsLocalClock, IsHorizon, resolve_baseline_settlement_lem}

monday : previous_session 739845 ≡ ok 739842
unfolding previous_session retreat is_trading_day
monday = refl

friday : next_session 739842 ≡ ok 739845
unfolding next_session advance is_trading_day
friday = refl

-- UTC, with instants counted from the date of ordinal 0.
abbrev utc : Zone
utc = record {
  local_date = λ moment. moment / 86_400_000_000;
  wall = λ day hour minute. day * 86_400_000_000 + (hour * 60 + minute) * 60_000_000;
}

utc-IsLocalClock : IsLocalClock utc 17 0
utc-IsLocalClock = record {
  past = λ moment day h. omega arith;
  future = λ moment day h. omega arith;
}

abbrev one_zone : ZoneDatabase
one_zone name = some utc

-- Sunday 2026-08-16 at noon.
abbrev sunday_noon : ℕ
sunday_noon = 739844 * 86_400_000_000 + 43_200_000_000

previous_session_lem_example :
    (p : ℕ) × (previous_session 739845 ≡ ok p)
    × (is_trading_day p ≡ true)
    × (p < 739845)
    × (739845 < p + 4)
    × NoSessionBetween p 739845
previous_session_lem_example = previous_session_lem 739845 (omega arith)

next_session_lem_example :
    (n : ℕ) × (next_session 739842 ≡ ok n)
    × (is_trading_day n ≡ true)
    × (739842 < n)
    × NoSessionBetween 739842 n
next_session_lem_example = next_session_lem 739842 (omega arith)

previous-next_session_example :
    (n : ℕ) × (next_session 739842 ≡ ok n) × (previous_session n ≡ ok 739842)
unfolding is_trading_day
previous-next_session_example = previous-next_session 739842 refl (omega arith) (omega arith)

resolve_baseline_settlement_example :
    (b s : ℕ) × (resolve_baseline_settlement one_zone sunday_noon "Etc/UTC" 17 0 ≡ ok (b, s))
    × IsHorizon utc 17 0 sunday_noon b s
resolve_baseline_settlement_example =
    resolve_baseline_settlement_lem utc-IsLocalClock sunday_noon one_zone "Etc/UTC" refl
      (omega arith) (omega arith)
