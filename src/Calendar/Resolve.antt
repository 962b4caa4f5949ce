-- ===== src/Calendar/Resolve.antt =====
-- `resolve_baseline_settlement`: no look-ahead.
use Prim.Native.String.{String}
use mathlib.Core.Path.{subst}
use stock_prediction.Base.{
  ℕ, suc, ◌+◌, ◌≤◌, ◌<◌, ◌≡◌, true, some, arith, leb, leb→le, Bool-cases, inl, inr, dec_lt,
}
use stock_prediction.Calendar.{
  ok, Zone, ZoneDatabase, max_ordinal, is_trading_day, retreat, next_session, zone, local_date_in,
  session_completed_at, is_session_complete, completed_session, resolve_baseline_settlement,
}
use stock_prediction.Calendar.Days.{
  NoSessionBetween, IsLatest, retreat_lem, previous_session_lem, next_session_lem,
}

-- What the code relies on of a zone, at the hour and minute of completion: a local date that is
-- over has passed that wall clock, and one that has not begun has not reached it.
pub record IsLocalClock (z : Zone) (hour minute : ℕ) : Type 0 where
  pub past : (moment day : ℕ) → day < z.local_date moment → z.wall day hour minute ≤ moment
  pub future : (moment day : ℕ) → z.local_date moment < day → moment < z.wall day hour minute

zone_known :
    (database : ZoneDatabase) (name : String) (z : Zone)
    → database name ≡ some z
    → zone database name ≡ ok z
unfolding zone
zone_known database name z e = rw (e, zone)

resolve_steps :
    (database : ZoneDatabase) (name : String) (z : Zone) (now hour minute c b s : ℕ)
    → zone database name ≡ ok z
    → retreat (z.local_date now) ≡ ok c
    → completed_session (leb (z.wall c hour minute) now) c ≡ ok b
    → next_session b ≡ ok s
    → resolve_baseline_settlement database now name hour minute ≡ ok (b, s)
unfolding resolve_baseline_settlement local_date_in is_session_complete session_completed_at
resolve_steps database name z now hour minute c b s ez ec eb es = ground arith

module _ (z : Zone) (hour minute now : ℕ) where
  -- The session is over at `now`.
  abbrev pub IsOver : ℕ → Type 0
  IsOver day = z.wall day hour minute ≤ now

  -- The pair that a prediction of the instant `now` is scored on.
  pub record IsHorizon (baseline settlement : ℕ) : Type 0 where
    pub baseline_trading : is_trading_day baseline ≡ true
    pub baseline_over : IsOver baseline
    pub baseline_latest : (q : ℕ) → is_trading_day q ≡ true → IsOver q → q ≤ baseline
    pub settlement_trading : is_trading_day settlement ≡ true
    pub settlement_after : baseline < settlement
    pub settlement_next : NoSessionBetween baseline settlement
    pub settlement_open : now < z.wall settlement hour minute

  pub record IsBaseline (baseline : ℕ) : Type 0 where
    pub trading : is_trading_day baseline ≡ true
    pub over : IsOver baseline
    pub latest : (q : ℕ) → is_trading_day q ≡ true → IsOver q → q ≤ baseline

module _ {z : Zone} {hour minute : ℕ} (clock : IsLocalClock z hour minute) (now : ℕ) where
  not_after_today : (q : ℕ) → IsOver z hour minute now q → q ≤ z.local_date now
  not_after_today q over = elim (dec_lt (z.local_date now) q) [
    | yes later ↦ absurd (omega (arith, clock.future now q later))
    | no h ↦ omega arith
  ]

  latest_below :
      (p bound : ℕ)
      → NoSessionBetween p bound
      → ((q : ℕ) → is_trading_day q ≡ true → IsOver z hour minute now q → q < bound)
      → (q : ℕ) → is_trading_day q ≡ true
      → IsOver z hour minute now q
      → q ≤ p
  latest_below p bound gap below q t over = elim (dec_lt p q) [
    | yes h ↦ cc (gap q h (below q t over))
    | no h ↦ omega arith
  ]

  -- The candidate, if it is over, is the baseline.
  candidate-IsBaseline :
      (c : ℕ)
      → IsLatest (z.local_date now) c
      → IsOver z hour minute now c
      → IsBaseline z hour minute now c
  candidate-IsBaseline c v over = record {
    trading = v.trading;
    over = over;
    latest =
        latest_below c (suc (z.local_date now)) v.none_later
          (λ q t o. omega (arith, not_after_today q o));
  }

  before_candidate :
      (c : ℕ)
      → IsLatest (z.local_date now) c
      → now < z.wall c hour minute
      → (q : ℕ) → is_trading_day q ≡ true
      → IsOver z hour minute now q
      → q < c
  before_candidate c v running q t o =
      let at_most =
        latest_below c (suc (z.local_date now)) v.none_later
          (λ r tr over. omega (arith, not_after_today r over)) q t o in
      elim (dec_lt q c) [
        | yes h ↦ h
        | no h ↦
            let same : q ≡ c = omega arith in
            let over : IsOver z hour minute now c = subst (IsOver z hour minute now) same o in
            absurd (omega arith)
      ]

  -- If it is not over, it is today, and the session before it is the baseline.
  earlier-IsBaseline :
      (c p : ℕ)
      → IsLatest (z.local_date now) c
      → now < z.wall c hour minute
      → is_trading_day p ≡ true
      → p < c
      → NoSessionBetween p c
      → IsBaseline z hour minute now p
  earlier-IsBaseline c p v running t before gap = record {
    trading = t;
    over = clock.past now p (omega (arith, v.at_most));
    latest = latest_below p c gap (before_candidate c v running);
  }

  -- The candidate or the session before it, by the test of the code.
  IsBaseline-found :
      (c : ℕ)
      → IsLatest (z.local_date now) c
      → 3 < c
      → (b : ℕ) × (completed_session (leb (z.wall c hour minute) now) c ≡ ok b)
        × (b ≤ c)
        × (c ≤ b + 3)
        × IsBaseline z hour minute now b
  unfolding completed_session
  IsBaseline-found c v low = elim (Bool-cases (leb (z.wall c hour minute) now)) [
    | inl over ↦ (c, rw over, omega arith, omega arith, candidate-IsBaseline c v (leb→le _ _ over))
    | inr running ↦
        let (p, e, t, before, near, gap) = previous_session_lem c low in
        let later : now < z.wall c hour minute = ground arith in
        (p, rw running e, omega arith, omega arith, earlier-IsBaseline c p v later t before gap)
  ]

  baseline-IsHorizon :
      (b s : ℕ)
      → IsBaseline z hour minute now b
      → is_trading_day s ≡ true
      → b < s
      → NoSessionBetween b s
      → IsHorizon z hour minute now b s
  baseline-IsHorizon b s v t after gap = record {
    baseline_trading = v.trading;
    baseline_over = v.over;
    baseline_latest = v.latest;
    settlement_trading = t;
    settlement_after = after;
    settlement_next = gap;
    settlement_open = elim (dec_lt now (z.wall s hour minute)) [
      | yes h ↦ h
      | no h ↦ absurd (omega (arith, v.latest s t (omega arith)))
    ];
  }

  -- In a zone that the database knows, and away from the ends of the calendar,
  -- `resolve_baseline_settlement` returns a baseline and a settlement session. The baseline is the
  -- latest trading day whose session is complete at the decision, the settlement is the trading day
  -- next after it, and the settlement session is not yet complete at the decision.
  pub resolve_baseline_settlement_lem :
      (database : ZoneDatabase) (name : String)
      → database name ≡ some z
      → 5 < z.local_date now
      → z.local_date now + 2 < max_ordinal
      → (b s : ℕ) × (resolve_baseline_settlement database now name hour minute ≡ ok (b, s))
        × IsHorizon z hour minute now b s
  resolve_baseline_settlement_lem database name known low high =
      let (c, ce, cv) = retreat_lem (z.local_date now) (omega arith) in
      let (b, be, bc, cb, bv) = IsBaseline-found c cv (omega (arith, cv.near)) in
      let (s, se, st, after, gap) = next_session_lem b (omega (arith, cv.at_most)) in
      (
        b,
        s,
        resolve_steps database name z now hour minute c b s (zone_known database name z known) ce be
            se,
        baseline-IsHorizon b s bv st after gap,
      )
