-- ===== src/Calendar/Days.antt =====
-- The session before and the session after a date.
use stock_prediction.Base.{
  ℕ, zero, suc, Bool, dec_lt, ◌+◌, ◌-◌, ◌≤◌, ◌<◌, ◌≡◌, true, false, arith, Bool-cases, inl, inr,
  ◌∙◌, ◌⊎◌, ap,
}
use stock_prediction.Calendar.{
  Result, ok, unsupported_timezone, date_overflow, max_ordinal, is_trading_day, retreat, advance,
  previous_session, next_session,
}

-- No date strictly between the two is a trading day.
abbrev pub NoSessionBetween : ℕ → ℕ → Type 0
NoSessionBetween a b = (q : ℕ) → a < q → q < b → is_trading_day q ≡ false

pub record IsLatest (bound day : ℕ) : Type 0 where
  pub trading : is_trading_day day ≡ true
  pub at_most : day ≤ bound
  pub near : bound ≤ day + 2
  pub none_later : NoSessionBetween day (suc bound)

pub record IsEarliest (bound day : ℕ) : Type 0 where
  pub trading : is_trading_day day ≡ true
  pub after : bound < day
  pub near : day ≤ bound + 3
  pub none_earlier : NoSessionBetween bound day

weekend_ends :
    (d : ℕ)
    → is_trading_day d ≡ false
    → is_trading_day (suc d) ≡ false
    → is_trading_day (suc (suc d)) ≡ true
unfolding is_trading_day
weekend_ends d a b = ground arith

weekend_starts :
    (d : ℕ)
    → is_trading_day (suc (suc d)) ≡ false
    → is_trading_day (suc d) ≡ false
    → is_trading_day d ≡ true
unfolding is_trading_day
weekend_starts d a b = ground arith

retreat_stop : (d : ℕ) → is_trading_day (suc d) ≡ true → retreat (suc d) ≡ ok (suc d)
unfolding retreat
retreat_stop d t = rw t

retreat_step : (d : ℕ) → is_trading_day (suc d) ≡ false → retreat (suc d) ≡ retreat d
unfolding retreat
retreat_step d t = rw t

advance_stop : (room d : ℕ) → is_trading_day (d + 1) ≡ true → advance (suc room) d ≡ ok (d + 1)
unfolding advance
advance_stop room d t = rw t

advance_step :
    (room d : ℕ) → is_trading_day (d + 1) ≡ false → advance (suc room) d ≡ advance room (d + 1)
unfolding advance
advance_step room d t = rw t

-- One more date without a session changes nothing.
IsLatest-suc :
    (d p : ℕ) → is_trading_day (suc d) ≡ false → d ≤ p + 1 → IsLatest d p → IsLatest (suc d) p
IsLatest-suc d p t c v = record {
  trading = v.trading;
  at_most = omega (arith, v.at_most);
  near = omega arith;
  none_later = λ q a b. grind (arith, v.none_later q a);
}

IsLatest-self : (d : ℕ) → is_trading_day d ≡ true → IsLatest d d
IsLatest-self d t = record {
  trading = t;
  at_most = omega arith;
  near = omega arith;
  none_later = λ q a b. absurd (omega arith);
}

-- The loop stops at the latest trading day that is not after the date.
pub retreat_lem : (d : ℕ) → 2 < d → (p : ℕ) × (retreat d ≡ ok p) × IsLatest d p
retreat_lem (suc (suc (suc e))) h = elim (Bool-cases (is_trading_day (suc (suc (suc e))))) [
  | inl t ↦ (suc (suc (suc e)), retreat_stop _ t, IsLatest-self _ t)
  | inr f ↦ elim (Bool-cases (is_trading_day (suc (suc e)))) [
    | inl t ↦ (
      suc (suc e),
      retreat_step _ f ∙ retreat_stop _ t,
      IsLatest-suc _ _ f (omega arith) (IsLatest-self _ t),
    )
    | inr g ↦
        let t = weekend_starts (suc e) f g in
        (
          suc e,
          retreat_step _ f ∙ retreat_step _ g ∙ retreat_stop _ t,
          IsLatest-suc _ _ f (omega arith) (IsLatest-suc _ _ g (omega arith) (IsLatest-self _ t)),
        )
  ]
]
retreat_lem (suc (suc zero)) h = absurd (omega arith)
retreat_lem (suc zero) h = absurd (omega arith)
retreat_lem zero h = absurd (omega arith)

IsEarliest-next : (d : ℕ) → is_trading_day (d + 1) ≡ true → IsEarliest d (d + 1)
IsEarliest-next d t = record {
  trading = t;
  after = omega arith;
  near = omega arith;
  none_earlier = λ q a b. absurd (omega arith);
}

first_after : (d q : ℕ) → d < q → (q ≡ d + 1) ⊎ (d + 1 < q)
first_after d q h = omega arith

IsEarliest-step :
    (d n : ℕ) → is_trading_day (d + 1) ≡ false → n ≤ d + 3 → IsEarliest (d + 1) n → IsEarliest d n
IsEarliest-step d n f c v = record {
  trading = v.trading;
  after = omega (arith, v.after);
  near = c;
  none_earlier =
      λ q a b. elim (first_after d q a) [ inl e ↦ rw e f | inr later ↦ v.none_earlier q later b ];
}

weekend_next :
    (d : ℕ)
    → is_trading_day (d + 1) ≡ false
    → is_trading_day (d + 1 + 1) ≡ false
    → is_trading_day (d + 1 + 1 + 1) ≡ true
unfolding is_trading_day
weekend_next d a b = ground arith

-- The loop stops at the earliest trading day after the date, at most three days on.
pub advance_lem : (room d : ℕ) → 2 < room → (n : ℕ) × (advance room d ≡ ok n) × IsEarliest d n
advance_lem (suc (suc (suc r))) d h = elim (Bool-cases (is_trading_day (d + 1))) [
  | inl t ↦ (d + 1, advance_stop _ d t, IsEarliest-next d t)
  | inr f ↦ elim (Bool-cases (is_trading_day (d + 1 + 1))) [
    | inl t ↦ (
      d + 1 + 1,
      advance_step _ d f ∙ advance_stop _ _ t,
      IsEarliest-step _ _ f (omega arith) (IsEarliest-next _ t),
    )
    | inr g ↦
        let t = weekend_next d f g in
        (
          d + 1 + 1 + 1,
          advance_step _ d f ∙ advance_step _ _ g ∙ advance_stop _ _ t,
          IsEarliest-step _ _ f (omega arith)
              (IsEarliest-step _ _ g (omega arith) (IsEarliest-next _ t)),
        )
  ]
]
advance_lem (suc (suc zero)) d h = absurd (omega arith)
advance_lem (suc zero) d h = absurd (omega arith)
advance_lem zero d h = absurd (omega arith)

-- Away from the ends of the calendar `previous_session` returns a trading day before the date, at
-- most three days back, and no trading day lies between the two.
pub previous_session_lem :
    (day : ℕ)
    → 3 < day
    → (p : ℕ) × (previous_session day ≡ ok p)
      × (is_trading_day p ≡ true)
      × (p < day)
      × (day < p + 4)
      × NoSessionBetween p day
unfolding previous_session
previous_session_lem day h =
    let (p, e, v) = retreat_lem (day - 1) (omega arith) in
    (
      p,
      e,
      v.trading,
      omega (arith, v.at_most),
      omega (arith, v.near),
      λ q a b. v.none_later q a (omega arith),
    )

-- Away from the ends of the calendar `next_session` returns a trading day after the date, and no
-- trading day lies between the two.
pub next_session_lem :
    (day : ℕ)
    → day + 2 < max_ordinal
    → (n : ℕ) × (next_session day ≡ ok n)
      × (is_trading_day n ≡ true)
      × (day < n)
      × NoSessionBetween day n
unfolding next_session
next_session_lem day h =
    let (n, e, v) = advance_lem (max_ordinal - day) day (omega arith) in
    (n, e, v.trading, v.after, v.none_earlier)

clash : {b : Bool} → b ≡ true → b ≡ false → ⊥
clash t f = cc

-- Two trading days before a date with no trading day between either and the date are one.
pub session_unique :
    (p q bound : ℕ)
    → is_trading_day p ≡ true
    → is_trading_day q ≡ true
    → p < bound
    → q < bound
    → NoSessionBetween p bound
    → NoSessionBetween q bound
    → p ≡ q
session_unique p q bound tp tq bp bq np nq =
    let up : p < q → ⊥ = λ h. clash tq (np q h bq) in
    let down : q < p → ⊥ = λ h. clash tp (nq p h bp) in
    elim (dec_lt p q) [
      | yes h ↦ absurd (up h)
      | no h ↦ elim (dec_lt q p) [ yes k ↦ absurd (down k) | no k ↦ omega arith ]
    ]

from_ok : Result ℕ → ℕ
from_ok (ok n) = n
from_ok (unsupported_timezone _) = 0
from_ok date_overflow = 0

pub ok-injective : (m n : ℕ) → ok m ≡ ok n → m ≡ n
unfolding from_ok
ok-injective m n e = ap from_ok e

-- From a trading day away from the ends of the calendar, the session after it exists, and the
-- session before that one is the day itself.
pub previous-next_session :
    (day : ℕ)
    → is_trading_day day ≡ true
    → 3 < day
    → day + 2 < max_ordinal
    → (n : ℕ) × (next_session day ≡ ok n) × (previous_session n ≡ ok day)
previous-next_session day t low h =
    let (n, e, _, after, gap) = next_session_lem day h in
    let (p, pe, pt, before, _, pgap) = previous_session_lem n (omega arith) in
    (n, e, pe ∙ ap ok (session_unique p day n pt t before after pgap gap))
