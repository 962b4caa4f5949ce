-- ===== src/Gateway/Store/Calls.antt =====
-- src/services/llm-browser-gateway/llm_browser_gateway/db.py: the calls of the store, of any number of
-- requests and in any order. A `finish` that raises leaves the tables.
use Prim.Native.String.{String}
use stock_prediction.Base.{ℕ, Option, none, some, List, [], ◌∷◌}
use stock_prediction.Gateway.Types.{Result}
use stock_prediction.Gateway.Store.{Tables, reserve, mark_submitted, finish, terminal, reset, start}

pub data Call : Type 0 where
  reserving : (now : ℕ) (profile provider attempt request : String) (slot : ℕ) → Call
  submitting : (now : ℕ) (attempt : String) → Call
  finishing : (retry clock now : ℕ) (profile provider attempt : String) (result : Result) → Call
  ending : (now : ℕ) (profile provider attempt : String) → Call
  resetting : (now : ℕ) (profile : String) → Call
  starting : (retention now : ℕ) → Call

unfoldable pub or_unchanged : Tables → Option Tables → Tables
or_unchanged t none = t
or_unchanged t (some t') = t'

unfoldable pub step : Call → Tables → Tables
unfolding or_unchanged
step (reserving now profile provider attempt request slot) t =
    (reserve now profile provider attempt request slot t).0
step (submitting now attempt) t = mark_submitted now attempt t
step (finishing retry clock now profile provider attempt result) t =
    or_unchanged t (finish retry clock now profile provider attempt result t)
step (ending now profile provider attempt) t = terminal now profile provider attempt t
step (resetting now profile) t = reset now profile t
step (starting retention now) t = start retention now t

unfoldable pub run : List Call → Tables → Tables
run [] t = t
run (c ∷ calls) t = run calls (step c t)
