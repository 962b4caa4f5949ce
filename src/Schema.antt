-- ===== src/Schema.antt =====
-- src/shared/shared/schemas/messages.py: the enumerations and records that the services share.
use Prim.Native.String.{String}
use stock_prediction.Base.{Bool, true, false}

pub data Direction : Type 0 where
  up down neutral : Direction

pub data Magnitude : Type 0 where
  small medium large : Magnitude

pub data EventPolarity : Type 0 where
  occurrence resolution : EventPolarity

-- `==` of two directions.
abbrev pub same_direction : Direction → Direction → Bool
same_direction up up = true
same_direction down down = true
same_direction neutral neutral = true
same_direction _ _ = false

-- One edge of a prediction, without the `path`, which repeats its id.
pub record ContributingEdge (R : Type 0) : Type 0 where
  pub edge_id : String
  pub direction : Direction
  pub current_weight : R
  pub influence_weight : R
