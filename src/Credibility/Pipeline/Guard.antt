-- ===== src/Credibility/Pipeline/Guard.antt =====
-- src/services/credibility/credibility/pipeline.py, `process`: what a redelivered message does.
use Prim.Native.String.{String}
use stock_prediction.Base.{Bool, true, false}
use stock_prediction.Number.{Number}
use stock_prediction.Credibility.Pipeline.{Reply, applied, ignored}

-- A message that was answered with true or with false.
abbrev pub is_settled : Reply → Bool
is_settled applied = true
is_settled ignored = true
is_settled _ = false
