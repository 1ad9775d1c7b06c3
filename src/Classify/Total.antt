-- ===== src/Classify/Total.antt =====
-- What a classification returns or raises.
use briefed.Base.Result.{Result}
use briefed.Llm.Attempts
