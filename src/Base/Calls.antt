-- ===== src/Base/Calls.antt =====
-- Calls of code outside of a service.
use Prim.Native.String.{String}

-- What a callee outside of a service answers: a value, or an exception, with the text that the
-- service keeps of it.
pub data Answer {ℓ} (A : Type ℓ) : Type ℓ where
  answered : A → Answer A
  threw : String → Answer A
