-- ===== src/Base/Result.antt =====
-- Python's exceptions as values, and the calls that may raise.
use Prim.Native.String.{String}

-- The exceptions that the code raises or passes on.
pub data Error : Type 0 where
  key_error forbidden failure : String → Error

pub data Result {ℓ} (A : Type ℓ) : Type ℓ where
  ok : A → Result A
  err : Error → Result A
