-- ===== src/Base/Calls.antt =====
-- Calls of Python that return or raise.
use scamlens.Base.Strings.{Text}

-- What a call returns, or the name of the exception that it raises.
pub data Attempt (A : Type 0) : Type 0 where
  returned : A → Attempt A
  raised : Text → Attempt A
