-- ===== src/Common/Results.antt =====
-- A value or an error, as a Go function returns the two.
pub data Result (E A : Type 0) : Type 0 where
  ok : A → Result E A
  err : E → Result E A
