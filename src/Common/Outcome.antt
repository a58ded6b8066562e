-- ===== src/Common/Outcome.antt =====
-- Go's `(value, err)` results: a value or an error, never both.
pub data Result (E A : Type 0) : Type 0 where
  ok : A → Result E A
  err : E → Result E A
