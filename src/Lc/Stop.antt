-- ===== src/Lc/Stop.antt =====
-- Why the compiler stops: undefined behaviour, such as a read past the end of the source, a loop of the
-- model that is out of fuel, `die`, or an error that it reports at a token.
use irid.Base.{ℕ, Result}

pub data Stop : Type 0 where
  crash : Stop
  out_of_fuel : Stop
  die : Stop
  error_at : ℕ → Stop

abbrev pub Compiling : Type 0 → Type 0
Compiling A = Result Stop A
