-- ===== src/Drivers/Rtc/Tests.antt =====
-- The rates of drivers/rtc.c. No float takes part in the result of the call, so the witness takes
-- the floats of a machine that only knows 0.
use gyarad_os.Base.{true, false}
use gyarad_os.Base.Int.{pos}
use gyarad_os.Machine.Bus.{Device}
use gyarad_os.Drivers.Rtc.{Floats}

abbrev no_floats : Floats
no_floats = record {
  of_int = λ n. 0;
  of_uint = λ n. 0;
  literal = λ m d. 0;
  add = λ a b. 0;
  sub = λ a b. 0;
  mul = λ a b. 0;
  div = λ a b. 0;
  lt_zero = λ a. false;
  ge_zero = λ a. true;
  trunc = λ a. pos 0;
}

abbrev quiet : Device
quiet l port = 0x20
