-- ===== src/Pid/RoundTrip.antt =====
-- The pid that is read is the pid that was written (src/twncm_fnctl.cpp), if the buffer allows.
use twincam.Base.{ℕ, zero, suc, ◌*◌}

abbrev pow10 : ℕ → ℕ
pow10 zero = 1
pow10 (suc n) = 10 * pow10 n
