-- ===== src/Pid/Tests.antt =====
-- A pid in its file (src/twncm_fnctl.cpp).
use twincam.Base.{◌≡◌, refl, some, [], ◌∷◌, pos, neg}
use twincam.Pid.{decimal, pid_text, overlay, pid_read, read_digits, strtol, twncm_atoi, pid_target}

pid_text_run : pid_text 1234 ≡ 49 ∷ 50 ∷ 51 ∷ 52 ∷ []
unfolding pid_text decimal
pid_text_run = refl

-- " -17x"
atoi_run : twncm_atoi (32 ∷ 45 ∷ 49 ∷ 55 ∷ 120 ∷ []) ≡ some (neg 17)
unfolding twncm_atoi strtol read_digits
atoi_run = refl

-- The buffer still has a digit behind the pid.
wrong_pid_run : pid_target (some (49 ∷ 50 ∷ [])) (0 ∷ 0 ∷ 57 ∷ 0 ∷ []) ≡ some (pos 129)
unfolding pid_target twncm_atoi strtol read_digits pid_read overlay
wrong_pid_run = refl
