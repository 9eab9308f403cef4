-- ===== src/Stdio/Tests.antt =====
-- A line that is printed (src/twncm_stdio.h).
use twincam.Base.{ℕ, ◌+◌, ◌≤◌, ◌≡◌, refl, true, false, some, [], ◌∷◌, length, arith}
use twincam.Stdio.{
  Str, sized, resize, printed, write_over, write_at, snprintf_at, string_printf, PrintOptions,
  to_log, to_stdout, print,
}
use twincam.Stdio.Printf.{string_printf-append}
use twincam.Stdio.Printing.{print-line}

abbrev double : ℕ → ℕ
double n = n + n

abbrev short : Str
short = record { chars = 65 ∷ []; capacity = 2 }

string_printf_run :
    string_printf double (66 ∷ 67 ∷ []) short
    ≡ some (record { chars = 65 ∷ 66 ∷ 67 ∷ []; capacity = 6 })
unfolding string_printf snprintf_at write_at write_over printed resize sized
string_printf_run = refl

string_printf-append_example :
    (s' : Str) × (string_printf double (66 ∷ 67 ∷ []) short ≡ some s')
    × (s'.chars ≡ 65 ∷ 66 ∷ 67 ∷ [])
    × (length s'.chars ≤ s'.capacity)
string_printf-append_example =
    string_printf-append double (66 ∷ 67 ∷ []) short (λ n. omega arith) (omega arith)

abbrev chatty : PrintOptions
chatty = record { uptime = true; to_syslog = true; verbose = false }

chatty_line :
    print double 15 chatty (49 ∷ []) (66 ∷ [])
    ≡ some (to_log (49 ∷ 66 ∷ []) ∷ to_stdout (49 ∷ 66 ∷ []) ∷ [])
chatty_line = (print-line double 15 chatty (49 ∷ []) (λ n. omega arith) (66 ∷ [])).0
