-- ===== src/Stdio/Printing.antt =====
-- What PRINT, EPRINT and VERBOSE_PRINT print (src/twncm_stdio.h).
use twincam.Base.{
  ℕ, ◌≤◌, ◌≡◌, inl, inr, some, List, [], ◌∷◌, ◌++◌, if◌then◌else◌, arith, Bool-cases,
}
use twincam.Stdio.{
  Str, PrintOptions, Output, to_log, to_stdout, to_stderr, new_str, head, print, eprint,
  verbose_print,
}
use twincam.Stdio.Printf.{string_printf-append}

-- The line: the uptime if it is asked for, and the text.
abbrev pub line : PrintOptions → List ℕ → List ℕ → List ℕ
line o up text = (if o.uptime then up else []) ++ text

-- What goes to the log.
abbrev pub log_of : PrintOptions → List ℕ → List Output
log_of o cs = if o.to_syslog then to_log cs ∷ [] else []

module _ (grow : ℕ → ℕ) (capacity : ℕ) (o : PrintOptions) (up : List ℕ)
    (enough : (n : ℕ) → n ≤ grow n) where
  head-line :
      (text : List ℕ)
      → (s : Str) × (head grow capacity o up text ≡ some s) × (s.chars ≡ line o up text)
  unfolding head
  head-line text = elim (Bool-cases o.uptime) [
    | inr no_up ↦
        let (s, e, c, f) = string_printf-append grow text (new_str capacity) enough (omega arith) in
        (s, ground (arith, no_up, e), ground (arith, no_up, c))
    | inl with_up ↦
        let (s1, e1, c1, f1) =
          string_printf-append grow up (new_str capacity) enough (omega arith) in
        let (s2, e2, c2, f2) = string_printf-append grow text s1 enough f1 in
        (s2, ground (arith, with_up, e1, e2), ground (arith, with_up, c1, c2))
  ]

  -- A text is printed with the uptime before it on request: the same line goes to the log, on request and first,
  -- and to the standard output, or the standard error for EPRINT. VERBOSE_PRINT prints as PRINT does, and
  -- nothing unless the output is verbose. No string is accessed out of bounds.
  pub print-line :
      (text : List ℕ)
      → let cs = line o up text in
        (print grow capacity o up text ≡ some (log_of o cs ++ (to_stdout cs ∷ [])))
        × (eprint grow capacity o up text ≡ some (log_of o cs ++ (to_stderr cs ∷ [])))
        × (verbose_print grow capacity o up text
            ≡ some (if o.verbose then log_of o cs ++ (to_stdout cs ∷ []) else []))
  unfolding print eprint verbose_print
  print-line text = let (s, e, c) = head-line text in ground (arith, e, c)
