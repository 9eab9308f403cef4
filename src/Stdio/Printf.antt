-- ===== src/Stdio/Printf.antt =====
-- STRING_PRINTF appends (src/twncm_stdio.h).
use twincam.Base.{
  ℕ, zero, suc, ◌+◌, ◌-◌, ◌≤◌, ◌≡◌, refl, ◌∙◌, ap, some, List, [], ◌∷◌, ◌++◌, length, length-append,
  arith,
}
use twincam.Stdio.{Str, sized, resize, printed, write_over, write_at, snprintf_at, string_printf}

length-sized : (n : ℕ) (cs : List ℕ) → length (sized n cs) ≡ n
unfolding sized
length-sized zero cs = refl
length-sized (suc n) [] = ap suc (length-sized n [])
length-sized (suc n) (c ∷ cs) = ap suc (length-sized n cs)

-- To make a list longer and then of a length, but no shorter than it was, keeps it.
sized-sized :
    (n m t : ℕ) (cs : List ℕ)
    → length cs ≤ n
    → length cs + t ≡ m
    → (rest : List ℕ) × (sized m (sized n cs) ≡ cs ++ rest) × (length rest ≡ t)
unfolding sized
sized-sized n m t [] long e =
    (sized m (sized n []), refl, length-sized m (sized n []) ∙ omega (arith, e))
sized-sized zero m t (c ∷ cs) long e = absurd (omega (arith, long))
sized-sized (suc n) zero t (c ∷ cs) long e = absurd (omega (arith, e))
sized-sized (suc n) (suc m) t (c ∷ cs) long e =
    let (rest, same, size) = sized-sized n m t cs (omega (arith, long)) (omega (arith, e)) in
    (rest, ap (λ l. c ∷ l) same, size)

-- A text and its zero fill the rest of a string.
write_over-printed :
    (text rest : List ℕ)
    → length rest ≡ length text
    → write_over (printed (suc (length text)) text) rest ≡ some text
unfolding write_over printed
write_over-printed [] [] e = refl
write_over-printed [] (r ∷ rest) e = absurd (omega (arith, e))
write_over-printed (c ∷ text) [] e = absurd (omega (arith, e))
write_over-printed (c ∷ text) (r ∷ rest) e =
    ground (arith, write_over-printed text rest (omega (arith, e)))

write_at-append :
    (cs bs rest new : List ℕ)
    → write_over bs rest ≡ some new
    → write_at (length cs) bs (cs ++ rest) ≡ some (cs ++ new)
unfolding write_at
write_at-append [] bs rest new e = e
write_at-append (c ∷ cs) bs rest new e = ground (arith, write_at-append cs bs rest new e)

write_at-nil : (p : ℕ) (cs : List ℕ) → p ≤ length cs → write_at p [] cs ≡ some cs
unfolding write_at write_over
write_at-nil zero cs small = refl
write_at-nil (suc p) [] small = absurd (omega (arith, small))
write_at-nil (suc p) (c ∷ cs) small = ground (arith, write_at-nil p cs (omega (arith, small)))

-- No capacity is left after the first `resize`, and the first `snprintf` writes nothing.
first_print :
    (grow : ℕ → ℕ) (text : List ℕ) (s : Str)
    → length s.chars ≤ s.capacity
    → let s1 = resize grow s.capacity s in
      (s1.capacity - length s1.chars ≡ 0)
      × (snprintf_at (length s.chars) 0 text s1 ≡ some s1)
      × (s1.capacity ≡ s.capacity)
unfolding resize snprintf_at printed
first_print grow text s fits =
    let long = length-sized s.capacity s.chars in
    let written =
      write_at-nil (length s.chars) (sized s.capacity s.chars) (omega (arith, fits, long)) in
    ground (arith, long, written)

-- After the second `resize` there is room for the text, which the second `snprintf` writes.
second_print :
    (grow : ℕ → ℕ) (text : List ℕ) (s : Str)
    → length s.chars ≤ s.capacity
    → let s3 = resize grow (length s.chars + length text) (resize grow s.capacity s) in
      snprintf_at (length s.chars) (suc (length text)) text s3
      ≡ some (record s3 { chars = s.chars ++ text })
unfolding resize snprintf_at
second_print grow text s fits =
    let (rest, kept, size) =
      sized-sized s.capacity (length s.chars + length text) (length text) s.chars fits refl in
    let written =
      write_at-append s.chars (printed (suc (length text)) text) rest text
        (write_over-printed text rest size) in
    ground (arith, kept, written)

-- The capacity is then enough.
room : (grow : ℕ → ℕ) (m : ℕ) (s : Str) → ((n : ℕ) → n ≤ grow n) → m ≤ (resize grow m s).capacity
unfolding resize
room grow m s enough = ground (arith, enough m)

-- STRING_PRINTF appends the text to the string, whatever the capacity is: no write is out of the string, the
-- characters are the old ones and then the text, and they fit into the new capacity. This supposes that a string
-- that has to grow gets the capacity that it needs.
pub string_printf-append :
    (grow : ℕ → ℕ) (text : List ℕ) (s : Str)
    → ((n : ℕ) → n ≤ grow n)
    → length s.chars ≤ s.capacity
    → (s' : Str) × (string_printf grow text s ≡ some s')
      × (s'.chars ≡ s.chars ++ text)
      × (length s'.chars ≤ s'.capacity)
unfolding string_printf
string_printf-append grow text s enough fits =
    let (full, nothing, same) = first_print grow text s fits in
    let s3 = resize grow (length s.chars + length text) (resize grow s.capacity s) in
    let second = second_print grow text s fits in
    (
      record s3 { chars = s.chars ++ text },
      ground (arith, full, nothing, second),
      refl,
      omega (
        arith,
        length-append s.chars text,
        room grow (length s.chars + length text) (resize grow s.capacity s) enough,
      ),
    )
