-- ===== src/Wire/Text/Fields.antt =====
-- What a character field keeps of a string, and what is read back from it.
use qt_linux_im_project.Base.{
  ℕ, zero, suc, ◌-◌, ◌≤◌, ◌<◌, ◌≡◌, refl, ap, ◌∙◌, true, inl, inr, [], ◌∷◌, ◌++◌, Bytes, ◌==◌,
  arith, Bool-cases, length, length-append, length-take, length-replicate, take, take-append_length,
  take-length,
}
use qt_linux_im_project.Wire.Text.{
  bounded_strnlen, text_of, c_str, strncpy, c_field, terminate, no_nul,
}

length-strncpy : (n : ℕ) (s : Bytes) → length (strncpy n s) ≡ n
unfolding strncpy
length-strncpy zero s = refl
length-strncpy (suc n) [] = ap suc (length-strncpy n [])
length-strncpy (suc n) (c ∷ s) = ground (arith, length-strncpy n s, length-replicate {A = ℕ} n 0)

-- A field is as long as its array.
pub length-c_field : (n : ℕ) (s : Bytes) → 1 ≤ n → length (c_field n s) ≡ n
unfolding c_field
length-c_field n s h =
    omega (arith, length-append (strncpy (n - 1) s) (0 ∷ []), length-strncpy (n - 1) s)

pub length-terminate : (n : ℕ) (f : Bytes) → 1 ≤ n → n ≤ length f → length (terminate n f) ≡ n
unfolding terminate
length-terminate n f h k =
    omega (arith, length-append (take (n - 1) f) (0 ∷ []), length-take (n - 1) f)

-- The packers leave the last character NUL, so the parsers' own NUL changes nothing.
pub terminate-c_field : (n : ℕ) (s : Bytes) → terminate n (c_field n s) ≡ c_field n s
unfolding terminate c_field
terminate-c_field n s =
    rw (take-append_length (n - 1) (strncpy (n - 1) s) (0 ∷ []) (length-strncpy (n - 1) s))

text-strncpy : (n : ℕ) (s : Bytes) → text_of (suc n) (strncpy n s ++ 0 ∷ []) ≡ take n (c_str s)
unfolding text_of bounded_strnlen strncpy c_str take
text-strncpy zero s = refl
text-strncpy (suc n) [] = refl
text-strncpy (suc n) (c ∷ s) = elim (Bool-cases (c == 0)) [
  | inl e ↦ ground (arith)
  | inr e ↦ rw (e, e) (ap (◌∷◌ c) (text-strncpy n s))
]

-- An array of at least one character reads back as the string that was copied into it, up to its
-- first NUL and cut to one character less than the array.
pub text_of-c_field : (n : ℕ) (s : Bytes) → 1 ≤ n → text_of n (c_field n s) ≡ take (n - 1) (c_str s)
unfolding c_field
text_of-c_field zero s h = elim h [ ]
text_of-c_field (suc n) s h = rw (pred_suc n) (text-strncpy n s)
  where
    pred_suc : (n : ℕ) → suc n - 1 ≡ n
    pred_suc n = omega arith

pub c_str_id : (s : Bytes) → no_nul s ≡ true → c_str s ≡ s
unfolding c_str
c_str_id [] h = refl
c_str_id (c ∷ s) h = ground (arith, c_str_id s)

-- A string with no NUL that fits its field survives.
pub text_of-c_field_fits :
    (n : ℕ) (s : Bytes) → no_nul s ≡ true → length s < n → text_of n (c_field n s) ≡ s
text_of-c_field_fits n s h k =
    text_of-c_field n s (omega arith) ∙ rw (c_str_id s h) (take-length (n - 1) s (omega arith))

no_nul-c_str : (s : Bytes) → no_nul (c_str s) ≡ true
unfolding c_str
no_nul-c_str [] = refl
no_nul-c_str (c ∷ s) = ground (arith, no_nul-c_str s)

bounded-c_str : (n : ℕ) (f : Bytes) → take (bounded_strnlen f n) f ≡ take n (c_str f)
unfolding bounded_strnlen c_str take
bounded-c_str zero [] = refl
bounded-c_str (suc n) [] = refl
bounded-c_str zero (c ∷ f) = refl
bounded-c_str (suc n) (c ∷ f) = elim (Bool-cases (c == 0)) [
  | inl e ↦ rw e
  | inr e ↦ rw e (ap (◌∷◌ c) (bounded-c_str n f))
]

no_nul-take : (n : ℕ) (s : Bytes) → no_nul s ≡ true → no_nul (take n s) ≡ true
unfolding take
no_nul-take zero s h = refl
no_nul-take (suc n) [] h = refl
no_nul-take (suc n) (c ∷ s) h = ground (arith, no_nul-take n s)

-- Whatever the array holds, the string that is read from it has no NUL.
pub text_of-no_nul : (n : ℕ) (f : Bytes) → no_nul (text_of n f) ≡ true
unfolding text_of
text_of-no_nul n f = rw (bounded-c_str n f) (no_nul-take n (c_str f) (no_nul-c_str f))

bounded-lt : (n : ℕ) (f : Bytes) → bounded_strnlen (take n f ++ 0 ∷ []) (suc n) ≤ n
unfolding bounded_strnlen take
bounded-lt zero f = omega arith
bounded-lt (suc n) [] = omega arith
bounded-lt (suc n) (c ∷ f) = ground (arith, bounded-lt n f)

-- The string that is read from an array that a parser has terminated at its `n`-th character, `n`
-- at least 1, is shorter than `n`.
pub length-text_of-terminate : (n : ℕ) (f : Bytes) → 1 ≤ n → length (text_of n (terminate n f)) < n
unfolding text_of terminate
length-text_of-terminate zero f h = elim h [ ]
length-text_of-terminate (suc n) f h = rw (pred_suc n) (
    omega (
      arith,
      length-take (bounded_strnlen (take n f ++ 0 ∷ []) (suc n)) (take n f ++ 0 ∷ []),
      bounded-lt n f,
    ))
  where
    pred_suc : (n : ℕ) → suc n - 1 ≡ n
    pred_suc n = omega arith

c_str-strncpy :
    (n : ℕ) (s : Bytes) → no_nul s ≡ true → length s ≤ n → c_str (strncpy n s ++ 0 ∷ []) ≡ s
unfolding c_str strncpy
c_str-strncpy zero [] h l = refl
c_str-strncpy zero (c ∷ s) h l = elim l [ ]
c_str-strncpy (suc n) [] h l = refl
c_str-strncpy (suc n) (c ∷ s) h l = elim (Bool-cases (c == 0)) [
  | inl e ↦ ground arith
  | inr e ↦ rw (e, e) (ap (◌∷◌ c) (c_str-strncpy n s (ground arith) (omega arith)))
]

-- Such a string is what the array shows as a C string too.
pub c_str-c_field_fits :
    (n : ℕ) (s : Bytes) → no_nul s ≡ true → length s < n → c_str (c_field n s) ≡ s
unfolding c_field
c_str-c_field_fits n s h l = c_str-strncpy (n - 1) s h (omega arith)
