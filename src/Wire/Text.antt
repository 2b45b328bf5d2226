-- ===== src/Wire/Text.antt =====
-- Character arrays: `boundedStrnlen` of server/src/utils.h, and the copies in and out of the
-- `char` fields of the structs, which every packer and parser makes.
pub mod Fields
use qt_linux_im_project.Base.{
  ℕ, zero, suc, ◌-◌, List, [], ◌∷◌, ◌++◌, Bytes, ◌==◌, if◌then◌else◌, take, replicate, true, Bool,
  not, ◌&&◌,
}

-- `while (len < max_len && s[len] != '\0') ++len;`. The arrays that it is called on have `max_len`
-- characters, so the first clause is not reached there.
unfoldable pub bounded_strnlen : Bytes → ℕ → ℕ
bounded_strnlen [] max_len = 0
bounded_strnlen (c ∷ s) zero = 0
bounded_strnlen (c ∷ s) (suc max_len) = if c == 0 then 0 else suc (bounded_strnlen s max_len)

-- `std::string(f, boundedStrnlen(f, n))`.
unfoldable pub text_of : ℕ → Bytes → Bytes
text_of n f = take (bounded_strnlen f n) f

-- What `c_str()` shows of a string, and what a `char` array is as a `std::string`: up to the
-- first NUL.
unfoldable pub c_str : Bytes → Bytes
c_str [] = []
c_str (c ∷ s) = if c == 0 then [] else c ∷ c_str s

-- `std::strncpy(dst, s.c_str(), n)`: the `n` characters that it writes.
unfoldable pub strncpy : ℕ → Bytes → Bytes
strncpy zero s = []
strncpy (suc n) [] = 0 ∷ strncpy n []
strncpy (suc n) (c ∷ s) = if c == 0 then 0 ∷ replicate n 0 else c ∷ strncpy n s

-- A field of `n` characters, cleared by `memset` and filled by
-- `std::strncpy(field, s.c_str(), sizeof(field) - 1)`.
unfoldable pub c_field : ℕ → Bytes → Bytes
c_field n s = strncpy (n - 1) s ++ 0 ∷ []

-- `field[sizeof(field) - 1] = '\0'` on a field of `n` characters.
unfoldable pub terminate : ℕ → Bytes → Bytes
terminate n f = take (n - 1) f ++ 0 ∷ []

-- A string that holds no NUL.
abbrev pub no_nul : Bytes → Bool
no_nul [] = true
no_nul (c ∷ s) = not (c == 0) && no_nul s
