-- ===== src/Prelude/Text.antt =====
-- Python texts as native strings. `len`, slices and `str` of a number go by characters, as in
-- Python; the native operations of those names count bytes.
use Prim.Native.Nat.{ℕ, zero, suc, ◌+◌, ◌≤◌, ◌/◌, ◌%◌}
use Prim.Native.String.{String}
use mathlib.Core.Path.{◌≡◌, refl}
use mathlib.Core.Bool.{Bool, true, false}
use native.Mathlib.Omega.{arith}

-- `len(text)`
abbrev pub text_length : String → ℕ
text_length String.[] = 0
text_length (String.◌∷◌ c s) = suc (text_length s)

-- `text[:n]`
abbrev pub text_take : ℕ → String → String
text_take zero s = String.[]
text_take (suc n) String.[] = String.[]
text_take (suc n) (String.◌∷◌ c s) = String.◌∷◌ c (text_take n s)

-- `a + b` on texts
infixr 65 ◌⧺◌
abbrev pub ◌⧺◌ : String → String → String
String.[] ⧺ t = t
(String.◌∷◌ c s) ⧺ t = String.◌∷◌ c (s ⧺ t)

-- `not text`
abbrev pub is_blank : String → Bool
is_blank String.[] = true
is_blank (String.◌∷◌ c s) = false

abbrev pub digit : ℕ → String
digit zero = "0"
digit (suc zero) = "1"
digit (suc (suc zero)) = "2"
digit (suc (suc (suc zero))) = "3"
digit (suc (suc (suc (suc zero)))) = "4"
digit (suc (suc (suc (suc (suc zero))))) = "5"
digit (suc (suc (suc (suc (suc (suc zero)))))) = "6"
digit (suc (suc (suc (suc (suc (suc (suc zero))))))) = "7"
digit (suc (suc (suc (suc (suc (suc (suc (suc zero)))))))) = "8"
digit _ = "9"

-- the digits of `n`, most significant first; `fuel` bounds their number
unfoldable pub decimal_digits : ℕ → ℕ → String
decimal_digits zero n = String.[]
decimal_digits (suc fuel) zero = String.[]
decimal_digits (suc fuel) (suc n) = decimal_digits fuel (suc n / 10) ⧺ digit (suc n % 10)

-- `str(n)`: a number has at most as many digits as its value
unfoldable pub decimal : ℕ → String
unfolding decimal_digits
decimal zero = "0"
decimal (suc n) = decimal_digits (suc n) (suc n)

decimal_runs : (decimal 0 ≡ "0") × (decimal 7 ≡ "7") × (decimal 1030 ≡ "1030")
unfolding decimal
decimal_runs = (refl, refl, refl)

pub text_length-append : (s t : String) → text_length (s ⧺ t) ≡ text_length s + text_length t
text_length-append String.[] t = omega arith
text_length-append (String.◌∷◌ c s) t = omega (arith, text_length-append s t)

pub text_length-take-le : (n : ℕ) (s : String) → text_length (text_take n s) ≤ n
text_length-take-le zero s = omega arith
text_length-take-le (suc n) String.[] = omega arith
text_length-take-le (suc n) (String.◌∷◌ c s) = omega (arith, text_length-take-le n s)
