-- ===== src/Text.antt =====
-- The formatting that the services use: `%d` of an integer, and identifiers made of it.
use Prim.Native.String.{◌++◌}
use text.Mathlib.Text.{find?}
use theme_park_nftengine.Prelude.{
  ℕ, zero, suc, ◌-◌, ◌/◌, ◌%◌, ◌^◌, String, ltb, leb, if◌then◌else◌, ◌≡◌, refl, Bool, true, false,
  none, some,
}

-- `strings.Contains`.
abbrev pub text_contains : String → String → Bool
text_contains s part = elim (find? s part) [ none ↦ false | some _ ↦ true ]

digit : ℕ → String
digit zero = "0"
digit (suc zero) = "1"
digit (suc (suc zero)) = "2"
digit (suc (suc (suc zero))) = "3"
digit (suc (suc (suc (suc zero)))) = "4"
digit (suc (suc (suc (suc (suc zero))))) = "5"
digit (suc (suc (suc (suc (suc (suc zero)))))) = "6"
digit (suc (suc (suc (suc (suc (suc (suc zero))))))) = "7"
digit (suc (suc (suc (suc (suc (suc (suc (suc zero)))))))) = "8"
digit _ = "9"

-- `%d`; a number has fewer digits than it counts.
itoa_from : ℕ → ℕ → String → String
unfolding digit
itoa_from zero n acc = acc
itoa_from (suc fuel) n acc =
    let shown = digit (n % 10) ++ acc in
    let rest = itoa_from fuel (n / 10) shown in if ltb n 10 then shown else rest

unfoldable pub itoa : ℕ → String
unfolding itoa_from
itoa n = itoa_from (suc n) n ""

-- `%d` of a 64-bit pattern, read as a signed integer.
unfoldable pub itoa_64 : ℕ → String
unfolding itoa
itoa_64 w = if leb (2 ^ 63) w then "-" ++ itoa (2 ^ 64 - w) else itoa w

itoa_digits : itoa 1024 ≡ "1024"
unfolding itoa
itoa_digits = refl

itoa_64_negative : itoa_64 (2 ^ 64 - 35) ≡ "-35"
unfolding itoa_64
itoa_64_negative = refl
