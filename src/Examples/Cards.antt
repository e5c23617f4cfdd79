-- ===== src/Examples/Cards.antt =====
-- A run of the theorem on card numbers.
use Prim.Native.String.{String}
use opord_ai_demo.Base.{glue, true, false, ◌≡◌, refl, arith}
use opord_ai_demo.Dlp.{is_digit, luhn_loop, luhn_valid, step, weight}
use opord_ai_demo.Dlp.Luhn.{luhn_valid-digit}

card_passes : luhn_valid (glue "411111111111111" (String.◌∷◌ "1" "")) ≡ true
unfolding luhn_valid luhn_loop step weight glue
card_passes = refl

luhn_valid-digit_example : luhn_valid (glue "411111111111111" (String.◌∷◌ "2" "")) ≡ false
luhn_valid-digit_example =
    luhn_valid-digit "411111111111111" "" "1" "2" (unfold is_digit in refl)
      (unfold is_digit in refl) (omega arith) card_passes
