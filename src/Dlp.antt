-- ===== src/Dlp.antt =====
-- luhnValid of internal/orchestrator/ai_dlp.go: the checksum that tells a card number.
pub mod Luhn
pub mod Decode
pub mod Redact
pub mod Structure
use Prim.Native.Char.{Char, code}
use opord_ai_demo.Base.{
  ℕ, suc, ◌+◌, ◌*◌, ◌-◌, ◌%◌, String, Bool, true, false, not, ◌&&◌, if◌then◌else◌, leb, ltb, ◌=?◌,
}

unfoldable pub is_digit : Char → Bool
is_digit c = leb b'0' (code c) && leb (code c) b'9'

-- A digit, or its double cast down to one digit.
unfoldable pub weight : Bool → ℕ → ℕ
weight false d = d
weight true d = if ltb 9 (d * 2) then d * 2 - 9 else d * 2

pub record Tally : Type 0 where
  pub sum : ℕ
  pub count : ℕ
  pub alt : Bool

unfoldable pub step : Char → Tally → Tally
unfolding is_digit weight
step c t =
    if is_digit c
    then record { sum = t.sum + weight t.alt (code c - b'0'); count = suc t.count; alt = not t.alt }
    else t

-- The loop goes from the last character to the first.
unfoldable pub luhn_loop : String → Tally
unfolding step
luhn_loop String.[] = record { sum = 0; count = 0; alt = false }
luhn_loop (String.◌∷◌ c s) = step c (luhn_loop s)

unfoldable pub luhn_valid : String → Bool
luhn_valid s = leb 13 (luhn_loop s).count && (luhn_loop s).sum % 10 =? 0
