-- ===== src/Base/Text.antt =====
-- What the program uses of Go's `strings`, on texts as lists of characters. `trim` knows every
-- white-space code point of `unicode.IsSpace`; letters are those of ASCII in `lower` and
-- `equal_fold`.
use Prim.Native.Nat.{ℕ, zero, suc, ◌-◌, ◌/◌, ◌%◌}
use Prim.Native.Char.{Char, code}
use Prim.Native.String.{String, char_at}
use mathlib.Core.Path.{◌≡◌, refl}
use mathlib.Core.Bool.{Bool, true, false, not, ◌&&◌, ◌||◌}
use mathlib.Core.Option.{Option, none, some}
use text.Mathlib.Text.{◌==◌, starts_with, find?}
use opord_ai_demo.Base.Tests.{leb, ltb, ◌=?◌, if◌then◌else◌}

-- unicode.IsSpace
unfoldable pub is_space : ℕ → Bool
is_space c =
    (leb 9 c && leb c 13)
    || c =? 32
    || c =? 0x85
    || c =? 0xA0
    || c =? 0x1680
    || (leb 0x2000 c && leb c 0x200a)
    || c =? 0x2028
    || c =? 0x2029
    || c =? 0x202f
    || c =? 0x205f
    || c =? 0x3000

unfoldable pub trim_left : String → String
unfolding is_space
trim_left String.[] = ""
trim_left (String.◌∷◌ c s) = if is_space (code c) then trim_left s else String.◌∷◌ c s

unfoldable pub trim_right : String → String
unfolding is_space
trim_right String.[] = ""
trim_right (String.◌∷◌ c s) =
    let rest = trim_right s in if is_space (code c) && rest == "" then "" else String.◌∷◌ c rest

-- strings.TrimSpace
unfoldable pub trim : String → String
unfolding trim_left trim_right
trim s = trim_right (trim_left s)

unfoldable pub lower_char : Char → Char
lower_char c =
    if leb b'A' (code c) && leb (code c) b'Z'
    then char_at "abcdefghijklmnopqrstuvwxyz" (code c - b'A')
    else c

-- strings.ToLower
unfoldable pub lower : String → String
unfolding lower_char
lower String.[] = ""
lower (String.◌∷◌ c s) = String.◌∷◌ (lower_char c) (lower s)

-- strings.EqualFold
unfoldable pub equal_fold : String → String → Bool
unfolding lower
equal_fold s t = lower s == lower t

-- strings.Contains
unfoldable pub contains : String → String → Bool
contains s t = elim (find? s t) [ none ↦ false | some _ ↦ true ]

-- strings.HasPrefix
unfoldable pub has_prefix : String → String → Bool
has_prefix s t = starts_with s t

-- The text after the last `@`: `owner[strings.LastIndex(owner, "@")+1:]`, `none` where it is -1.
unfoldable pub after_last_at : String → Option String
after_last_at String.[] = none
after_last_at (String.◌∷◌ c s) = elim (after_last_at s) [
  | some t ↦ some t
  | none ↦ if code c =? b'@' then some s else none
]

-- One text before another.
unfoldable pub glue : String → String → String
glue String.[] t = t
glue (String.◌∷◌ c s) t = String.◌∷◌ c (glue s t)

-- `len(s)`, of a text of ASCII characters.
unfoldable pub text_length : String → ℕ
text_length String.[] = 0
text_length (String.◌∷◌ c s) = suc (text_length s)

-- `s[:n]`
unfoldable pub text_front : ℕ → String → String
text_front zero s = ""
text_front (suc n) String.[] = ""
text_front (suc n) (String.◌∷◌ c s) = String.◌∷◌ c (text_front n s)

-- `s[n:]`
unfoldable pub text_from : ℕ → String → String
text_from zero s = s
text_from (suc n) String.[] = ""
text_from (suc n) (String.◌∷◌ c s) = text_from n s

abbrev digit : ℕ → String
digit n = String.◌∷◌ (char_at "0123456789" n) ""

-- The last digits of a number, as many as there is fuel for.
unfoldable pub digits : ℕ → ℕ → String
digits zero n = ""
digits (suc k) n =
    let front = digits k (n / 10) in if ltb n 10 then digit n else glue front (digit (n % 10))

-- `%d`. A number has no more digits than it is large.
abbrev pub decimal : ℕ → String
decimal n = digits (suc n) n

abbrev pub non_empty : String → Bool
non_empty s = not (s == "")

-- `if s == "" { s = d }`, and firstNonEmpty at two values.
abbrev pub or_else : String → String → String
or_else s d = if s == "" then d else s

trims : trim " \t a b \n" ≡ "a b"
unfolding trim
trims = refl

folds : equal_fold "Block" "bLOCK" ≡ true
unfolding equal_fold
folds = refl

has : contains "openai/gpt-4o-mini" "gpt-4o" ≡ true
unfolding contains
has = refl

prints : (decimal 0 ≡ "0") × (decimal 407 ≡ "407")
unfolding digits glue
prints = (refl, refl)
