-- ===== src/Dlp/Luhn.antt =====
-- The checksum finds every wrong digit.
use Prim.Native.Char.{Char, code}
use opord_ai_demo.Base.{
  glue, ℕ, ◌+◌, ◌-◌, ◌%◌, ◌≤◌, ◌≡◌, refl, ◌≢◌, String, Bool, true, false, ◌=?◌, inl, inr,
  Bool-cases, arith,
}
use opord_ai_demo.Dlp.{is_digit, weight, Tally, step, luhn_loop, luhn_valid}

-- Two tallies that differ in their sums alone, by what the two numbers differ by.
record Apart (v w : ℕ) (s t : Tally) : Type 0 where
  sums : s.sum + w ≡ t.sum + v
  counts : s.count ≡ t.count
  alts : s.alt ≡ t.alt

step-Apart : (v w : ℕ) (c : Char) (s t : Tally) → Apart v w s t → Apart v w (step c s) (step c t)
unfolding step
step-Apart v w c s t a = elim (Bool-cases (is_digit c)) [
  | inl digit ↦ rw digit (record {
    sums = ground (arith, a.sums, a.alts);
    counts = ground (arith, a.counts);
    alts = ground (arith, a.alts);
  })
  | inr other ↦ rw other a
]

loop-Apart :
    (v w : ℕ) (pre s t : String)
    → Apart v w (luhn_loop s) (luhn_loop t)
    → Apart v w (luhn_loop (glue pre s)) (luhn_loop (glue pre t))
unfolding luhn_loop glue
loop-Apart v w String.[] s t a = a
loop-Apart v w (String.◌∷◌ c pre) s t a = step-Apart v w c _ _ (loop-Apart v w pre s t a)

weights_differ :
    (alt : Bool) (d f : ℕ) → d ≤ 9 → f ≤ 9 → d ≢ f → weight alt d % 10 ≢ weight alt f % 10
unfolding weight
weights_differ false d f hd hf h = λ q. h (omega arith)
weights_differ true d f hd hf h = λ q. h (ground arith)

-- A number that is checked at ten, and another that is off by two digits' weights.
off_by : (s t v w : ℕ) → s + w ≡ t + v → s % 10 ≡ 0 → v % 10 ≢ w % 10 → (t % 10 =? 0) ≡ false
off_by s t v w sums checked differ = elim (Bool-cases (t % 10 =? 0)) [
  | inl also ↦ let zero_rest : t % 10 ≡ 0 = ground arith in absurd (differ (omega arith))
  | inr no_more ↦ no_more
]

digit_value : (c : Char) → is_digit c ≡ true → (b'0' ≤ code c) × (code c - b'0' ≤ 9)
unfolding is_digit
digit_value c h = ground arith

replaced :
    (c d : Char) (post : String)
    → is_digit c ≡ true
    → is_digit d ≡ true
    → Apart
        (weight (luhn_loop post).alt (code c - b'0'))
        (weight (luhn_loop post).alt (code d - b'0'))
        (luhn_loop (String.◌∷◌ c post))
        (luhn_loop (String.◌∷◌ d post))
unfolding luhn_loop step
replaced c d post hc hd = rw (hc, hd) (record { sums = omega arith; counts = refl; alts = refl })

invalid :
    (v w : ℕ) (s t : String)
    → Apart v w (luhn_loop s) (luhn_loop t)
    → v % 10 ≢ w % 10
    → luhn_valid s ≡ true
    → luhn_valid t ≡ false
unfolding luhn_valid
invalid v w s t a differ valid =
    let off = off_by (luhn_loop s).sum (luhn_loop t).sum v w a.sums (ground arith) differ in
    ground (arith, off)

-- One wrong digit is always found: where a text passes the Luhn test, the text with one of its
-- digits replaced by another digit does not.
pub luhn_valid-digit :
    (pre post : String) (c d : Char)
    → is_digit c ≡ true
    → is_digit d ≡ true
    → code c ≢ code d
    → luhn_valid (glue pre (String.◌∷◌ c post)) ≡ true
    → luhn_valid (glue pre (String.◌∷◌ d post)) ≡ false
luhn_valid-digit pre post c d hc hd differ valid =
    let alt = (luhn_loop post).alt in
    let (low, small) = digit_value c hc in
    let (low', small') = digit_value d hd in
    invalid (weight alt (code c - b'0')) (weight alt (code d - b'0')) (glue pre (String.◌∷◌ c post))
      (glue pre (String.◌∷◌ d post))
      (loop-Apart _ _ pre (String.◌∷◌ c post) (String.◌∷◌ d post) (replaced c d post hc hd))
      (weights_differ alt (code c - b'0') (code d - b'0') small small' (λ q. differ (omega arith)))
      valid
