-- ===== src/Dlp/Decode.antt =====
-- json.Unmarshal into an `any`, as redactDLP of internal/orchestrator/ai_dlp.go calls it: of the
-- entries of an object with one key the last stays, and a number becomes a float64. `float64` gives
-- the value of a number, `none` out of range, which fails the whole document.
use opord_ai_demo.Base.{String, Option, none, some}
use opord_ai_demo.Base.Int.{ℤ}
use opord_ai_demo.Json.{
  Json, Items, Fields, null, bool, num, text, arr, obj, nil, cons, end, field, entry, map_some,
}

-- An entry in front of the decoded ones of its object: a later one of its key takes its place.
unfoldable pub put_entry : String → Json → Fields → Fields
put_entry k v fs = elim (entry k fs) [ none ↦ field k v fs | some w ↦ fs ]

unfoldable mutual
  unfolding put_entry

  pub decode : (ℤ → Option ℤ) → Json → Option Json
  decode float64 null = some null
  decode float64 (bool b) = some (bool b)
  decode float64 (num n) = map_some (λ m. num m) (float64 n)
  decode float64 (text s) = some (text s)
  decode float64 (arr xs) = map_some (λ ys. arr ys) (decode_items float64 xs)
  decode float64 (obj fs) = map_some (λ gs. obj gs) (decode_fields float64 fs)

  pub decode_items : (ℤ → Option ℤ) → Items → Option Items
  decode_items float64 nil = some nil
  decode_items float64 (cons j js) =
      let rest = decode_items float64 js in
      elim (decode float64 j) [ none ↦ none | some k ↦ map_some (λ ks. cons k ks) rest ]

  pub decode_fields : (ℤ → Option ℤ) → Fields → Option Fields
  decode_fields float64 end = some end
  decode_fields float64 (field k j fs) =
      let rest = decode_fields float64 fs in
      elim (decode float64 j) [ none ↦ none | some v ↦ map_some (put_entry k v) rest ]
