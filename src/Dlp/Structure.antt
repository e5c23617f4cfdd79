-- ===== src/Dlp/Structure.antt =====
-- What the redaction of a document leaves of it.
use opord_ai_demo.Base.{
  String, Option, none, some, List, [], ◌∷◌, ◌++◌, ◌≡◌, refl, ap, ◌∙◌, ◌⊎◌, inl, inr, Option-cases,
  arith, ◌≢◌,
}
use opord_ai_demo.Json.{
  Json, Items, Fields, Raw, null, bool, num, text, arr, obj, nil, cons, end, field,
}
use opord_ai_demo.Dlp.Redact.{
  Engine, replace_parts, replaced, repeat, token, apply_pattern, apply_patterns, dlp_patterns,
  card_token, redact_dlp_string, walk_redact, walk_items, walk_fields, redact_dlp,
}
use opord_ai_demo.Dlp.Decode.{decode}

-- Two documents of one shape: the same but for the contents of texts.
unfoldable mutual
  pub SameShape : Json → Json → Type 0
  SameShape null null = Unit
  SameShape (bool b) (bool c) = b ≡ c
  SameShape (num n) (num m) = n ≡ m
  SameShape (text s) (text t) = Unit
  SameShape (arr xs) (arr ys) = SameItems xs ys
  SameShape (obj fs) (obj gs) = SameFields fs gs
  SameShape _ _ = ⊥

  pub SameItems : Items → Items → Type 0
  SameItems nil nil = Unit
  SameItems (cons j js) (cons k ks) = SameShape j k × SameItems js ks
  SameItems _ _ = ⊥

  pub SameFields : Fields → Fields → Type 0
  SameFields end end = Unit
  SameFields (field k v fs) (field l w gs) = (k ≡ l) × SameShape v w × SameFields fs gs
  SameFields _ _ = ⊥

mutual
  unfolding walk_redact SameShape

  shape_kept : (g : Engine) (j : Json) → SameShape j (walk_redact g j).0
  shape_kept g null = tt
  shape_kept g (bool b) = refl
  shape_kept g (num n) = refl
  shape_kept g (text s) = tt
  shape_kept g (arr xs) = items_kept g xs
  shape_kept g (obj fs) = fields_kept g fs

  items_kept : (g : Engine) (xs : Items) → SameItems xs (walk_items g xs).0
  items_kept g nil = tt
  items_kept g (cons j js) = (shape_kept g j, items_kept g js)

  fields_kept : (g : Engine) (fs : Fields) → SameFields fs (walk_fields g fs).0
  fields_kept g end = tt
  fields_kept g (field k j fs) = (refl, shape_kept g j, fields_kept g fs)

-- walkRedact changes nothing of a document but the contents of its texts: arrays keep their
-- lengths, objects their keys in order, and numbers, booleans and nulls stay as they are.
pub walk_redact-SameShape : (g : Engine) (j : Json) → SameShape j (walk_redact g j).0
walk_redact-SameShape g j = shape_kept g j

-- The pieces of a text are the whole text.
abbrev pub Whole : Engine → Type 0
Whole g =
    (name s : String) → replace_parts (λ m. none) (g.find name s).parts (g.find name s).rest ≡ s

-- Where nothing is replaced, the replacing leaves the text.
nothing_replaced :
    (f : String → Option String) (ps : List (String × String)) (rest : String)
    → replaced f ps ≡ []
    → replace_parts f ps rest ≡ replace_parts (λ m. none) ps rest
unfolding replaced replace_parts
nothing_replaced f [] rest h = refl
nothing_replaced f ((before, m) ∷ ps) rest h = elim (Option-cases (f m)) [
  | inl kept ↦ ground (arith, kept, nothing_replaced f ps rest)
  | inr (r, hit) ↦ absurd (ground (arith, hit))
]

repeat_none : (name : String) (ms : List String) → repeat name ms ≡ [] → ms ≡ []
repeat_none name [] h = refl
repeat_none name (m ∷ ms) h = absurd (cc h)

append_none : (xs ys : List String) → xs ++ ys ≡ [] → (xs ≡ []) × (ys ≡ [])
append_none [] ys h = (refl, h)
append_none (x ∷ xs) ys h = absurd (cc h)

module _ (g : Engine) (whole : Whole g) where
  pattern_kept :
      (name s : String) (f : String → Option String)
      → (apply_pattern g name f s).1 ≡ []
      → (apply_pattern g name f s).0 ≡ s
  unfolding apply_pattern
  pattern_kept name s f h =
      nothing_replaced f (g.find name s).parts (g.find name s).rest (repeat_none name _ h)
      ∙ whole name s

  patterns_kept :
      (names : List String) (s : String)
      → (apply_patterns g names s).1 ≡ []
      → (apply_patterns g names s).0 ≡ s
  unfolding apply_patterns
  patterns_kept [] s h = refl
  patterns_kept (name ∷ names) s h =
      let out = apply_pattern g name (λ m. some (token name)) s in
      let (first, others) = append_none out.1 (apply_patterns g names out.0).1 h in
      patterns_kept names out.0 others ∙ pattern_kept name s (λ m. some (token name)) first

  string_kept : (s : String) → (redact_dlp_string g s).1 ≡ [] → (redact_dlp_string g s).0 ≡ s
  unfolding redact_dlp_string
  string_kept s h =
      let out = apply_patterns g dlp_patterns s in
      let (first, cards) = append_none out.1 (apply_pattern g "credit_card" card_token out.0).1 h in
      pattern_kept "credit_card" out.0 card_token cards ∙ patterns_kept dlp_patterns s first

  mutual
    unfolding walk_redact

    no_hits : (j : Json) → (walk_redact g j).1 ≡ [] → (walk_redact g j).0 ≡ j
    no_hits null h = refl
    no_hits (bool b) h = refl
    no_hits (num n) h = refl
    no_hits (text s) h = ap (λ t. text t) (string_kept s h)
    no_hits (arr xs) h = ap (λ ys. arr ys) (no_item_hits xs h)
    no_hits (obj fs) h = ap (λ gs. obj gs) (no_field_hits fs h)

    no_item_hits : (xs : Items) → (walk_items g xs).1 ≡ [] → (walk_items g xs).0 ≡ xs
    no_item_hits nil h = refl
    no_item_hits (cons j js) h =
        let (first, others) = append_none (walk_redact g j).1 (walk_items g js).1 h in
        ap (λ k. cons k (walk_items g js).0) (no_hits j first)
        ∙ ap (λ ks. cons j ks) (no_item_hits js others)

    no_field_hits : (fs : Fields) → (walk_fields g fs).1 ≡ [] → (walk_fields g fs).0 ≡ fs
    no_field_hits end h = refl
    no_field_hits (field k j fs) h =
        let (first, others) = append_none (walk_redact g j).1 (walk_fields g fs).1 h in
        ap (λ v. field k v (walk_fields g fs).0) (no_hits j first)
        ∙ ap (λ gs. field k j gs) (no_field_hits fs others)

List-cases : (xs : List String) → (xs ≡ []) ⊎ ((x : String) × (ys : List String) × (xs ≡ x ∷ ys))
List-cases [] = inl refl
List-cases (x ∷ xs) = inr (x, xs, refl)

-- What redactDLP hands on of a document `j` that decodes to `t`: either the redacted `t`, where the
-- walk found a hit; or, where it found none, `j` as it came, and then the walk changes nothing of
-- `t`. The hits are those of the walk. The pieces that the regular expressions part a text into are
-- the whole text.
pub redact_dlp-walk_redact :
    (g : Engine) (j t : Json) (sent : Raw) (hits : List String)
    → Whole g
    → decode g.float64 j ≡ some t
    → redact_dlp g (some j) ≡ some (sent, hits)
    → (hits ≡ (walk_redact g t).1)
      × (((hits ≢ []) × (sent ≡ some (walk_redact g t).0))
          ⊎ ((hits ≡ []) × (sent ≡ some j) × ((walk_redact g t).0 ≡ t)))
unfolding redact_dlp
redact_dlp-walk_redact g j t sent hits whole decoded done = elim (List-cases (walk_redact g t).1) [
  | inl clean ↦ let kept = no_hits g whole t clean in ground (arith, decoded, clean, kept)
  | inr (h, more, found) ↦ ground (arith, decoded, found)
]
