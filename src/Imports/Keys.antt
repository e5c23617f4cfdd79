-- ===== src/Imports/Keys.antt =====
-- The line items that the two cost APIs give carry their import keys.
use opord_ai_demo.Base.{ℕ, suc, Option, none, some, List, [], ◌∷◌, ◌++◌, refl, All, trim}
use opord_ai_demo.Base.Int.{ℤ}
use opord_ai_demo.Json.{entry}
use opord_ai_demo.Db.Access.{raw_text}
use opord_ai_demo.Provision.Spec.{Parsers}
use opord_ai_demo.Imports.Rows.{CostRow}
use opord_ai_demo.Imports.Pages.{
  OpenAiItem, OpenAiBucket, openai_row, openai_items, openai_rows, AnthropicItem, AnthropicBucket,
  AnthropicReader, anthropic_row, anthropic_items, anthropic_rows,
}
use opord_ai_demo.Imports.Again.{Keyed}

All-append : (xs ys : List CostRow) → All Keyed xs → All Keyed ys → All Keyed (xs ++ ys)
All-append [] ys all rest = rest
All-append (x ∷ xs) ys all rest = (all.0, All-append xs ys all.1 rest)

openai_items-Keyed :
    (b : OpenAiBucket) (idx : ℕ) (is : List OpenAiItem) → All Keyed (openai_items b idx is)
unfolding openai_items openai_row raw_text entry
openai_items-Keyed b idx [] = tt
openai_items-Keyed b idx (i ∷ is) = (refl, openai_items-Keyed b (suc idx) is)

pub openai_rows-Keyed : (bs : List OpenAiBucket) → All Keyed (openai_rows bs)
unfolding openai_rows
openai_rows-Keyed [] = tt
openai_rows-Keyed (b ∷ bs) =
    All-append (openai_items b 0 b.results) (openai_rows bs) (openai_items-Keyed b 0 b.results)
      (openai_rows-Keyed bs)

item-Keyed :
    (ps : Parsers) (rd : AnthropicReader) (b : AnthropicBucket) (idx : ℕ) (i : AnthropicItem)
    (rest : List CostRow) (amount : Option ℤ)
    → All Keyed rest
    → All Keyed (elim amount [ none ↦ rest | some usd ↦ anthropic_row ps rd b idx i usd ∷ rest ])
unfolding anthropic_row raw_text entry
item-Keyed ps rd b idx i rest none all = all
item-Keyed ps rd b idx i rest (some usd) all = (refl, all)

anthropic_items-Keyed :
    (ps : Parsers) (rd : AnthropicReader) (b : AnthropicBucket) (idx : ℕ) (is : List AnthropicItem)
    → All Keyed (anthropic_items ps rd b idx is)
unfolding anthropic_items
anthropic_items-Keyed ps rd b idx [] = tt
anthropic_items-Keyed ps rd b idx (i ∷ is) =
    item-Keyed ps rd b idx i (anthropic_items ps rd b (suc idx) is)
      (rd.parse_amount (trim i.amount)) (anthropic_items-Keyed ps rd b (suc idx) is)

pub anthropic_rows-Keyed :
    (ps : Parsers) (rd : AnthropicReader) (bs : List AnthropicBucket)
    → All Keyed (anthropic_rows ps rd bs)
unfolding anthropic_rows
anthropic_rows-Keyed ps rd [] = tt
anthropic_rows-Keyed ps rd (b ∷ bs) =
    All-append (anthropic_items ps rd b 0 b.results) (anthropic_rows ps rd bs)
      (anthropic_items-Keyed ps rd b 0 b.results) (anthropic_rows-Keyed ps rd bs)
