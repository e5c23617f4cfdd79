-- ===== src/Imports/Pagination.antt =====
-- The loop over the pages of a cost report reads them all, and the rows carry their import keys.
use opord_ai_demo.Base.{
  ℕ, zero, suc, ◌≤◌, String, true, false, List, [], ◌∷◌, ◌++◌, ◌≡◌, refl, sym, ◌∙◌, inl, inr,
  Result, ok, err, Exec, continue, All, length, Option-cases, Result-cases, arith, trim,
}
use opord_ai_demo.Base.Int.{ℤ}
use opord_ai_demo.Json.{entry}
use opord_ai_demo.Db.{Env, Db, no_rows, violation, failed}
use opord_ai_demo.Db.Access.{raw_text, usage_by_import_key, create_usage_row}
use opord_ai_demo.Provision.Spec.{Parsers}
use opord_ai_demo.Imports.Rows.{ImportError, Counts, CostRow, usage_row_of, import_rows}
use opord_ai_demo.Imports.Pages.{
  OpenAiItem, OpenAiBucket, openai_row, openai_items, openai_rows, AnthropicItem, AnthropicBucket,
  AnthropicCostReport, AnthropicReader, anthropic_row, anthropic_items, anthropic_rows, Fetch,
  read_answer, is_last, next_page, import_pages,
}
use opord_ai_demo.Imports.Again.{Keyed}

All-append : (xs ys : List CostRow) → All Keyed xs → All Keyed ys → All Keyed (xs ++ ys)
All-append [] ys p q = q
All-append (x ∷ xs) ys p q = (p.0, All-append xs ys p.1 q)

openai_items-Keyed :
    (b : OpenAiBucket) (idx : ℕ) (is : List OpenAiItem) → All Keyed (openai_items b idx is)
unfolding openai_items openai_row raw_text entry
openai_items-Keyed b idx [] = tt
openai_items-Keyed b idx (i ∷ is) = (refl, openai_items-Keyed b (suc idx) is)

pub openai_rows-Keyed : (bs : List OpenAiBucket) → All Keyed (openai_rows bs)
unfolding openai_rows
openai_rows-Keyed [] = tt
openai_rows-Keyed (b ∷ bs) =
    All-append (openai_items b 0 b.results) (openai_rows bs) (openai_items-Keyed b 0 b.results)
      (openai_rows-Keyed bs)

anthropic_row-Keyed :
    (ps : Parsers) (rd : AnthropicReader) (b : AnthropicBucket) (idx : ℕ) (i : AnthropicItem)
    (usd : ℤ)
    → Keyed (anthropic_row ps rd b idx i usd)
unfolding anthropic_row raw_text entry
anthropic_row-Keyed ps rd b idx i usd = refl

anthropic_items-Keyed :
    (ps : Parsers) (rd : AnthropicReader) (b : AnthropicBucket) (idx : ℕ) (is : List AnthropicItem)
    → All Keyed (anthropic_items ps rd b idx is)
unfolding anthropic_items
anthropic_items-Keyed ps rd b idx [] = tt
anthropic_items-Keyed ps rd b idx (i ∷ is) = elim (Option-cases (rd.parse_amount (trim i.amount))) [
  | inl bad ↦ rw (anthropic_items, bad) (anthropic_items-Keyed ps rd b (suc idx) is)
  | inr (usd, good) ↦
      rw (anthropic_items, good)
        (anthropic_row-Keyed ps rd b idx i usd, anthropic_items-Keyed ps rd b (suc idx) is)
]

pub anthropic_rows-Keyed :
    (ps : Parsers) (rd : AnthropicReader) (bs : List AnthropicBucket)
    → All Keyed (anthropic_rows ps rd bs)
unfolding anthropic_rows
anthropic_rows-Keyed ps rd [] = tt
anthropic_rows-Keyed ps rd (b ∷ bs) =
    All-append (anthropic_items ps rd b 0 b.results) (anthropic_rows ps rd bs)
      (anthropic_items-Keyed ps rd b 0 b.results) (anthropic_rows-Keyed ps rd bs)

-- Importing two lists in turn is importing the one after the other.
import_rows-append :
    (e : Env) (id : ℕ) (rs ss : List CostRow) (c : Counts) (db : Db)
    → import_rows e id (rs ++ ss) c db
      ≡ continue (import_rows e id rs c db).0 (import_rows e id ss) (import_rows e id rs c db).1
unfolding import_rows
import_rows-append e id [] ss c db = refl
import_rows-append e id (r ∷ rs) ss c db =
    elim (Result-cases (usage_by_import_key e id r.start r.until "cost_usd" r.import_key db)) [
      | inl (u, found) ↦ rw found (import_rows-append e id rs ss _ db)
      | inr (no_rows, new) ↦ elim (Result-cases (create_usage_row e (usage_row_of id r) db).0) [
        | inl (u, made) ↦ rw (new, made) (import_rows-append e id rs ss _ _)
        | inr (x, down) ↦ rw (new, down) refl
      ]
      | inr (violation, down) ↦ rw down refl
      | inr (failed, down) ↦ rw down refl
    ]

-- The pages of a report, from a page on: the reports that the API answers, one after the other,
-- each but the last naming the next page.
pub data Chain (fetch : Fetch AnthropicCostReport)
    : String → List AnthropicCostReport → Type 0 where
  last :
      {page : String} {r : AnthropicCostReport}
      → read_answer (fetch page) ≡ ok r
      → is_last r ≡ true
      → Chain fetch page (r ∷ [])
  next :
      {page : String} {r : AnthropicCostReport} {rs : List AnthropicCostReport}
      → read_answer (fetch page) ≡ ok r
      → is_last r ≡ false
      → Chain fetch r.next_page rs
      → Chain fetch page (r ∷ rs)

unfoldable pub all_rows : Parsers → AnthropicReader → List AnthropicCostReport → List CostRow
all_rows ps rd [] = []
all_rows ps rd (r ∷ rs) = anthropic_rows ps rd r.buckets ++ all_rows ps rd rs

continue-ext :
    (f g : Counts → Exec Db ImportError Counts) (r : Result ImportError Counts) (db : Db)
    → ((c : Counts) (d : Db) → f c d ≡ g c d)
    → continue r f db ≡ continue r g db
continue-ext f g (ok c) db h = h c db
continue-ext f g (err x) db h = refl

-- One page, by what follows its rows.
one_page :
    (e : Env) (ps : Parsers) (rd : AnthropicReader) (fetch : Fetch AnthropicCostReport)
    (id fuel : ℕ) (page : String) (r : AnthropicCostReport) (rest : List CostRow) (c : Counts)
    (db : Db)
    → read_answer (fetch page) ≡ ok r
    → ((d : Counts) (s : Db)
        → next_page (import_pages e ps rd fetch id fuel r.next_page) r d s
          ≡ import_rows e id rest d s)
    → import_pages e ps rd fetch id (suc fuel) page c db
      ≡ import_rows e id (anthropic_rows ps rd r.buckets ++ rest) c db
unfolding import_pages
one_page e ps rd fetch id fuel page r rest c db answered same =
    let rows = anthropic_rows ps rd r.buckets in
    rw answered (
      continue-ext (λ d. next_page (import_pages e ps rd fetch id fuel r.next_page) r d)
        (import_rows e id rest) (import_rows e id rows c db).0 (import_rows e id rows c db).1 same
      ∙ sym (import_rows-append e id rows rest c db))

after_last :
    (e : Env) (id : ℕ) (f : Counts → Exec Db ImportError Counts) (r : AnthropicCostReport)
    (d : Counts) (s : Db)
    → is_last r ≡ true
    → next_page f r d s ≡ import_rows e id [] d s
unfolding import_rows
after_last e id f r d s ends = rw ends refl

-- The loop of ImportAnthropicCosts reads a report to its end: where the API answers a chain of
-- pages and there is fuel for as many, the loop imports the rows of all of them in order, as one
-- import of them would. The code has fuel for 40 pages.
pub import_pages-import_rows :
    (e : Env) (ps : Parsers) (rd : AnthropicReader) (fetch : Fetch AnthropicCostReport)
    (id fuel : ℕ) (page : String) (rs : List AnthropicCostReport) (c : Counts) (db : Db)
    → Chain fetch page rs
    → length rs ≤ fuel
    → import_pages e ps rd fetch id fuel page c db ≡ import_rows e id (all_rows ps rd rs) c db
unfolding all_rows
import_pages-import_rows e ps rd fetch id zero page rs c db (last {r = r} answered ends) h =
    absurd (omega arith)
import_pages-import_rows e ps rd fetch id zero page rs c db
      (next {r = r} {rs = others} answered more chain) h =
    absurd (omega arith)
import_pages-import_rows e ps rd fetch id (suc fuel) page rs c db (last {r = r} answered ends) h =
    one_page e ps rd fetch id fuel page r [] c db answered
      (λ d s. after_last e id (import_pages e ps rd fetch id fuel r.next_page) r d s ends)
import_pages-import_rows e ps rd fetch id (suc fuel) page rs c db
      (next {r = r} {rs = others} answered more chain) h =
    one_page e ps rd fetch id fuel page r (all_rows ps rd others) c db answered (λ d s.
      rw more
        (import_pages-import_rows e ps rd fetch id fuel r.next_page others d s chain (omega arith)))
