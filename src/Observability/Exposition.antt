-- ===== src/Observability/Exposition.antt =====
-- The metrics that a scraper reads from the text of `toPrometheus` (metrics.service.ts).
use Prim.Native.String.{◌++◌ as concat, ◌∷◌ as prepend}
use text.Mathlib.TextLemmas.{cons-append, append_assoc as concat_assoc}
use mathlib.Core.List.{append-nil}
use timeoff_request.Base.{
  ℕ, ◌≡◌, ◌∙◌, refl, ap, String, true, List, [], ◌∷◌, ◌++◌, Option-cases, inl, inr,
}
use timeoff_request.Base.All.{All, All-append}
use timeoff_request.Base.Int.{ℤ, pos}
use timeoff_request.Base.Table.{map_get, get_or}
use timeoff_request.Store.World.{Metrics}
use timeoff_request.Observability.Prometheus.{
  counter_lines, sum_lines, join, newline_if_any, to_prometheus,
}
use timeoff_request.Observability.Reading.{lines_of, all_lines, lacks, read_line}
use timeoff_request.Observability.Samples.{samples, read_text}
use timeoff_request.Observability.Lines.{
  IsPlain, IsPlain-append, read_line-sample_line, read_line-type_line, lacks-sample_line,
  lacks-type_line, lines_of-append,
}

-- the lines with no line end inside
abbrev OneLine : String → Type 0
OneLine line = lacks b'\n' line ≡ true

all_lines-join :
    (lines : List String)
    → All OneLine lines
    → all_lines (concat (join lines) (newline_if_any lines)) ≡ lines ++ "" ∷ []
unfolding join lines_of
all_lines-join [] h = refl
all_lines-join (line ∷ []) h = rw (lines_of-append line "" h.0) refl
all_lines-join (line ∷ next ∷ lines) h =
    let rest = all_lines-join (next ∷ lines) h.1 in
    rw (concat_assoc line (prepend "\n" (join (next ∷ lines))) "\n") (
      rw (cons-append "\n" (join (next ∷ lines)) "\n") (
        rw (lines_of-append line (concat (join (next ∷ lines)) "\n") h.0)
          (ap (λ l. line ∷ l) rest)))

samples-append : (xs ys : List String) → samples (xs ++ ys) ≡ samples xs ++ samples ys
unfolding samples
samples-append [] ys = refl
samples-append (x ∷ xs) ys = elim (Option-cases (read_line x)) [
  | inl skipped ↦ rw skipped (samples-append xs ys)
  | inr (sample, read) ↦ rw read (ap (λ l. sample ∷ l) (samples-append xs ys))
]

-- what is read: the counters, and a sum and a count for each summary
abbrev pub counter_samples : List (String × ℕ) → List (String × ℤ)
counter_samples [] = []
counter_samples ((name, value) ∷ counters) = (name, pos value) ∷ counter_samples counters

abbrev pub sum_samples : List (String × ℕ) → List (String × ℤ) → List (String × ℤ)
sum_samples counts [] = []
sum_samples counts ((name, sum) ∷ sums) =
    (concat name "_sum", sum)
    ∷ (concat name "_count", pos (get_or (map_get name counts) 0))
    ∷ sum_samples counts sums

IsPlain-sum : (name : String) → IsPlain name → IsPlain (concat name "_sum")
unfolding lacks
IsPlain-sum name h =
    IsPlain-append name "_sum" h (record { no_newline = refl; no_space = refl; no_hash = refl })

IsPlain-count : (name : String) → IsPlain name → IsPlain (concat name "_count")
unfolding lacks
IsPlain-count name h =
    IsPlain-append name "_count" h (record { no_newline = refl; no_space = refl; no_hash = refl })

samples-counter_lines :
    (counters : List (String × ℕ))
    → All (λ c. IsPlain c.0) counters
    → samples (counter_lines counters) ≡ counter_samples counters
unfolding samples counter_lines
samples-counter_lines [] h = refl
samples-counter_lines ((name, value) ∷ counters) h =
    rw (read_line-type_line name "counter", read_line-sample_line name (pos value) h.0)
      (ap (λ l. (name, pos value) ∷ l) (samples-counter_lines counters h.1))

samples-sum_lines :
    (counts : List (String × ℕ)) (sums : List (String × ℤ))
    → All (λ s. IsPlain s.0) sums
    → samples (sum_lines counts sums) ≡ sum_samples counts sums
unfolding samples sum_lines
samples-sum_lines counts [] h = refl
samples-sum_lines counts ((name, sum) ∷ sums) h =
    let count = pos (get_or (map_get name counts) 0) in
    rw
      (
        read_line-type_line name "summary",
        read_line-sample_line (concat name "_sum") sum (IsPlain-sum name h.0),
        read_line-sample_line (concat name "_count") count (IsPlain-count name h.0),
      )
      (ap (λ l. (concat name "_sum", sum) ∷ (concat name "_count", count) ∷ l)
        (samples-sum_lines counts sums h.1))

OneLine-counter_lines :
    (counters : List (String × ℕ))
    → All (λ c. IsPlain c.0) counters
    → All OneLine (counter_lines counters)
unfolding counter_lines lacks
OneLine-counter_lines [] h = tt
OneLine-counter_lines ((name, value) ∷ counters) h = (
  lacks-type_line name "counter" h.0
      (record { no_newline = refl; no_space = refl; no_hash = refl }),
  (lacks-sample_line name (pos value) h.0, OneLine-counter_lines counters h.1),
)

OneLine-sum_lines :
    (counts : List (String × ℕ)) (sums : List (String × ℤ))
    → All (λ s. IsPlain s.0) sums
    → All OneLine (sum_lines counts sums)
unfolding sum_lines lacks
OneLine-sum_lines counts [] h = tt
OneLine-sum_lines counts ((name, sum) ∷ sums) h = (
  lacks-type_line name "summary" h.0
      (record { no_newline = refl; no_space = refl; no_hash = refl }),
  (
    lacks-sample_line (concat name "_sum") sum (IsPlain-sum name h.0),
    (
      lacks-sample_line (concat name "_count") (pos (get_or (map_get name counts) 0))
          (IsPlain-count name h.0),
      OneLine-sum_lines counts sums h.1,
    ),
  ),
)

-- The names of the metrics have no space, line end or `#`. Then a reader that takes the text line
-- by line, leaves the comments aside and reads a name and a decimal number from each other line finds
-- exactly the counters with their values, and for each summary its sum and its count, in order.
pub read_text-to_prometheus :
    (m : Metrics)
    → All (λ c. IsPlain c.0) m.counters
    → All (λ s. IsPlain s.0) m.sums
    → read_text (to_prometheus m) ≡ counter_samples m.counters ++ sum_samples m.counts m.sums
unfolding read_text to_prometheus samples read_line
read_text-to_prometheus m plain plain' =
    let lines = counter_lines m.counters ++ sum_lines m.counts m.sums in
    ap samples (
      all_lines-join lines (
        All-append OneLine (counter_lines m.counters) (sum_lines m.counts m.sums)
          (OneLine-counter_lines m.counters plain) (OneLine-sum_lines m.counts m.sums plain')))
    ∙ samples-append lines ("" ∷ [])
    ∙ ap (λ l. l ++ samples ("" ∷ []))
        (samples-append (counter_lines m.counters) (sum_lines m.counts m.sums))
    ∙ (rw (samples-counter_lines m.counters plain, samples-sum_lines m.counts m.sums plain')
        (append-nil (counter_samples m.counters ++ sum_samples m.counts m.sums)))
