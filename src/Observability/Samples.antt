-- ===== src/Observability/Samples.antt =====
-- The samples that a reader finds in a text of lines.
use timeoff_request.Base.{String, Option, none, some, List, [], ◌∷◌}
use timeoff_request.Base.Int.{ℤ}
use timeoff_request.Observability.Reading.{read_line, all_lines}

abbrev pub add_sample : Option (String × ℤ) → List (String × ℤ) → List (String × ℤ)
add_sample none samples = samples
add_sample (some sample) samples = sample ∷ samples

unfoldable pub samples : List String → List (String × ℤ)
samples [] = []
samples (line ∷ lines) = add_sample (read_line line) (samples lines)

unfoldable pub read_text : String → List (String × ℤ)
read_text text = samples (all_lines text)
