-- ===== src/Observability/Prometheus.antt =====
-- `toPrometheus` of src/modules/observability/services/metrics.service.ts, the text that the
-- metrics controller returns.
use Prim.Native.Nat.{◌/◌, ◌%◌}
use Prim.Native.Char.{Char}
use Prim.Native.String.{◌++◌ as concat, ◌∷◌ as prepend}
use timeoff_request.Base.{ℕ, zero, suc, String, true, false, List, [], ◌∷◌, ◌++◌, ltb}
use timeoff_request.Base.Int.{ℤ, pos, negsuc}
use timeoff_request.Base.Table.{map_get, get_or}
use timeoff_request.Store.World.{Metrics, Action, gets}

abbrev pub digit : ℕ → Char
digit zero = "0"
digit (suc zero) = "1"
digit (suc (suc zero)) = "2"
digit (suc (suc (suc zero))) = "3"
digit (suc (suc (suc (suc zero)))) = "4"
digit (suc (suc (suc (suc (suc zero))))) = "5"
digit (suc (suc (suc (suc (suc (suc zero)))))) = "6"
digit (suc (suc (suc (suc (suc (suc (suc zero))))))) = "7"
digit (suc (suc (suc (suc (suc (suc (suc (suc zero)))))))) = "8"
digit _ = "9"

-- the decimal digits of `n` in front of a text; each round takes one digit off
unfoldable pub digits : ℕ → ℕ → String → String
digits zero n text = text
digits (suc rounds) n text = elim (ltb n 10) [
  | true ↦ prepend (digit n) text
  | false ↦ digits rounds (n / 10) (prepend (digit (n % 10)) text)
]

abbrev pub number_text : ℕ → String
number_text n = digits (suc n) n ""

-- the text of an integer in a template
abbrev pub int_text : ℤ → String
int_text (pos n) = number_text n
int_text (negsuc n) = prepend "-" (number_text (suc n))

-- `${name} ${value}`
abbrev pub sample_line : String → ℤ → String
sample_line name value = concat name (prepend " " (int_text value))

-- `# TYPE ${name} ${kind}`
abbrev pub type_line : String → String → String
type_line name kind = concat "# TYPE " (concat name (prepend " " kind))

unfoldable pub counter_lines : List (String × ℕ) → List String
counter_lines [] = []
counter_lines ((name, value) ∷ counters) =
    type_line name "counter" ∷ sample_line name (pos value) ∷ counter_lines counters

unfoldable pub sum_lines : List (String × ℕ) → List (String × ℤ) → List String
sum_lines counts [] = []
sum_lines counts ((name, sum) ∷ sums) =
    type_line name "summary"
    ∷ sample_line (concat name "_sum") sum
    ∷ sample_line (concat name "_count") (pos (get_or (map_get name counts) 0))
    ∷ sum_lines counts sums

-- `lines.join('\n')`
unfoldable pub join : List String → String
join [] = ""
join (line ∷ []) = line
join (line ∷ next ∷ lines) = concat line (prepend "\n" (join (next ∷ lines)))

abbrev pub newline_if_any : List String → String
newline_if_any [] = ""
newline_if_any (_ ∷ _) = "\n"

unfoldable pub to_prometheus : Metrics → String
unfolding counter_lines sum_lines join
to_prometheus m =
    let lines = counter_lines m.counters ++ sum_lines m.counts m.sums in
    concat (join lines) (newline_if_any lines)

-- `MetricsController.getMetrics`
abbrev pub get_metrics : Action String
get_metrics = gets λ w. to_prometheus w.metrics
