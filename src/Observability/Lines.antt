-- ===== src/Observability/Lines.antt =====
-- The lines of the Prometheus text, read back (metrics.service.ts).
use Prim.Native.String.{[], ◌∷◌, ◌++◌}
use text.Mathlib.TextLemmas.{nil-append, cons-append}
use timeoff_request.Base.{ℕ, ◌≡◌, refl, String, none, some, true, false, arith}
use timeoff_request.Base.Int.{ℤ}
use timeoff_request.Observability.Prometheus.{int_text, sample_line, type_line}
use timeoff_request.Observability.Reading.{
  break_at, read_line, is_comment, lines_of, all_lines, lacks,
}
use timeoff_request.Observability.Digits.{lacks-int_text, read_int-int_text}

pub lacks-append :
    (k : ℕ) (s t : String) → lacks k s ≡ true → lacks k t ≡ true → lacks k (s ++ t) ≡ true
unfolding lacks
lacks-append k [] t h h' = rw (nil-append t) h'
lacks-append k (c ∷ s) t h h' = rw (cons-append c s t) (ground (arith, h, lacks-append k s t))

break_at-append :
    (name rest : String)
    → lacks b' ' name ≡ true
    → break_at b' ' (name ++ (" " ∷ rest)) ≡ some (name, rest)
unfolding break_at lacks
break_at-append [] rest h = rw (nil-append (" " ∷ rest)) refl
break_at-append (c ∷ s) rest h =
    rw (cons-append c s (" " ∷ rest)) (ground (arith, h, break_at-append s rest))

-- a name of a metric: no space, no line end and no `#`
pub record IsPlain (name : String) : Type 0 where
  pub no_newline : lacks b'\n' name ≡ true
  pub no_space : lacks b' ' name ≡ true
  pub no_hash : lacks b'#' name ≡ true

pub IsPlain-append : (s t : String) → IsPlain s → IsPlain t → IsPlain (s ++ t)
IsPlain-append s t h h' = record {
  no_newline = lacks-append b'\n' s t h.no_newline h'.no_newline;
  no_space = lacks-append b' ' s t h.no_space h'.no_space;
  no_hash = lacks-append b'#' s t h.no_hash h'.no_hash;
}

no_comment :
    (name rest : String) → lacks b'#' name ≡ true → is_comment (name ++ (" " ∷ rest)) ≡ false
unfolding lacks
no_comment [] rest h = rw (nil-append (" " ∷ rest)) refl
no_comment (c ∷ s) rest h = rw (cons-append c s (" " ∷ rest)) (ground (arith, h))

pub read_line-sample_line :
    (name : String) (value : ℤ)
    → IsPlain name
    → read_line (sample_line name value) ≡ some (name, value)
unfolding read_line
read_line-sample_line name value plain = ground (
  arith,
  no_comment name (int_text value) plain.no_hash,
  break_at-append name (int_text value) plain.no_space,
  read_int-int_text value,
)

pub read_line-type_line : (name kind : String) → read_line (type_line name kind) ≡ none
unfolding read_line
read_line-type_line name kind = rw (cons-append "#" " TYPE " (name ++ (" " ∷ kind))) refl

pub lacks-sample_line :
    (name : String) (value : ℤ) → IsPlain name → lacks b'\n' (sample_line name value) ≡ true
unfolding lacks
lacks-sample_line name value plain =
    lacks-append b'\n' name (" " ∷ int_text value) plain.no_newline
      (ground (arith, lacks-int_text b'\n' value))

pub lacks-type_line :
    (name kind : String) → IsPlain name → IsPlain kind → lacks b'\n' (type_line name kind) ≡ true
unfolding lacks
lacks-type_line name kind plain plain_kind =
    lacks-append b'\n' "# TYPE " (name ++ (" " ∷ kind)) refl (
      lacks-append b'\n' name (" " ∷ kind) plain.no_newline (ground (arith, plain_kind.no_newline)))

-- A line and its end, in front of a text.
pub lines_of-append :
    (line rest : String)
    → lacks b'\n' line ≡ true
    → lines_of (line ++ ("\n" ∷ rest)) ≡ (line, all_lines rest)
unfolding lines_of lacks
lines_of-append [] rest h = rw (nil-append ("\n" ∷ rest)) refl
lines_of-append (c ∷ s) rest h =
    rw (cons-append c s ("\n" ∷ rest)) (ground (arith, h, lines_of-append s rest))
