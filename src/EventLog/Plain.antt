-- ===== src/EventLog/Plain.antt =====
-- Texts without a newline.
use Prim.Native.Char.{code}
use Prim.Native.String.{[], ◌∷◌, ◌++◌}
use text.Mathlib.TextLemmas.{nil-append, cons-append}
use croissant.Base.{Bool, true, not, ◌&&◌, String, ◌==◌, nat_eq, ◌≡◌, refl, arith}

unfoldable pub one_line : String → Bool
one_line [] = true
one_line (c ∷ s) = not (code c == 10) && one_line s

pub one_line-append : (a b : String) → one_line (a ++ b) ≡ (one_line a && one_line b)
unfolding one_line
one_line-append [] b = rw (nil-append b) refl
one_line-append (c ∷ a) b = rw (cons-append c a b, one_line-append a b) (ground arith)
