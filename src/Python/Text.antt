-- ===== src/Python/Text.antt =====
-- Text as code points.
use Prim.Native.Char.{code}
use mirenai.Prelude.{List, String, [], list_eq, nat_eq, pair_eq, ℕ, ◌∷◌}

abbrev pub Text : Type 0
Text = List ℕ

-- The code points of a literal. `String` has its own `[]` and `∷`.
abbrev pub codes : String → Text
codes String.[] = []
codes (String.◌∷◌ c s) = code c ∷ codes s
