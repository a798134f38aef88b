-- ===== src/Repository/Texts.antt =====
-- The order of texts: SQLite compares UTF-8 bytes, which agrees with the order of the code points.
use mirenai.Prelude.{
  Bool, [], false, if◌then◌else◌, list_eq, ltb, nat_eq, not, pair_eq, true, ℕ, ◌==◌, ◌∷◌,
}
use mirenai.Python.Text.{Text}

abbrev pub text_ltb : Text → Text → Bool
text_ltb s [] = false
text_ltb [] (y ∷ t) = true
text_ltb (x ∷ s) (y ∷ t) = let rest = text_ltb s t in if x == y then rest else ltb x y

-- by hour, newest first, and then by name
abbrev pub newest_first {ℓ} : {V : Type ℓ} → (ℕ × Text) × V → (ℕ × Text) × V → Bool
newest_first x y = if x.0.0 == y.0.0 then not (text_ltb y.0.1 x.0.1) else ltb y.0.0 x.0.0
