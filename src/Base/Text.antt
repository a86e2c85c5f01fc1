-- ===== src/Base/Text.antt =====
-- The bytes of a text literal of the source.
use Prim.Native.Nat.{ℕ}
use Prim.Native.Char.{code}
use Prim.Native.String.{String}
use mathlib.Core.List.{List, [], ◌∷◌}

abbrev pub text : String → List ℕ
text String.[] = []
text (String.◌∷◌ c cs) = code c ∷ text cs
