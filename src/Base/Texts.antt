-- ===== src/Base/Texts.antt =====
-- Go strings: sequences of bytes. A literal is written `codes "..."` and holds ASCII only.
use Prim.Native.Nat.{ℕ}
use Prim.Native.Char.{code}
use Prim.Native.String.{String}
use mathlib.Core.List.{List, [], ◌∷◌}
use astinus.Base.Tests.{HasEq, list_beq, list_beq_iff, nat_eq}

abbrev pub Text : Type 0
Text = List ℕ

abbrev pub codes : String → Text
codes String.[] = []
codes (String.◌∷◌ c s) = code c ∷ codes s

instance abbrev pub text_eq : HasEq Text
text_eq = record { equals = list_beq; equals_iff = list_beq_iff }
