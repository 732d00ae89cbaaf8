-- ===== src/Core/Ascii.antt =====
-- The bytes of an ASCII literal.
use Prim.Native.Char.{code}
use Prim.Native.String.{String}
use crawlrs.Prelude.{[], ◌∷◌}
use crawlrs.Core.Error.{Text}

abbrev pub codes : String → Text
codes String.[] = []
codes (String.◌∷◌ c s) = code c ∷ codes s
