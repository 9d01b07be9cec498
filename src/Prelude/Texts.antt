-- ===== src/Prelude/Texts.antt =====
-- Texts as sequences of characters.
use Prim.Native.String.{String, [], ◌∷◌}
use mathlib.Core.Bool.{Bool, ◌||◌}
use text.Mathlib.Text.{starts_with}

-- part in text
pub has_text : String → String → Bool
has_text [] part = starts_with [] part
has_text (c ∷ s) part = starts_with (c ∷ s) part || has_text s part
