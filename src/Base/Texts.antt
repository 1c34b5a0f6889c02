-- ===== src/Base/Texts.antt =====
-- Python's `in` and `str.removeprefix` on texts.
use text.Mathlib.Text.{starts_with}
use Prim.Native.String.{String}
use mathlib.Core.Bool.{Bool, ◌||◌}
use mathlib.Core.Option.{Option, none, some}
use aqueduct_test.Base.Equality.{◌==◌, string_eq, if◌then◌else◌}

-- `pattern in text`
unfoldable pub is_in : String → String → Bool
is_in pattern String.[] = starts_with String.[] pattern
is_in pattern (String.◌∷◌ c text) = starts_with (String.◌∷◌ c text) pattern || is_in pattern text

-- What follows the prefix.
unfoldable pub after : String → String → Option String
after String.[] text = some text
after (String.◌∷◌ c prefix) String.[] = none
after (String.◌∷◌ c prefix) (String.◌∷◌ d text) =
    let rest = after prefix text in
    if String.◌∷◌ c String.[] == String.◌∷◌ d String.[] then rest else none
