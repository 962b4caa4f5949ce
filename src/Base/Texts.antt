-- ===== src/Base/Texts.antt =====
-- Concatenation of texts by recursion, where the library's is stuck at variables.
use Prim.Native.String.{String}
use mathlib.Core.Bool.{Bool, true, false}
use Prim.Native.Char.{code}
use stock_prediction.Base.Tests.{ltb, ◌==◌, if◌then◌else◌}
use mathlib.Core.Path.{◌≡◌, refl, ap}

-- `not s`
abbrev pub is_empty : String → Bool
is_empty String.[] = true
is_empty (String.◌∷◌ c s) = false

infixr 65 ◌<>◌
abbrev pub ◌<>◌ : String → String → String
String.[] <> t = t
String.◌∷◌ c s <> t = String.◌∷◌ c (s <> t)

pub <>_assoc : (s t u : String) → (s <> t) <> u ≡ s <> (t <> u)
<>_assoc String.[] t u = refl
<>_assoc (String.◌∷◌ c s) t u = ap (String.◌∷◌ c) (<>_assoc s t u)

-- The order of strings, by code points.
abbrev pub str_lt : String → String → Bool
str_lt String.[] String.[] = false
str_lt String.[] (String.◌∷◌ d t) = true
str_lt (String.◌∷◌ c s) String.[] = false
str_lt (String.◌∷◌ c s) (String.◌∷◌ d t) =
    let rest = str_lt s t in
    if ltb (code c) (code d) then true else if code c == code d then rest else false
