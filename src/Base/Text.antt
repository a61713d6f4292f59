-- ===== src/Base/Text.antt =====
-- Python's `str`: equality as a decision, `strip`, and `s or default`.
use Prim.Native.Nat.{ℕ}
use Prim.Native.Char.{code}
use Prim.Native.String.{String}
use mathlib.Core.Path.{◌≡◌, refl}
use mathlib.Core.Bool.{Bool, true, false, ◌&&◌, ◌||◌}
use mathlib.Core.Option.{Option, none, some}
use text.Mathlib.Text.{◌==◌ as str_eq}
use text.Mathlib.TextEquality.{eq_iff}
use interlatent.Base.Tests.{leb, ◌==◌, if◌then◌else◌}
use interlatent.Base.Dict.{Key}

unfoldable pub string_discrete : Discrete String
string_discrete s t = decided (str_eq s t) refl
  where
    decided : (b : Bool) → str_eq s t ≡ b → Dec (s ≡ t)
    decided true e = yes ((eq_iff s t).0 e)
    decided false e = no (λ p. cc ((eq_iff s t).1 p, e))

instance abbrev pub string_key : Key String
string_key = record { dec = string_discrete }

-- `str.isspace` of one character
unfoldable pub is_space : ℕ → Bool
is_space c =
    (leb 9 c && leb c 13)
    || (leb 28 c && leb c 32)
    || (c == 0x85)
    || (c == 0xa0)
    || (c == 0x1680)
    || (leb 0x2000 c && leb c 0x200a)
    || (c == 0x2028)
    || (c == 0x2029)
    || (c == 0x202f)
    || (c == 0x205f)
    || (c == 0x3000)

unfoldable pub is_blank : String → Bool
is_blank String.[] = true
is_blank (String.◌∷◌ c s) = false

unfoldable pub lstrip : String → String
unfolding is_space
lstrip String.[] = String.[]
lstrip (String.◌∷◌ c s) = let rest = lstrip s in if is_space (code c) then rest else String.◌∷◌ c s

unfoldable pub rstrip : String → String
unfolding is_space is_blank
rstrip String.[] = String.[]
rstrip (String.◌∷◌ c s) =
    let rest = rstrip s in
    if is_blank rest && is_space (code c) then String.[] else String.◌∷◌ c rest

unfoldable pub strip : String → String
unfolding lstrip rstrip
strip s = rstrip (lstrip s)

-- `s or default`: the empty text is falsy
unfoldable pub or_else : Option String → String → String
or_else none d = d
or_else (some String.[]) d = d
or_else (some (String.◌∷◌ c s)) d = String.◌∷◌ c s
