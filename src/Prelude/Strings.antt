-- ===== src/Prelude/Strings.antt =====
-- The string methods of the language that the program calls, on sequences of UTF-16 code units.
use Prim.Native.Nat.{ℕ}
use mathlib.Core.Bool.{Bool, true, false, ◌&&◌, ◌||◌}
use mathlib.Core.List.{List, [], ◌∷◌, ◌++◌, reverse}
use trusyn_ai.Prelude.Tests.{Text, leb, ◌==◌, if◌then◌else◌}

-- the code units that `trim` removes: white space and line terminators
unfoldable pub is_space : ℕ → Bool
is_space c =
    (leb 9 c && leb c 13)
    || c == 32
    || c == 160
    || c == 5760
    || (leb 8192 c && leb c 8202)
    || c == 8232
    || c == 8233
    || c == 8239
    || c == 8287
    || c == 12288
    || c == 65279

unfoldable pub trim_start : Text → Text
unfolding is_space
trim_start [] = []
trim_start (c ∷ s) = if is_space c then trim_start s else c ∷ s

-- `s.trim()`
unfoldable pub trim : Text → Text
unfolding trim_start
trim s = reverse (trim_start (reverse (trim_start s)))

-- `s.split(c)` for a text of one code unit: the first part, and the others
unfoldable pub split_on : ℕ → Text → Text × List Text
split_on c [] = ([], [])
split_on c (d ∷ s) =
    let (part, parts) = split_on c s in if d == c then ([], part ∷ parts) else (d ∷ part, parts)

-- `part[0] ?? ''`
abbrev pub head_unit : Text → Text
head_unit [] = []
head_unit (c ∷ s) = c ∷ []

-- the first code unit of each part, joined
abbrev pub heads : List Text → Text
heads [] = []
heads (p ∷ ps) = head_unit p ++ heads ps

-- `s.startsWith(c)` for a text of one code unit
abbrev pub starts_with_unit : ℕ → Text → Bool
starts_with_unit c [] = false
starts_with_unit c (d ∷ s) = d == c

-- `s.replace(/c$/, '')`: one trailing unit `c` is dropped
abbrev pub drop_last_unit : ℕ → Text → Text
drop_last_unit c [] = []
drop_last_unit c (d ∷ []) = if d == c then [] else d ∷ []
drop_last_unit c (d ∷ e ∷ s) = d ∷ drop_last_unit c (e ∷ s)

-- `!s`, and `!o` on a text or null
abbrev pub is_empty : Text → Bool
is_empty [] = true
is_empty (c ∷ s) = false
