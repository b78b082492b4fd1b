-- ===== src/Admin/Common.antt =====
-- What the pages of the admin panel (frontend/admin_panel/src/app/pages) share: answers of the
-- backend, counts, and rounded ratios.
use trusyn_ai.Prelude.{
  ℕ, ◌+◌, ◌*◌, ◌/◌, Text, text_eq, Bool, true, false, ◌||◌, Option, none, some, List, [], ◌∷◌,
  if◌then◌else◌, ◌==◌, map, length, keep,
}
use trusyn_ai.Runtime.Value.{Value, str}

-- What awaited calls come to: a value, or what was thrown, with the message of an `Error`.
pub data Answer (A : Type 0) : Type 0 where
  answered : A → Answer A
  failed : Option Value → Answer A

-- `err instanceof Error ? err.message : fallback`
abbrev pub error_text : Text → Option Value → Value
error_text fallback none = str fallback
error_text fallback (some message) = message

abbrev pub sum : List ℕ → ℕ
sum [] = 0
sum (n ∷ ns) = n + sum ns

abbrev pub count_if : {A : Type 0} → (A → Bool) → List A → ℕ
count_if p xs = length (keep p xs)

-- `Math.round(a / b)`, for `b` not 0, in exact arithmetic: a half goes up
unfoldable pub round_ratio : ℕ → ℕ → ℕ
round_ratio a b = (2 * a + b) / (2 * b)

-- `n ? Math.round((part / n) * 100) : 0`, in exact arithmetic
unfoldable pub percent : ℕ → ℕ → ℕ
unfolding round_ratio
percent part n = if n == 0 then 0 else round_ratio (part * 100) n

-- `type.replace(/_/g, ' ')`
abbrev pub spaced : Text → Text
spaced t = map (λ c. if c == b'_' then b' ' else c) t

-- a `Map` from texts to counts, in the order of insertion: `set(key, (get(key) ?? 0) + 1)`
unfoldable pub bump : Text → List (Text × ℕ) → List (Text × ℕ)
bump key [] = (key, 1) ∷ []
bump key ((k, n) ∷ entries) =
    if text_eq k key then (k, n + 1) ∷ entries else (k, n) ∷ bump key entries

-- the `forEach` that fills it
unfoldable pub tally : List Text → List (Text × ℕ) → List (Text × ℕ)
unfolding bump
tally [] entries = entries
tally (key ∷ keys) entries = tally keys (bump key entries)

abbrev pub is_prefix : Text → Text → Bool
is_prefix [] t = true
is_prefix (c ∷ s) [] = false
is_prefix (c ∷ s) (d ∷ t) = if c == d then is_prefix s t else false

-- `t.includes(needle)`
unfoldable pub includes : Text → Text → Bool
includes needle [] = is_prefix needle []
includes needle (c ∷ t) = is_prefix needle (c ∷ t) || includes needle t
