-- ===== src/Admin/Counting.antt =====
-- The counts of the charts: what is counted adds up.
use trusyn_ai.Prelude.{
  ℕ, zero, suc, refl, ap, ◌∙◌, ◌+◌, ◌*◌, ◌/◌, ◌≤◌, ◌<◌, ◌≡◌, Text, text_eq, text_eq_iff, Bool, List,
  [], ◌∷◌, arith, if◌then◌else◌, Bool-cases, inl, inr, length, ◌==◌, ◌-◌, not,
}
use native.Mathlib.Nat.{div-lt_iff_lt-mul, mul-div-le, lt-mul-div-succ}
use trusyn_ai.Admin.Common.{count_if, round_ratio, percent, bump, tally}

-- the number of entries, added up
abbrev pub total_of : List (Text × ℕ) → ℕ
total_of [] = 0
total_of ((k, n) ∷ entries) = n + total_of entries

-- what is counted for a key
abbrev pub count_of : Text → List (Text × ℕ) → ℕ
count_of key [] = 0
count_of key ((k, n) ∷ entries) = (if text_eq k key then n else 0) + count_of key entries

-- the bars of a key
abbrev pub bars_of : Text → List (Text × ℕ) → List ℕ
bars_of key [] = []
bars_of key ((k, n) ∷ entries) =
    let bars = bars_of key entries in if text_eq k key then n ∷ bars else bars

-- the first of some bars made higher, or a bar where there is none
abbrev pub raised : ℕ → List ℕ → List ℕ
raised zero bars = bars
raised (suc m) [] = suc m ∷ []
raised (suc m) (n ∷ bars) = (n + suc m) ∷ bars

-- how often a key is in the list
abbrev pub occurrences : Text → List Text → ℕ
occurrences key [] = 0
occurrences key (k ∷ keys) = (if text_eq k key then 1 else 0) + occurrences key keys

total_of-bump :
    (key : Text) (entries : List (Text × ℕ)) → total_of (bump key entries) ≡ total_of entries + 1
unfolding bump
total_of-bump key [] = omega arith
total_of-bump key ((k, n) ∷ entries) = ground (arith, total_of-bump key entries)

count_of-bump :
    (key other : Text) (entries : List (Text × ℕ))
    → count_of other (bump key entries)
      ≡ count_of other entries + (if text_eq key other then 1 else 0)
unfolding bump
count_of-bump key other [] = ground arith
count_of-bump key other ((k, n) ∷ entries) =
    ground (arith, count_of-bump key other entries, text_eq_iff k key)

tally-from :
    (key : Text) (keys : List Text) (entries : List (Text × ℕ))
    → (count_of key (tally keys entries) ≡ occurrences key keys + count_of key entries)
      × (total_of (tally keys entries) ≡ length keys + total_of entries)
unfolding tally
tally-from key [] entries = (omega arith, omega arith)
tally-from key (k ∷ keys) entries =
    let (a, b) = tally-from key keys (bump k entries) in
    (omega (arith, a, count_of-bump k key entries), omega (arith, b, total_of-bump k entries))

-- A chart of types counts each type as often as it occurs, and its bars add up to the number of
-- threats.
pub tally-counts :
    (key : Text) (keys : List Text)
    → (count_of key (tally keys []) ≡ occurrences key keys)
      × (total_of (tally keys []) ≡ length keys)
tally-counts key keys = let (a, b) = tally-from key keys [] in (omega (arith, a), omega (arith, b))

bars_of-bump :
    (key other : Text) (entries : List (Text × ℕ))
    → bars_of other (bump key entries)
      ≡ raised (if text_eq key other then 1 else 0) (bars_of other entries)
unfolding bump
bars_of-bump key other [] = ground arith
bars_of-bump key other ((k, n) ∷ entries) = ground (
  arith,
  bars_of-bump key other entries,
  text_eq_iff k key,
  text_eq_iff k other,
  text_eq_iff key other,
)

raised-raised : (a b : ℕ) (bars : List ℕ) → raised a (raised b bars) ≡ raised (b + a) bars
raised-raised a b bars = ground arith

bars_of-tally :
    (key : Text) (keys : List Text) (entries : List (Text × ℕ))
    → bars_of key (tally keys entries) ≡ raised (occurrences key keys) (bars_of key entries)
unfolding tally
bars_of-tally key [] entries = refl
bars_of-tally key (k ∷ keys) entries =
    bars_of-tally key keys (bump k entries)
    ∙ ap (raised (occurrences key keys)) (bars_of-bump k key entries)
    ∙ raised-raised (occurrences key keys) (if text_eq k key then 1 else 0) (bars_of key entries)

-- A chart has one bar for each type that occurs, as high as it is frequent, and no other.
pub bars_of-tally_all :
    (key : Text) (keys : List Text)
    → bars_of key (tally keys [])
      ≡ (if occurrences key keys == 0 then [] else occurrences key keys ∷ [])
bars_of-tally_all key keys = bars_of-tally key keys [] ∙ ground arith

pub count_if_le : {A : Type 0} (p : A → Bool) (xs : List A) → count_if p xs ≤ length xs
count_if_le p [] = omega arith
count_if_le p (x ∷ xs) = ground (arith, count_if_le p xs)

-- a ratio that is at most 100 is rounded to at most 100
pub round_ratio_le : (a b : ℕ) → 0 < b → a ≤ 100 * b → round_ratio a b ≤ 100
unfolding round_ratio
round_ratio_le a b pos h =
    let below : (2 * a + b) / (2 * b) < 101 =
      (div-lt_iff_lt-mul {k = 2 * b} {x = 2 * a + b} {y = 101} (omega arith)).1 (omega arith) in
    omega (arith, below)

-- what is in a list and is not counted is counted by the opposite test
pub count_if-not :
    {A : Type 0} (p q : A → Bool) (xs : List A)
    → ((a : A) → p a ≡ not (q a))
    → count_if p xs ≡ length xs - count_if q xs
count_if-not p q [] h = omega arith
count_if-not p q (x ∷ xs) h = ground (arith, h x, count_if-not p q xs h, count_if_le q xs)

-- A share of a whole is rounded to the nearest per cent.
pub percent-nearest :
    (part n : ℕ)
    → part ≤ n
    → (2 * n * percent part n ≤ 200 * part + n) × (200 * part ≤ 2 * n * percent part n + n)
unfolding percent round_ratio
percent-nearest part n h = elim (Bool-cases (n == 0)) [
  | inl none_at_all ↦ rw none_at_all (ground (arith, none_at_all))
  | inr some_there ↦
      let above = mul-div-le (2 * (part * 100) + n) (2 * n) in
      let below = lt-mul-div-succ (2 * (part * 100) + n) {b = 2 * n} (ground (arith, some_there)) in
      rw some_there (omega (arith, above), omega (arith, below))
]

-- A share of a whole is from 0 to 100 per cent.
pub percent_le : (part n : ℕ) → part ≤ n → percent part n ≤ 100
unfolding percent
percent_le part n h = elim (Bool-cases (n == 0)) [
  | inl none_at_all ↦ rw none_at_all (omega arith)
  | inr some_there ↦
      rw some_there (round_ratio_le (part * 100) n (ground (arith, some_there)) (omega arith))
]
