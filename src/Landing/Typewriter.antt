-- ===== src/Landing/Typewriter.antt =====
-- `useTypewriter` of frontend/landing-page/src/app/components/HeroSection.tsx. The function that
-- `setDisplayed` is given reads `idxRef` when React calls it: at once, or, as the documentation of
-- updater functions says, during the next render, when the tick has counted on already.
use trusyn_ai.Prelude.{
  ℕ, zero, suc, ◌≤◌, ◌<◌, ◌≡◌, refl, ◌∙◌, ap, Text, codes, Bool, true, false, [], ◌∷◌, ◌++◌,
  if◌then◌else◌, ltb, length, take, arith,
}

-- `running` is whether the interval is set.
pub record Typewriter : Type 0 where
  pub displayed : Text
  pub index : ℕ
  pub running : Bool

-- the start of the effect, once the delay is over
abbrev pub begin_typing : Typewriter
begin_typing = record { displayed = []; index = 0; running = true }

-- `text[i]`, added to a text: past the end it is "undefined"
abbrev pub char_at : ℕ → Text → Text
char_at n [] = codes "undefined"
char_at zero (c ∷ text) = c ∷ []
char_at (suc n) (c ∷ text) = char_at n text

-- the callback of the interval; `at_once` is when the updater is called
unfoldable pub tick : Bool → Text → Typewriter → Typewriter
tick at_once text w =
    if w.running
    then (if ltb w.index (length text)
        then record w {
          displayed = w.displayed ++ char_at (if at_once then w.index else suc w.index) text;
          index = suc w.index;
        }
        else record w { running = false })
    else w

unfoldable pub ticks : Bool → ℕ → Text → Typewriter → Typewriter
unfolding tick
ticks at_once zero text w = w
ticks at_once (suc n) text w = tick at_once text (ticks at_once n text w)

take-char_at :
    (n : ℕ) (text : Text) → n < length text → take n text ++ char_at n text ≡ take (suc n) text
take-char_at n [] h = ground (arith, h)
take-char_at zero (c ∷ text) h = refl
take-char_at (suc n) (c ∷ text) h = ap (λ t. c ∷ t) (take-char_at n text (omega (arith, h)))

take_all : (text : Text) → take (length text) text ≡ text
take_all [] = refl
take_all (c ∷ text) = ap (λ t. c ∷ t) (take_all text)

char_at_end : (text : Text) → char_at (length text) text ≡ codes "undefined"
char_at_end [] = refl
char_at_end (c ∷ text) = char_at_end text

-- what has been typed after a number of ticks
abbrev typed : ℕ → Text → Typewriter
typed n shown = record { displayed = shown; index = n; running = true }

tick-typed :
    (at_once : Bool) (n : ℕ) (text shown : Text)
    → n < length text
    → tick at_once text (typed n shown)
      ≡ typed (suc n) (shown ++ char_at (if at_once then n else suc n) text)
unfolding tick
tick-typed at_once n text shown h =
    let more : ltb n (length text) ≡ true = ground (arith, h) in rw more refl

ticks-at_once :
    (n : ℕ) (text : Text) → n ≤ length text → ticks true n text begin_typing ≡ typed n (take n text)
unfolding ticks
ticks-at_once zero text h = refl
ticks-at_once (suc n) text h =
    let before = ticks-at_once n text (omega (arith, h)) in
    ap (tick true text) before
    ∙ tick-typed true n text (take n text) (omega (arith, h))
    ∙ ap (typed (suc n)) (take-char_at n text (omega (arith, h)))

-- One late tick behind: the first character is passed over.
ticks-late :
    (n : ℕ) (c : ℕ) (text : Text)
    → n ≤ length text
    → ticks false n (c ∷ text) begin_typing ≡ typed n (take n text)
unfolding ticks
ticks-late zero c text h = refl
ticks-late (suc n) c text h =
    let before = ticks-late n c text (omega (arith, h)) in
    ap (tick false (c ∷ text)) before
    ∙ tick-typed false n (c ∷ text) (take n text) (omega (arith, h))
    ∙ ap (typed (suc n)) (take-char_at n text (omega (arith, h)))

tick_stops :
    (at_once : Bool) (text shown : Text)
    → tick at_once text (typed (length text) shown)
      ≡ record (typed (length text) shown) { running = false }
unfolding tick
tick_stops at_once text shown =
    let at_end : ltb (length text) (length text) ≡ false = ground arith in rw at_end refl

-- Where React calls each updater at once, the text is typed out in as many ticks as it has code
-- units, and the tick after them stops the interval.
pub ticks-types :
    (text : Text)
    → ticks true (suc (length text)) text begin_typing
      ≡ record { displayed = text; index = length text; running = false }
unfolding ticks
ticks-types text =
    let all =
      ticks-at_once (length text) text (omega arith) ∙ ap (typed (length text)) (take_all text) in
    ap (tick true text) all ∙ tick_stops true text text

-- Where React calls the updaters during the next render, the first code unit is never shown, and
-- "undefined" stands at the end.
pub ticks-undefined :
    (c : ℕ) (text : Text)
    → ticks false (suc (suc (length text))) (c ∷ text) begin_typing
      ≡ record { displayed = text ++ codes "undefined"; index = suc (length text); running = false }
unfolding ticks
ticks-undefined c text =
    let all =
      ticks-late (length text) c text (omega arith) ∙ ap (typed (length text)) (take_all text) in
    let last =
      ap (tick false (c ∷ text)) all
      ∙ tick-typed false (length text) (c ∷ text) text (omega arith)
      ∙ ap (λ t. typed (suc (length text)) (text ++ t)) (char_at_end text) in
    ap (tick false (c ∷ text)) last ∙ tick_stops false (c ∷ text) (text ++ codes "undefined")
