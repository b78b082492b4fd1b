-- ===== src/Pages/Screen/Calls.antt =====
-- The calls of one kind that a page has under way, and the flag that disables their button.
use trusyn_ai.Prelude.{
  ℕ, zero, suc, ◌≡◌, refl, Bool, true, false, Option, none, some, List, [], ◌∷◌, arith, length,
}

module _ {A : Type 0} where
  abbrev pub put_back : A → Option (A × List A) → Option (A × List A)
  put_back c none = none
  put_back c (some (found, rest)) = some (found, c ∷ rest)

  -- the call at a place of the list, and the calls that are left once it is answered
  abbrev pub take_call : ℕ → List A → Option (A × List A)
  take_call n [] = none
  take_call zero (c ∷ calls) = some (c, calls)
  take_call (suc n) (c ∷ calls) = put_back c (take_call n calls)

  -- one call is under way if the flag is set, and none if it is not
  abbrev pub IsSingle : Bool → List A → Type 0
  IsSingle true calls = length calls ≡ 1
  IsSingle false calls = length calls ≡ 0

  -- what `take_call` finds is one of the calls
  abbrev pub IsTaken : List A → Option (A × List A) → Type 0
  IsTaken calls o =
      (found : A) (rest : List A) → o ≡ some (found, rest) → length calls ≡ suc (length rest)

  put_back-IsTaken :
      (c : A) (calls : List A) (o : Option (A × List A))
      → IsTaken calls o
      → IsTaken (c ∷ calls) (put_back c o)
  put_back-IsTaken c calls none h found rest e = cc
  put_back-IsTaken c calls (some (f, r)) h found rest e = ground (arith, h f r refl)

  pub take_call-IsTaken : (n : ℕ) (calls : List A) → IsTaken calls (take_call n calls)
  take_call-IsTaken n [] c rest e = cc
  take_call-IsTaken zero (d ∷ calls) c rest e = ground (arith, e)
  take_call-IsTaken (suc n) (d ∷ calls) c rest e =
      put_back-IsTaken d calls (take_call n calls) (take_call-IsTaken n calls) c rest e

-- a property of every call that is under way
module _ {A : Type 0} (P : A → Type 0) where
  abbrev pub Holds : List A → Type 0
  Holds [] = Unit {0}
  Holds (c ∷ calls) = P c × Holds calls

  -- a property of the calls that are left
  abbrev pub HoldsLeft : Option (A × List A) → Type 0
  HoldsLeft none = Unit {0}
  HoldsLeft (some (found, rest)) = P found × Holds rest

  put_back-HoldsLeft :
      (c : A) (o : Option (A × List A)) → P c → HoldsLeft o → HoldsLeft (put_back c o)
  put_back-HoldsLeft c none h left = tt
  put_back-HoldsLeft c (some (found, rest)) h left = (left.0, (h, left.1))

  pub take_call-HoldsLeft : (n : ℕ) (calls : List A) → Holds calls → HoldsLeft (take_call n calls)
  take_call-HoldsLeft n [] h = tt
  take_call-HoldsLeft zero (c ∷ calls) h = h
  take_call-HoldsLeft (suc n) (c ∷ calls) h =
      put_back-HoldsLeft c (take_call n calls) h.0 (take_call-HoldsLeft n calls h.1)
