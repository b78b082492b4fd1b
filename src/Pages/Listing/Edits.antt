-- ===== src/Pages/Listing/Edits.antt =====
-- Replacing and removing items of a list by their ids.
use trusyn_ai.Prelude.{
  ◌≡◌, ◌≢◌, refl, Text, text_eq, text_eq_iff, text_eq_refl, false, none, Option, some, List, [],
  ◌∷◌, if◌then◌else◌, map, arith, inl, inr,
}
use trusyn_ai.Pages.Listing.{has_id, find_id, first_id, replace_item, without_item}
use trusyn_ai.Pages.Listing.Laws.{IsSelection}

module _ {A : Type 0} (id_of : A → Text) where
  pub find-replace_item :
      (u : A) (id : Text) (items : List A)
      → find_id id_of (some id) (replace_item id_of u items) ≡ (
          if text_eq (id_of u) id
          then (if has_id id_of (some id) items then some u else none)
          else find_id id_of (some id) items)
  find-replace_item u id [] = ground arith
  find-replace_item u id (d ∷ items) = ground (
    arith,
    find-replace_item u id items,
    text_eq_iff (id_of d) (id_of u),
    text_eq_iff (id_of d) id,
    text_eq_iff (id_of u) id,
  )

  pub ids-replace_item :
      (u : A) (items : List A) → map id_of (replace_item id_of u items) ≡ map id_of items
  ids-replace_item u [] = refl
  ids-replace_item u (d ∷ items) =
      ground (arith, ids-replace_item u items, text_eq_iff (id_of d) (id_of u))

  pub has-without_item :
      (id : Text) (items : List A) → has_id id_of (some id) (without_item id_of id items) ≡ false
  has-without_item id [] = refl
  has-without_item id (d ∷ items) = ground (arith, has-without_item id items)

  pub find-without_item :
      (id other : Text) (items : List A)
      → id ≢ other
      → find_id id_of (some other) (without_item id_of id items) ≡ find_id id_of (some other) items
  find-without_item id other [] h = refl
  find-without_item id other (d ∷ items) h = ground (
    arith,
    find-without_item id other items h,
    text_eq_iff (id_of d) id,
    text_eq_iff (id_of d) other,
  )

  -- The selection is on the first item of a list, or on none where it is empty.
  abbrev pub IsFirst : Option Text → List A → Type 0
  IsFirst selected [] = selected ≡ none
  IsFirst selected (a ∷ items) = selected ≡ some (id_of a)

  pub first_id-IsFirst : (items : List A) → IsFirst (first_id id_of items) items
  first_id-IsFirst [] = refl
  first_id-IsFirst (a ∷ items) = refl

  pub first_id-IsSelection : (items : List A) → IsSelection id_of (first_id id_of items) items
  first_id-IsSelection [] = inr (refl, refl)
  first_id-IsSelection (d ∷ items) = inl (rw (text_eq_refl (id_of d)))

  pub has-without_item_of_new :
      (id other : Text) (items : List A)
      → has_id id_of (some other) items ≡ false
      → has_id id_of (some other) (without_item id_of id items) ≡ false
  has-without_item_of_new id other [] h = refl
  has-without_item_of_new id other (d ∷ items) h =
      ground (arith, has-without_item_of_new id other items)
