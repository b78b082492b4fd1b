-- ===== src/Pages/Listing/Laws.antt =====
-- What every load of a list page leaves, and the paging of the list pages.
use trusyn_ai.Prelude.{
  ℕ, zero, suc, ◌+◌, ◌*◌, ◌<◌, ◌≡◌, ◌⊎◌, refl, Text, text_eq_refl, true, false, Option, List, [],
  ◌∷◌, arith, inl, inr, Bool-cases,
}
use trusyn_ai.Runtime.Monad.{ok}
use trusyn_ai.Types.Common.{PaginatedResult}
use trusyn_ai.Pages.Listing.{
  Listing, is_unset, has_id, reselect, load_finish, prev_disabled, next_disabled, prev_page,
  next_page,
}

module _ {A : Type 0} (id_of : A → Text) where
  -- The selection names an item of the list, or the list is empty and nothing is selected.
  abbrev pub IsSelection : Option Text → List A → Type 0
  IsSelection sel items = (has_id id_of sel items ≡ true) ⊎ ((is_unset sel ≡ true) × (items ≡ []))

  reselect-IsSelection :
      (sel : Option Text) (items : List A) → IsSelection (reselect id_of sel items sel) items
  unfolding reselect
  reselect-IsSelection sel [] = elim (Bool-cases (is_unset sel)) [
    | inl unset ↦ rw unset (inr (unset, refl))
    | inr set ↦ rw set (inr (refl, refl))
  ]
  reselect-IsSelection sel (a ∷ items) = inl (ground (arith, text_eq_refl (id_of a)))

  reselect-kept :
      (sel : Option Text) (items : List A)
      → has_id id_of sel items ≡ true
      → is_unset sel ≡ false
      → reselect id_of sel items sel ≡ sel
  unfolding reselect
  reselect-kept sel [] listed set = cc
  reselect-kept sel (a ∷ items) listed set = rw (set, listed)

  -- A load whose closure has the current selection leaves the selection on a listed item, or on
  -- none where the list is empty; an item that is still listed stays selected.
  pub load_finish-IsSelection :
      (result : PaginatedResult A) (fallback : Text) (l : Listing A)
      → let l' = load_finish id_of l.selected_id (ok result) fallback l in
        IsSelection l'.selected_id l'.items
        × (has_id id_of l.selected_id result.items ≡ true
            → is_unset l.selected_id ≡ false
            → l'.selected_id ≡ l.selected_id)
  unfolding load_finish
  load_finish-IsSelection result fallback l = (
    reselect-IsSelection l.selected_id result.items,
    λ listed set. reselect-kept l.selected_id result.items listed set,
  )

-- The offset is that of a whole page.
abbrev pub IsAligned : {A : Type 0} → Listing A → Type 0
IsAligned l = (k : ℕ) × (l.offset ≡ k * l.limit)

module _ {A : Type 0} where
  -- Next goes to a page that has an item, and Prev comes back from it.
  pub prev_page-next_page :
      (l : Listing A)
      → l.offset + l.limit < l.total
      → 0 < l.limit
      → ((next_page l).offset < l.total) × (prev_page (next_page l) ≡ l)
  unfolding prev_page next_page
  prev_page-next_page l h pos = ground arith

  next_page-IsAligned : (l : Listing A) → IsAligned l → IsAligned (next_page l)
  unfolding next_page
  next_page-IsAligned l (k, e) = elim (Bool-cases (next_disabled l)) [
    | inl at_end ↦ rw at_end (k, e)
    | inr more ↦ rw more (suc k, grind arith)
  ]

  prev_page-IsAligned : (l : Listing A) → IsAligned l → IsAligned (prev_page l)
  unfolding prev_page
  prev_page-IsAligned l (zero, e) = (zero, grind arith)
  prev_page-IsAligned l (suc k, e) = elim (Bool-cases (prev_disabled l)) [
    | inl at_start ↦ rw at_start (suc k, e)
    | inr more ↦ rw more (k, grind arith)
  ]

  -- Both buttons keep the offset at a whole page.
  pub paging-IsAligned :
      (l : Listing A) → IsAligned l → IsAligned (next_page l) × IsAligned (prev_page l)
  paging-IsAligned l h = (next_page-IsAligned l h, prev_page-IsAligned l h)
