-- ===== src/Pages/Listing.antt =====
-- What the list pages share: loading a page of items, the selected item, and paging.
pub mod Laws
pub mod Edits
use trusyn_ai.Prelude.{
  ℕ, ◌+◌, ◌-◌, Text, text_eq, Bool, true, false, not, Option, none, some, List, [], ◌∷◌,
  if◌then◌else◌, any, find, keep, map, min, leb, ◌==◌, is_empty,
}
use trusyn_ai.Runtime.Value.{Value, str}
use trusyn_ai.Runtime.Monad.{Exn, api, Result, ok, throw}
use trusyn_ai.Types.Common.{PaginatedResult}

-- The state of the list of a page; `selected_id` is null or the id of an item.
pub record Listing (A : Type 0) : Type 0 where
  pub items : List A
  pub total : ℕ
  pub limit : ℕ
  pub offset : ℕ
  pub selected_id : Option Text
  pub loading : Bool
  pub refreshing : Bool
  pub error : Option Value

-- `!id`: null, or the empty text
abbrev pub is_unset : Option Text → Bool
is_unset none = true
is_unset (some id) = is_empty id

-- `error instanceof ApiError ? error.message : fallback`
abbrev pub error_message : Text → Exn → Value
error_message fallback (api e) = e.message
error_message fallback _ = str fallback

-- `item.id === selectedId`, for an id that may be null
abbrev pub is_id : Option Text → Text → Bool
is_id none id = false
is_id (some wanted) id = text_eq id wanted

module _ {A : Type 0} where
  -- `setRefreshing(true)` or `setLoading(true)`
  unfoldable pub load_start : Bool → Listing A → Listing A
  load_start refresh l =
      if refresh then record l { refreshing = true } else record l { loading = true }

  -- the buttons Prev and Next, which do nothing while they are disabled
  abbrev pub prev_disabled : Listing A → Bool
  prev_disabled l = l.offset == 0

  abbrev pub next_disabled : Listing A → Bool
  next_disabled l = leb l.total (l.offset + l.limit)

  unfoldable pub prev_page : Listing A → Listing A
  prev_page l = if prev_disabled l then l else record l { offset = l.offset - l.limit }

  unfoldable pub next_page : Listing A → Listing A
  next_page l = if next_disabled l then l else record l { offset = l.offset + l.limit }

  -- the first and the last number that are shown: "first-last of total"
  unfoldable pub shown_range : Listing A → ℕ × ℕ
  shown_range l = (l.offset + 1, min (l.offset + l.limit) l.total)

module _ {A : Type 0} (id_of : A → Text) where
  -- `items[0]?.id ?? null`
  abbrev pub first_id : List A → Option Text
  first_id [] = none
  first_id (a ∷ items) = some (id_of a)

  abbrev pub has_id : Option Text → List A → Bool
  has_id wanted items = any (λ a. is_id wanted (id_of a)) items

  abbrev pub find_id : Option Text → List A → Option A
  find_id wanted items = find (λ a. is_id wanted (id_of a)) items

  -- The selection after a load. `selected` is the id in the closure of the load, `current` that
  -- of the state; the empty text is not set, and is found in no list by the second test.
  unfoldable pub reselect : Option Text → List A → Option Text → Option Text
  reselect selected [] current = if is_unset selected then current else none
  reselect selected (a ∷ items) current =
      if is_unset selected
      then some (id_of a)
      else if has_id selected (a ∷ items)
      then current
      else some (id_of a)

  abbrev pub loaded : Option Text → Result (PaginatedResult A) → Text → Listing A → Listing A
  loaded selected (ok result) fallback l = record l {
    items = result.items;
    total = result.total;
    error = none;
    selected_id = reselect selected result.items l.selected_id;
  }
  loaded selected (throw e) fallback l = record l { error = some (error_message fallback e) }

  -- the rest of the load, with its `catch` and `finally`
  unfoldable pub load_finish :
      Option Text → Result (PaginatedResult A) → Text → Listing A → Listing A
  unfolding reselect
  load_finish selected result fallback l = record (loaded selected result fallback l) {
    loading = false;
    refreshing = false;
  }

  -- the items with the id of `u` replaced by `u`, and the items without an id
  abbrev pub replace_item : A → List A → List A
  replace_item u items = map (λ a. if text_eq (id_of a) (id_of u) then u else a) items

  abbrev pub without_item : Text → List A → List A
  without_item id items = keep (λ a. not (text_eq (id_of a) id)) items
