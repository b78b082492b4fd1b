-- ===== src/Pages/Screen.antt =====
-- What the pages of the web application (frontend/web-app/src/app/pages) show alike: buttons,
-- messages, lists with their texts for waiting and for nothing, and the pager. A screen holds
-- what a component renders of its state; titles, placeholders, icons and styles are left out, but
-- for the styles that tell a state.
pub mod Calls
use trusyn_ai.Prelude.{
  ℕ, ◌≡◌, ◌≢◌, refl, Text, codes, Bool, true, false, Option, none, some, List, [], ◌∷◌,
  if◌then◌else◌, map,
}
use trusyn_ai.Runtime.Value.{Value, is_truthy}
use trusyn_ai.Types.Common.{Severity, low, medium, high, critical}
use trusyn_ai.Pages.Listing.{Listing, prev_disabled, next_disabled, shown_range}

-- `dimmed` is an opacity below 1
pub record Button : Type 0 where
  pub label : Text
  pub disabled : Bool
  pub dimmed : Bool

abbrev pub plain_button : Text → Bool → Button
plain_button label disabled = record { label = label; disabled = disabled; dimmed = false }

-- `{value && …}`: what is falsy is not shown
abbrev pub shown_value : Option Value → Option Value
shown_value none = none
shown_value (some v) = if is_truthy v then some v else none

abbrev pub shown_text : Option Text → Option Text
shown_text none = none
shown_text (some []) = none
shown_text (some (c ∷ s)) = some (c ∷ s)

-- the error and the success of the last action
pub record Banner : Type 0 where
  pub error : Option Value
  pub success : Option Text

abbrev pub banner : Option Value → Option Text → Banner
banner error success = record { error = shown_value error; success = shown_text success }

-- a list: a text in its place, or its rows
pub data Body (R : Type 0) : Type 0 where
  notice : Text → Body R
  rows : List R → Body R

module _ {A R : Type 0} where
  -- `items.length === 0 ? … : items.map(row)`
  abbrev pub filled_body : Text → (A → R) → List A → Body R
  filled_body empty row [] = notice empty
  filled_body empty row (a ∷ items) = rows (map row (a ∷ items))

  unfoldable pub list_body : Text → Text → (A → R) → Bool → List A → Body R
  list_body wait empty row loading items =
      if loading then notice wait else filled_body empty row items

-- the colour of a severity, on the pages of the threats and of the audit log
abbrev pub severity_color : Severity → Text
severity_color low = codes "#10B981"
severity_color medium = codes "#F59E0B"
severity_color high = codes "#F97316"
severity_color critical = codes "#EF4444"

-- `value ?? 'N/A'`
abbrev pub or_na : Option Text → Text
or_na none = codes "N/A"
or_na (some t) = t

-- the refresh button, whose icon spins
pub record Refresh : Type 0 where
  pub button : Button
  pub spins : Bool

abbrev pub refresh_control : Bool → Refresh
refresh_control refreshing = record {
  button = plain_button (codes "Refresh") refreshing;
  spins = refreshing;
}

-- the pager below a list: "first-last of total"
pub record Pager : Type 0 where
  pub prev : Button
  pub first : ℕ
  pub last : ℕ
  pub total : ℕ
  pub next : Button

unfoldable pub pager : {A : Type 0} → Listing A → Pager
unfolding shown_range
pager l = record {
  prev = plain_button (codes "Prev") (prev_disabled l);
  first = (shown_range l).0;
  last = (shown_range l).1;
  total = l.total;
  next = plain_button (codes "Next") (next_disabled l);
}
