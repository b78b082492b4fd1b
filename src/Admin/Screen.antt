-- ===== src/Admin/Screen.antt =====
-- What the pages of the admin panel (frontend/admin_panel/src/app/pages) show alike. As in
-- Pages.Screen, a screen holds what a component renders of its state, without titles,
-- placeholders, icons, animations and the styles that tell nothing of the state.
use trusyn_ai.Prelude.{
  ℕ, ◌^◌, ◌/◌, Text, codes, Bool, Option, none, some, [], ◌∷◌, if◌then◌else◌, leb,
}
use trusyn_ai.Types.Common.{Number}
use trusyn_ai.Pages.Format.{Age, Elapsed, to_relative_time}
use trusyn_ai.Pages.Screen.{Button, plain_button}

-- the button at the top, which loads again
abbrev pub refresh_button : Bool → Button
refresh_button loading =
    plain_button (if loading then codes "Refreshing..." else codes "Refresh") loading

-- the colour of the bar of a trust score
pub data BarColor : Type 0 where
  green yellow red : BarColor

unfoldable pub trust_color : ℕ → BarColor
trust_color score = if leb 80 score then green else if leb 60 score then yellow else red

-- `date ? toRelativeTime(date) : 'No recent activity'`, with none for the text
unfoldable pub last_active : (Text → Elapsed) → Option Text → Option Age
unfolding to_relative_time
last_active since none = none
last_active since (some []) = none
last_active since (some (c ∷ date)) = some (to_relative_time (since (c ∷ date)))

-- the whole part of a number, which a bound that is whole is compared with alike
abbrev pub whole_part : Number → ℕ
whole_part n = n.mantissa / 10 ^ n.decimals
