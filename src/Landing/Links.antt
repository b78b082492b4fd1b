-- ===== src/Landing/Links.antt =====
-- The links of Navbar.tsx and the sections of App.tsx (frontend/landing-page/src/app), and the
-- flags that the pointer, the focus, the scroll position and the width of the window set.
use trusyn_ai.Prelude.{
  ℕ, ◌-◌, ◌≡◌, refl, Text, text_eq, codes, Bool, true, false, Option, none, some, List, [], ◌∷◌,
  ltb, any, map,
}

-- `NAV_LINKS`: a label and the id of a section
abbrev pub nav_links : List (Text × Text)
nav_links =
    (codes "Product", codes "product")
    ∷ (codes "How It Works", codes "how-it-works")
    ∷ (codes "Features", codes "features")
    ∷ (codes "Architecture", codes "architecture")
    ∷ []

-- the ids of the sections of the page
abbrev pub section_ids : List Text
section_ids =
    codes "product"
    ∷ codes "how-it-works"
    ∷ codes "features"
    ∷ codes "architecture"
    ∷ codes "request-access"
    ∷ []

-- `NAV_HEIGHT_OFFSET`
abbrev pub nav_height_offset : ℕ
nav_height_offset = 84

-- where the window scrolls to, if the element is there: `position` is its place in the document,
-- and the window takes what is below 0 for 0
unfoldable pub scroll_to_section : (Text → Option ℕ) → Text → Option ℕ
scroll_to_section position section_id = target (position section_id)
  where
    target : Option ℕ → Option ℕ
    target none = none
    target (some place) = some (place - nav_height_offset)

-- `scrolled` of the navigation bar, and `isMobile` of the tour
abbrev pub is_scrolled : ℕ → Bool
is_scrolled scroll_y = ltb 16 scroll_y

abbrev pub is_narrow : ℕ → Bool
is_narrow width = ltb width 900

-- the pointer on a card or a link, and the focus of the field
pub data Attention : Type 0 where
  comes leaves : Attention

abbrev pub attend : Attention → Bool
attend comes = true
attend leaves = false

-- Every link of the navigation bar leads to a section of the page.
pub nav_links-sections :
    map (λ (link : Text × Text). any (text_eq link.1) section_ids) nav_links
    ≡ true ∷ true ∷ true ∷ true ∷ []
unfolding text_eq
nav_links-sections = refl
