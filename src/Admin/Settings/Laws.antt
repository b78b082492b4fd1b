-- ===== src/Admin/Settings/Laws.antt =====
-- What the settings send and what they show of the answers.
use trusyn_ai.Prelude.{
  ◌≡◌, ◌≢◌, refl, Text, text_eq, text_eq_iff, Bool, false, not, List, [], ◌∷◌, arith, keep, length,
  any,
}
use trusyn_ai.Types.Account.{IntegrationDto, ApiKeyItemDto}
use trusyn_ai.Admin.Common.{answered}
use trusyn_ai.Admin.Settings.{AdminSettings}
use trusyn_ai.Admin.Settings.Changes.{replace_integration, remove_api_key_finish}

-- the rows with a key, and the keys with an id
abbrev pub has_key : Text → List IntegrationDto → Bool
has_key key rows = any (λ (row : IntegrationDto). text_eq row.key key) rows

abbrev pub has_id : Text → List ApiKeyItemDto → Bool
has_id id keys = any (λ (key : ApiKeyItemDto). text_eq key.id id) keys

-- An answer to a switch adds and drops no row: the list is as long as it was, and a key is in it
-- where it was before.
pub replace_integration-has_key :
    (updated : IntegrationDto) (key : Text) (rows : List IntegrationDto)
    → (has_key key (replace_integration updated rows) ≡ has_key key rows)
      × (length (replace_integration updated rows) ≡ length rows)
unfolding replace_integration
replace_integration-has_key updated key [] = (refl, refl)
replace_integration-has_key updated key (row ∷ rows) =
    let (a, b) = replace_integration-has_key updated key rows in
    (ground (arith, a, text_eq_iff row.key updated.key), omega (arith, b))

-- A deleted API key is gone from the list, and each other one that was there stays.
pub remove_api_key_finish-has_id :
    (id other : Text) (p : AdminSettings)
    → let p' = remove_api_key_finish id (answered tt) p in
      (has_id id p'.api_keys ≡ false)
      × (id ≢ other → has_id other p'.api_keys ≡ has_id other p.api_keys)
unfolding remove_api_key_finish
remove_api_key_finish-has_id id other p = without p.api_keys
  where
    without :
        (keys : List ApiKeyItemDto)
        → let kept = keep (λ (key : ApiKeyItemDto). not (text_eq key.id id)) keys in
          (has_id id kept ≡ false) × (id ≢ other → has_id other kept ≡ has_id other keys)
    without [] = (refl, λ h. refl)
    without (key ∷ keys) =
        let (a, b) = without keys in
        (
          ground (arith, a),
          λ h. ground (arith, b h, h, text_eq_iff key.id id, text_eq_iff key.id other),
        )
