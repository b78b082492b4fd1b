-- ===== src/Types/Account.antt =====
-- The users, organizations and tokens of api/types/auth.ts, and the integrations and keys of
-- api/types/domain.ts.
use trusyn_ai.Prelude.{ℕ, Text, Bool, Option, List}
use trusyn_ai.Runtime.Value.{Fields}

pub data UserRole : Type 0 where
  super_admin org_admin analyst developer : UserRole

pub record UserDto : Type 0 where
  pub id : Text
  pub organization_id : Text
  pub email : Text
  pub full_name : Text
  pub role : UserRole
  pub is_active : Bool
  pub avatar_url : Option Text
  pub preferences : Option Fields
  pub last_login_at : Option Text
  pub created_at : Text
  pub updated_at : Text

pub data OrganizationStatus : Type 0 where
  active suspended trial disabled : OrganizationStatus

pub record OrganizationDto : Type 0 where
  pub id : Text
  pub name : Text
  pub slug : Text
  pub description : Option Text
  pub plan : Text
  pub status : OrganizationStatus
  pub website : Option Text
  pub settings : Option Fields
  pub created_at : Text
  pub updated_at : Text

pub record LoginRequest : Type 0 where
  pub email : Text
  pub password : Text

pub record TokenResponse : Type 0 where
  pub access_token : Text
  pub refresh_token : Text
  pub token_type : Text
  pub access_token_expires_in : ℕ
  pub refresh_token_expires_in : ℕ
  pub user : UserDto
  pub organization : OrganizationDto

pub record CurrentUserResponse : Type 0 where
  pub user : UserDto
  pub organization : OrganizationDto
  pub role : Text
  pub permissions : List Text

pub record IntegrationDto : Type 0 where
  pub key : Text
  pub enabled : Bool
  pub config : Fields

pub record ApiKeyItemDto : Type 0 where
  pub id : Text
  pub organization_id : Text
  pub name : Text
  pub permissions : Fields
  pub last_used_at : Option Text
  pub expires_at : Option Text
  pub created_at : Text
  pub updated_at : Text

pub record ApiKeyCreateResponseDto : Type 0 where
  pub id : Text
  pub name : Text
  pub key : Text
  pub permissions : Fields
  pub expires_at : Option Text
  pub created_at : Text
