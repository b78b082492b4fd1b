-- ===== src/Types/Common.antt =====
-- api/types/common.ts
use trusyn_ai.Prelude.{ℕ, Text, Option, List}

pub data Severity : Type 0 where
  low medium high critical : Severity

pub data Decision : Type 0 where
  allow block review quarantine rate_limit : Decision

-- A number of a body, at least 0 and with a fraction: `mantissa` / 10 ^ `decimals`.
pub record Number : Type 0 where
  pub mantissa : ℕ
  pub decimals : ℕ

pub record ApiSuccess (T : Type 0) : Type 0 where
  pub result : T
  pub message : Option Text

pub record PaginatedResult (T : Type 0) : Type 0 where
  pub items : List T
  pub total : ℕ
  pub limit : ℕ
  pub offset : ℕ
