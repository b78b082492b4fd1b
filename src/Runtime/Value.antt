-- ===== src/Runtime/Value.antt =====
-- The values that a response body may hold. The web client casts them to its DTO types without a
-- check (frontend/web-app/src/app/api/client.ts), so each property access is on such a value.
use text.Mathlib.Text.{◌==◌ as str_eq}
use trusyn_ai.Prelude.{ℕ, zero, String, Text, Bool, true, false, if◌then◌else◌, []}

-- Numbers are kept as naturals: the modelled code never computes with a number of a body.
mutual
  pub data Fields : Type 0 where
    blank : Fields
    field : String → Value → Fields → Fields

  pub data Value : Type 0 where
    undefined null : Value
    boolean : Bool → Value
    num : ℕ → Value
    str : Text → Value
    obj : Fields → Value
    arr : Elements → Value

  pub data Elements : Type 0 where
    bare : Elements
    element : Value → Elements → Elements

abbrev pub lookup : String → Fields → Value
lookup k blank = undefined
lookup k (field j v fs) = if str_eq j k then v else lookup k fs

-- `v?.k`, for the names `k` that the client reads: no string, number or array has one of them.
abbrev pub get_prop : Value → String → Value
get_prop (obj fs) k = lookup k fs
get_prop _ k = undefined

abbrev pub is_nullish : Value → Bool
is_nullish undefined = true
is_nullish null = true
is_nullish _ = false

-- `v ?? d`
abbrev pub or_else : Value → Value → Value
or_else v d = if is_nullish v then d else v

-- `Boolean(v)`; the number 0 and the empty text are false too.
abbrev pub is_truthy : Value → Bool
is_truthy undefined = false
is_truthy null = false
is_truthy (boolean b) = b
is_truthy (num zero) = false
is_truthy (str []) = false
is_truthy _ = true

-- `typeof v === "string"`
abbrev pub is_string : Value → Bool
is_string (str _) = true
is_string _ = false

-- `v && typeof v === "object"`
abbrev pub is_object : Value → Bool
is_object (arr _) = true
is_object (obj _) = true
is_object _ = false
