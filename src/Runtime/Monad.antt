-- ===== src/Runtime/Monad.antt =====
-- Calls of the web client: state and exceptions. What was written stays written after a throw.
-- Other tasks of the page, and other tabs, run whenever a call waits: the environment says what
-- they have done to the shared state, and how each request settles.
use trusyn_ai.Prelude.{ℕ, String, Text, Bool, Option, List, ◌∷◌}
use trusyn_ai.Runtime.Value.{Value}

pub data Method : Type 0 where
  get post patch delete : Method

-- Whose signal aborts a request: the caller's, or that of the client's own timer.
pub data Signal : Type 0 where
  caller timer : Signal

pub record Request : Type 0 where
  pub method : Method
  pub url : Text
  pub headers : List (String × Text)
  pub body : Option Text
  pub signal : Option Signal

-- api/errors.ts. The optional fields are `undefined` when absent, and hold what the body held.
pub record ApiError : Type 0 where
  pub status : ℕ
  pub message : Value
  pub code : Value
  pub details : Value
  pub request_id : Value

-- What a call may throw: an `ApiError`, the `DOMException` of an abort, or anything else.
pub data Exn : Type 0 where
  api : ApiError → Exn
  aborted : Exn
  other : Exn

pub data Result (A : Type 0) : Type 0 where
  ok : A → Result A
  throw : Exn → Result A

-- `localStorage`
abbrev pub Storage : Type 0
Storage = String → Option Text

-- The state of one page: the storage, whether `refreshPromise` is set, how often the session
-- change event was dispatched, and the requests that were sent, the latest first.
pub record App : Type 0 where
  pub storage : Storage
  pub refreshing : Bool
  pub emitted : ℕ
  pub sent : List Request

-- How a promise of the platform settles: `fetch` and `text()` reject with an abort or another
-- error, never with an `ApiError`.
pub data Settled (A : Type 0) : Type 0 where
  fulfilled : A → Settled A
  abort : Settled A
  failure : Settled A

pub record Response : Type 0 where
  pub status : ℕ
  pub text : Settled Text

pub record Env : Type 0 where
  -- the setting `VITE_API_BASE_URL`
  pub base_url : Option Text
  pub json_parse : Text → Option Value
  pub json_stringify : Value → Text
  -- `String(v)`
  pub to_text : Value → Text
  pub to_upper_case : Text → Text
  -- whether `Headers.set` takes a value; for any other it throws a `TypeError`
  pub is_header_value : Text → Bool
  -- `URLSearchParams.toString`
  pub form_encode : List (String × Text) → Text
  -- the storage, and whether a refresh is pending, when a call that waited goes on
  pub storage_after : App → Storage
  pub refreshing_after : App → Bool
  -- how `fetch` settles, and how a refresh that another task began settles
  pub settle : App → Request → Settled Response
  pub join : App → Settled Value

abbrev pub Call : Type 0 → Type 0
Call A = App → Result A × App

module _ {A : Type 0} where
  abbrev pub pure : A → Call A
  pure a s = (ok a, s)

  abbrev pub raise : Exn → Call A
  raise e s = (throw e, s)

  abbrev pub gets : (App → A) → Call A
  gets f s = (ok (f s), s)

  abbrev pub settled : Settled A → Result A
  settled (fulfilled a) = ok a
  settled abort = throw aborted
  settled failure = throw other

  -- `await` of a promise of the platform, where nothing else waits for it
  abbrev pub await_settled : Settled A → Call A
  await_settled p s = (settled p, s)

abbrev pub modify : (App → App) → Call (Unit {0})
modify f s = (ok tt, f s)

-- A throw ends a call where it stands.
abbrev pub proceed : {A B : Type 0} → (A → Call B) → Result A × App → Result B × App
proceed next (ok a, s) = next a s
proceed next (throw e, s) = (throw e, s)

-- `await`, or a step after a step
infixl 5 ◌>>=◌
abbrev pub ◌>>=◌ : {A B : Type 0} → Call A → (A → Call B) → Call B
◌>>=◌ first next s = proceed next (first s)

infixl 5 ◌>>◌
abbrev pub ◌>>◌ : {A B : Type 0} → Call A → Call B → Call B
first >> second = first >>= λ ignored. second

-- `try { m } catch (e) { handler(e) }`
abbrev pub catch : {A : Type 0} → Call A → (Exn → Call A) → Call A
catch m handler s = let (r, s') = m s in elim r [ ok a ↦ (ok a, s') | throw e ↦ handler e s' ]

-- `finally`: `f` is run however `m` ends.
abbrev pub finally : {A : Type 0} → Call A → (App → App) → Call A
finally m f s = let (r, s') = m s in (r, f s')

-- What the other tasks have done when a call that waited goes on.
abbrev pub resume : Env → App → App
resume env s = record s { storage = env.storage_after s; refreshing = env.refreshing_after s }

-- `await fetch(...)`, and the text of the body
abbrev pub log_request : Request → App → App
log_request q s = record s { sent = q ∷ s.sent }

abbrev pub fetch : Env → Request → Call Response
fetch env q s = let s' = log_request q s in (settled (env.settle s' q), resume env s')
