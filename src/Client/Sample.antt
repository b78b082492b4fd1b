-- ===== src/Client/Sample.antt =====
-- An environment in which the assumptions hold, and the theorems at inputs there.
use trusyn_ai.Prelude.{
  ℕ, zero, suc, String, Text, codes, ◌≡◌, refl, true, Option, none, some, List, [], ◌∷◌, ◌++◌,
  arith, if◌then◌else◌, ◌==◌, leb, ◌&&◌, ◌-◌, map, length, take,
}
use trusyn_ai.Runtime.Value.{Value, str, obj, blank, field, get_prop, is_string}
use trusyn_ai.Runtime.Monad.{Env, Response, Settled, fulfilled, failure}
use trusyn_ai.Session.User.{SessionUser, session_value}
use trusyn_ai.Client.Request.{legal_headers}
use trusyn_ai.Session.Laws.{KeepsSession, HasTexts}

-- A stand-in for JSON: the texts of a stored user, each behind its length, and three bodies.
abbrev pub text_of : Value → Text
text_of (str t) = t
text_of _ = []

abbrev pub write_text : Value → Text → Text
write_text v rest = length (text_of v) ∷ (text_of v ++ rest)

abbrev pub stringify : Value → Text
stringify v =
    1
    ∷ write_text (get_prop v "id") (
        write_text (get_prop v "organizationId") (
          write_text (get_prop v "name") (
            write_text (get_prop v "role")
              (write_text (get_prop v "email") (write_text (get_prop v "initials") [])))))

abbrev pub drop : ℕ → Text → Text
drop zero s = s
drop (suc n) [] = []
drop (suc n) (c ∷ s) = drop n s

-- one text, handed on with what follows it
abbrev pub read_text : {A : Type 0} → Text → (Text → Text → A) → A
read_text [] k = k [] []
read_text (n ∷ s) k = k (take n s) (drop n s)

abbrev pub parse_user : Text → Value
parse_user s₀ = read_text s₀ λ id s₁. read_text s₁ λ organization_id s₂. read_text s₂ λ name s₃.
    read_text s₃ λ role s₄. read_text s₄ λ email s₅. read_text s₅ λ initials s₆.
      session_value (record {
        id = str id;
        organization_id = str organization_id;
        name = str name;
        role = str role;
        email = str email;
        initials = str initials;
      })

abbrev pub ava : Value
ava = obj (
    field "id" (str (codes "u1")) (
      field "organization_id" (str (codes "o1")) (
        field "full_name" (str (codes "Ava Sharma"))
          (field "role" (str (codes "ANALYST")) (field "email" (str (codes "a@t.ai")) blank)))))

abbrev pub account : Value
account = obj (
    field "access_token" (str (codes "new"))
      (field "refresh_token" (str (codes "next")) (field "user" ava blank)))

abbrev pub parse : Text → Option Value
parse [] = none
parse (c ∷ s) =
    if c == 1
    then some (parse_user s)
    else if c == 2
    then some (obj (field "data" account blank))
    else if c == 3
    then some (obj (field "error" (obj (field "message" (str (codes "no")) blank)) blank))
    else none

take-append : (s t : Text) → take (length s) (s ++ t) ≡ s
take-append [] t = refl
take-append (c ∷ s) t = rw (take-append s t)

drop-append : (s t : Text) → drop (length s) (s ++ t) ≡ t
drop-append [] t = refl
drop-append (c ∷ s) t = drop-append s t

str-text_of : (v : Value) → is_string v ≡ true → str (text_of v) ≡ v
str-text_of v h = ground arith

abbrev pub upper : ℕ → ℕ
upper c = if leb 97 c && leb c 122 then c - 32 else c

abbrev pub encode_pairs : List (String × Text) → Text
encode_pairs [] = []
encode_pairs ((k, v) ∷ ps) = b'&' ∷ (codes k ++ (b'=' ∷ (v ++ encode_pairs ps)))

-- The first request is refused with 401, the second is answered with an account, the others are.
abbrev pub replies : ℕ → ℕ → Settled Response
replies refused n = fulfilled (
    if n == refused
    then record { status = 401; text = fulfilled (3 ∷ []) }
    else record { status = 200; text = fulfilled (2 ∷ []) })

abbrev pub env_with : (ℕ → Settled Response) → Env
env_with reply = record {
  base_url = none;
  json_parse = parse;
  json_stringify = stringify;
  to_text = text_of;
  to_upper_case = map upper;
  is_header_value = λ value. true;
  form_encode = encode_pairs;
  storage_after = λ s. s.storage;
  refreshing_after = λ s. s.refreshing;
  settle = λ s q. reply (length s.sent);
  join = λ s. failure;
}

parse_user-stringify :
    (u : SessionUser) → HasTexts u → parse (stringify (session_value u)) ≡ some (session_value u)
parse_user-stringify u h = simp (
  take-append,
  drop-append,
  str-text_of u.id h.id,
  str-text_of u.organization_id h.organization_id,
  str-text_of u.name h.name,
  str-text_of u.role h.role,
  str-text_of u.email h.email,
  str-text_of u.initials h.initials,
)

pub env_with-KeepsSession : (reply : ℕ → Settled Response) → KeepsSession (env_with reply)
env_with-KeepsSession reply = record {
  parse-stringify = λ u h. parse_user-stringify u h;
  parse-empty = refl;
}

pub legal_headers-env_with :
    (reply : ℕ → Settled Response) (headers : List (String × Text))
    → legal_headers (env_with reply) headers ≡ true
legal_headers-env_with reply [] = refl
legal_headers-env_with reply ((name, value) ∷ headers) = legal_headers-env_with reply headers
