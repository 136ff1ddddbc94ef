-- ===== src/Http.antt =====
-- What the controllers of the services share: the common/dto/api-response.dto.ts of each service,
-- the numbers they read from a query string, and the handling of a bearer token.
pub mod Pages
use saas_chassis.Prelude.{
  ℕ, zero, suc, ◌+◌, ◌-◌, ◌/◌, String, ◌≡◌, Bool, true, false, ◌||◌, Option, none, some, List, [],
  ◌∷◌, Result, ok, err, Exception, unauthorized, codes, parse_digits, nat_eq, leb, ◌&&◌, or_else,
  if◌then◌else◌,
}

-- The claims of an access token, as the services that verify it see them.
pub record JwtPayload : Type 0 where
  pub sub : String
  pub email : String
  pub tenant_id : Option String
  pub is_platform_admin : Bool
  pub roles : Option (List String)
  pub permissions : Option (List String)
  pub is_impersonating : Option Bool
  pub real_user_id : Option String

-- The `meta` of a paginated answer.
pub record PageMeta : Type 0 where
  pub total : ℕ
  pub page : ℕ
  pub limit : ℕ
  pub total_pages : ℕ

pub record ApiResponse {ℓ} (A : Type ℓ) : Type ℓ where
  pub success : Bool
  pub payload : Option A
  pub message : Option String
  pub errors : Option (List String)
  pub page_meta : Option PageMeta

-- `Math.ceil(a / b)` for a divisor that is not 0.
abbrev pub ceil_div : ℕ → ℕ → ℕ
ceil_div a b = (a + (b - 1)) / b

module _ {ℓ} {A : Type ℓ} where
  abbrev pub ok_response : A → ApiResponse A
  ok_response a = record {
    success = true;
    payload = some a;
    message = none;
    errors = none;
    page_meta = none;
  }

  abbrev pub ok_message : A → String → ApiResponse A
  ok_message a text = record {
    success = true;
    payload = some a;
    message = some text;
    errors = none;
    page_meta = none;
  }

  abbrev pub created_response : A → ApiResponse A
  created_response a = record {
    success = true;
    payload = some a;
    message = some "Created successfully";
    errors = none;
    page_meta = none;
  }

  abbrev pub paginated : A → (total page limit : ℕ) → ApiResponse A
  paginated a total page limit = record {
    success = true;
    payload = some a;
    message = none;
    errors = none;
    page_meta =
        some (record {
          total = total;
          page = page;
          limit = limit;
          total_pages = ceil_div total limit;
        });
  }

pub data ℤ : Type 0 where
  pos : ℕ → ℤ
  -- `negsuc n` is -(n + 1).
  negsuc : ℕ → ℤ

-- `-0` is written as 0: no test of the source tells them apart.
abbrev negate : ℕ → ℤ
negate zero = pos zero
negate (suc n) = negsuc n

-- What `parseInt` skips: the white space and line terminators of ECMAScript.
abbrev is_space : ℕ → Bool
is_space c =
    leb 9 c && leb c 13
    || nat_eq c 32
    || nat_eq c 160
    || nat_eq c 5760
    || leb 8192 c && leb c 8202
    || nat_eq c 8232
    || nat_eq c 8233
    || nat_eq c 8239
    || nat_eq c 8287
    || nat_eq c 12288
    || nat_eq c 65279

unfoldable skip_spaces : List ℕ → List ℕ
skip_spaces [] = []
skip_spaces (c ∷ cs) = let rest = skip_spaces cs in if is_space c then rest else c ∷ cs

unfoldable signed : List ℕ → Option ℤ
unfolding parse_digits
signed [] = none
signed (c ∷ cs) =
    if nat_eq c b'-'
    then elim (parse_digits none cs) [ none ↦ none | some n ↦ some (negate n) ]
    else elim (parse_digits none (if nat_eq c b'+' then cs else c ∷ cs)) [
      | none ↦ none
      | some n ↦ some (pos n)
    ]

-- `parseInt(text, 10)`; `none` is NaN.
unfoldable pub parse_integer : String → Option ℤ
unfolding skip_spaces signed
parse_integer s = signed (skip_spaces (codes s))

-- `Math.max(1, n || d)` of a parsed number n.
abbrev pub at_least_one : (d : ℕ) → Option ℤ → ℕ
at_least_one d none = d
at_least_one d (some (pos zero)) = d
at_least_one d (some (pos (suc n))) = suc n
at_least_one d (some (negsuc n)) = 1

-- `Math.max(1, parseInt(page, 10) || 1)`, where a page that is left out is '1'.
unfoldable pub page_number : Option String → ℕ
unfolding parse_integer
page_number page = at_least_one 1 (parse_integer (or_else page "1"))

-- `Math.min(100, Math.max(1, parseInt(limit, 10) || 20))`
unfoldable pub limit_number : Option String → ℕ
unfolding parse_integer
limit_number limit =
    let n = at_least_one 20 (parse_integer (or_else limit "20")) in if leb 100 n then 100 else n

-- `handleRequest` of the JWT guards: what the verification of the token gave, an error or a user.
pub handle_request {ℓ} : {A : Type ℓ} → Option Exception → Option A → Result A
handle_request (some e) user = err e
handle_request none none = err (unauthorized "Invalid or missing access token")
handle_request none (some user) = ok user
