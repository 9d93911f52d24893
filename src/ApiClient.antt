-- ===== src/ApiClient.antt =====
-- The API client of the web application: web/src/lib/api.ts. The server is given: what it answers to a
-- request, by all requests so far. A body is a number, which is the access token where tokens are
-- answered. The recursion of `apiFetch` takes fuel, and `none` is the lack of it.
pub mod Retry
mod Examples
use zk_auth.Prelude.{
  ℕ, zero, suc, Bool, true, false, ◌&&◌, Option, none, some, List, ◌∷◌, is_some, if◌then◌else◌,
}

pub data Route : Type 0 where
  refresh : Route
  endpoint : ℕ → Route

-- A request with its bearer token.
pub record Request : Type 0 where
  pub path : Route
  pub bearer : Option ℕ

-- A 2xx response with its body, a 401 and any other response with the code of its error, and a `fetch`
-- that rejects. `none` is a body that does not parse.
pub data Response : Type 0 where
  success unauthorized failure : Option ℕ → Response
  unreachable : Response

-- What a call ends in: the body, an `ApiClientError` of the server's code (`none` is UNKNOWN) or
-- TOKEN_EXPIRED, and the error of `fetch` or of the parser.
pub data Result : Type 0 where
  body : ℕ → Result
  api_error : Option ℕ → Result
  token_expired rejected : Result

-- `return res.json()`
abbrev pub parsed : Option ℕ → Result
parsed (some x) = body x
parsed none = rejected

-- `_accessToken`, its copy in sessionStorage, and the requests that were sent, the newest first.
pub record Browser : Type 0 where
  pub access_token : Option ℕ
  pub session_storage : Option ℕ
  pub requests : List Request

abbrev pub set_access_token : ℕ → Browser → Browser
set_access_token token b = record b { access_token = some token; session_storage = some token }

abbrev pub clear_access_token : Browser → Browser
clear_access_token b = record b { access_token = none; session_storage = none }

-- The token in memory, or else the one in sessionStorage.
abbrev pub restored : Option ℕ → Option ℕ → Option ℕ
restored (some token) stored = some token
restored none stored = stored

abbrev pub get_access_token : Browser → Browser
get_access_token b = record b { access_token = restored b.access_token b.session_storage }

abbrev pub sent : Route → Browser → Browser
sent path b = record b { requests = record { path = path; bearer = b.access_token } ∷ b.requests }

module _ (server : List Request → Response) where
  -- A 401 is tried again once after a refresh, which is a request like any other.
  unfoldable pub api_fetch : ℕ → Route → Bool → Browser → Option (Result × Browser)
  api_fetch zero path retry b = none
  api_fetch (suc n) path retry b = elim (server (sent path b).requests) [
    | unreachable ↦ some (rejected, sent path b)
    | success x ↦ some (parsed x, sent path b)
    | failure code ↦ some (api_error code, sent path b)
    | unauthorized code ↦ elim (retry && is_some b.access_token) [
      | false ↦ some (api_error code, sent path b)
      | true ↦ elim (api_fetch n refresh true (sent path b)) [
        | none ↦ none
        | some (body token, b') ↦ api_fetch n path false (set_access_token token b')
        | some (api_error code', b') ↦ some (token_expired, clear_access_token b')
        | some (token_expired, b') ↦ some (token_expired, clear_access_token b')
        | some (rejected, b') ↦ some (token_expired, clear_access_token b')
      ]
    ]
  ]

  -- The token of a login or a refresh is kept.
  abbrev pub keep_token : Option (Result × Browser) → Option (Result × Browser)
  keep_token none = none
  keep_token (some (body token, b)) = some (body token, set_access_token token b)
  keep_token (some (api_error code, b)) = some (api_error code, b)
  keep_token (some (token_expired, b)) = some (token_expired, b)
  keep_token (some (rejected, b)) = some (rejected, b)

  abbrev pub refresh_tokens : ℕ → Browser → Option (Result × Browser)
  refresh_tokens n b = keep_token (api_fetch n refresh true b)

  abbrev pub submit_proof : ℕ → Browser → Option (Result × Browser)
  submit_proof n b = keep_token (api_fetch n (endpoint 0) true b)

  abbrev pub end_session : Option (Result × Browser) → Option (Result × Browser)
  end_session (some (body x, b)) = some (body x, clear_access_token b)
  end_session other = other

  abbrev pub logout : ℕ → Browser → Option (Result × Browser)
  logout n b = end_session (api_fetch n (endpoint 1) true b)
