-- ===== src/ApiClient/Examples.antt =====
-- A server that renews tokens, and one that refuses to.
use zk_auth.Prelude.{ℕ, ◌≡◌, refl, Option, some, none, List, [], ◌∷◌, true, ◌==◌, if◌then◌else◌}
use zk_auth.ApiClient.{
  refresh, endpoint, Request, Response, success, unauthorized, unreachable, body, token_expired,
  Browser, api_fetch,
}
use zk_auth.ApiClient.Retry.{Ends, api_fetch-Ends, refresh_never_ends}

abbrev accepts_token : Option ℕ → Response
accepts_token none = unauthorized (some 3)
accepts_token (some token) = if token == 9 then success (some 1) else unauthorized (some 3)

abbrev reply_to : Response → Request → Response
reply_to renewed r = elim r.path [ refresh ↦ renewed | endpoint n ↦ accepts_token r.bearer ]

abbrev server : Response → List Request → Response
server renewed [] = unauthorized (some 0)
server renewed (r ∷ rs) = reply_to renewed r

abbrev browser : Browser
browser = record { access_token = some 8; session_storage = some 8; requests = [] }

abbrev renewed_browser : Browser
renewed_browser = record {
  access_token = some 9;
  session_storage = some 9;
  requests =
      record { path = endpoint 5; bearer = some 9 }
      ∷ record { path = refresh; bearer = some 8 }
      ∷ record { path = endpoint 5; bearer = some 8 }
      ∷ [];
}

-- The network is down during the refresh.
lost : List Request → Response
lost [] = unreachable
lost (r ∷ rs) = elim r.path [ refresh ↦ unreachable | endpoint n ↦ unauthorized none ]

lost_test :
    api_fetch lost 2 (endpoint 5) true browser
    ≡ some (
      token_expired,
      record {
        access_token = none;
        session_storage = none;
        requests =
            record { path = refresh; bearer = some 8 }
            ∷ record { path = endpoint 5; bearer = some 8 }
            ∷ [];
      },
    )
unfolding api_fetch lost
lost_test = refl

fetch_test :
    api_fetch (server (success (some 9))) 2 (endpoint 5) true browser
    ≡ some (body 1, renewed_browser)
unfolding api_fetch
fetch_test = refl

api_fetch-Ends_example :
    Ends
      (server (success (some 9)))
      3
      browser
      (api_fetch (server (success (some 9))) 2 (endpoint 5) true browser)
api_fetch-Ends_example =
    api_fetch-Ends (server (success (some 9))) 0 (endpoint 5) true browser (λ bearer before. refl)

refresh_never_ends_example :
    api_fetch (server (unauthorized (some 3))) 100 refresh true browser ≡ none
refresh_never_ends_example =
    refresh_never_ends (server (unauthorized (some 3))) 100 browser 8 refl (λ bearer before. refl)
