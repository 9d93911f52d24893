-- ===== src/ApiClient/Retry.antt =====
-- When a call of the API client ends (web/src/lib/api.ts, `apiFetch` and `refreshTokens`).
use zk_auth.Prelude.{
  ℕ, zero, suc, ◌+◌, ◌≤◌, ◌≡◌, refl, arith, Bool, true, false, Option, none, some, List, ◌∷◌,
  length, Option-cases, inl, inr,
}
use zk_auth.ApiClient.{
  Route, refresh, Request, Response, success, unauthorized, failure, unreachable, Result, body,
  api_error, token_expired, rejected, Browser, sent, set_access_token, api_fetch,
}

abbrev pub is_401 : Response → Bool
is_401 (success x) = false
is_401 (unauthorized code) = true
is_401 (failure code) = false
is_401 unreachable = false

module _ (server : List Request → Response) where
  -- The server answers no refresh, or every refresh, with 401.
  abbrev pub AnswersRefresh : Bool → Type 0
  AnswersRefresh refused =
      (bearer : Option ℕ) (before : List Request)
      → is_401 (server (record { path = refresh; bearer = bearer } ∷ before)) ≡ refused

  -- A call has ended after at most this many requests.
  abbrev pub Ends : ℕ → Browser → Option (Result × Browser) → Type 0
  Ends k b none = ⊥
  Ends k b (some (r, b')) = length b'.requests ≤ length b.requests + k

  once_lem : (n : ℕ) (path : Route) (b : Browser) → Ends 1 b (api_fetch server (suc n) path false b)
  unfolding api_fetch
  once_lem n path b = ground arith

  refresh_lem :
      (n : ℕ) (b : Browser)
      → AnswersRefresh false
      → Ends 1 b (api_fetch server (suc n) refresh true b)
  unfolding api_fetch
  refresh_lem n b h = ground (arith, h b.access_token b.requests)

  -- As long as no refresh is answered with 401, every call ends, and after three requests at most:
  -- its own, one refresh, and its own once more.
  pub api_fetch-Ends :
      (n : ℕ) (path : Route) (retry : Bool) (b : Browser)
      → AnswersRefresh false
      → Ends 3 b (api_fetch server (suc (suc n)) path retry b)
  unfolding api_fetch
  api_fetch-Ends n path false b h = ground (arith, once_lem (suc n) path b)
  api_fetch-Ends n path true b h =
      elim (Option-cases (api_fetch server (suc n) refresh true (sent path b))) [
        | inl stops ↦ absurd (ground (arith, stops, refresh_lem n (sent path b) h))
        | inr ((body token, b'), e) ↦
            ground
              (arith, e, refresh_lem n (sent path b) h, once_lem n path (set_access_token token b'))
        | inr ((api_error code, b'), e) ↦ ground (arith, e, refresh_lem n (sent path b) h)
        | inr ((token_expired, b'), e) ↦ ground (arith, e, refresh_lem n (sent path b) h)
        | inr ((rejected, b'), e) ↦ ground (arith, e, refresh_lem n (sent path b) h)
      ]

  -- Where refreshes are answered with 401, a refresh of a client that holds an access token never
  -- ends, however much fuel there is: it refreshes for its own refresh, again and again.
  pub refresh_never_ends :
      (n : ℕ) (b : Browser) (token : ℕ)
      → b.access_token ≡ some token
      → AnswersRefresh true
      → api_fetch server n refresh true b ≡ none
  unfolding api_fetch
  refresh_never_ends zero b token held h = refl
  refresh_never_ends (suc n) b token held h =
      ground (
        arith,
        held,
        h b.access_token b.requests,
        refresh_never_ends n (sent refresh b) token held h,
      )
