-- ===== src/OAuth/Scopes.antt =====
-- What a validated authorization request guarantees
-- (backend/src/services/oauth/oauth.service.ts, `validateAuthorizeRequest`).
use zk_auth.Prelude.{
  ℕ, ◌≡◌, ◌≢◌, refl, sym, ◌∙◌, ◌⊎◌, inl, inr, Bool, true, false, Option, none, some, List, [], ◌∷◌,
  subst, arith, select, Bool-cases, if◌then◌else◌,
}
use zk_auth.Errors.{
  Error, app_error, unsupported_grant_type, invalid_client, invalid_request, invalid_scope,
  other_error,
}
use zk_auth.Effects.{Outcome, ok, err}
use zk_auth.Text.{Text, split, join}
use zk_auth.Text.Laws.{AllNoSpace, parts_of, split-NoSpace, split-join, select-AllNoSpace}
use zk_auth.Stores.{Table, mem, first_of_keys, find_first_lem}
use zk_auth.Schema.{Backends, OAuthClientRow}
use zk_auth.World.{World}
use zk_auth.Session.{Env}
use zk_auth.OAuth.{
  AuthorizeRequestParams, ValidatedAuthorizeRequest, or_default, is_part, has_text,
  requested_scopes, granted_scopes, is_supported, with_client_id, active_client, grant_scopes,
  validate_client, validate_authorize_request, is_code_response,
}

abbrev pub AllIn : List Text → List Text → Type 0
AllIn allowed [] = Unit
AllIn allowed (scope ∷ scopes) = (has_text allowed scope ≡ true) × AllIn allowed scopes

select-AllIn : (allowed scopes : List Text) → AllIn allowed (select (has_text allowed) scopes)
select-AllIn allowed [] = tt
select-AllIn allowed (scope ∷ scopes) = elim (Bool-cases (has_text allowed scope)) [
  | inl e ↦ rw e (e, select-AllIn allowed scopes)
  | inr e ↦ rw e (select-AllIn allowed scopes)
]

nonempty : {s : Text} {rest : List Text} → s ∷ rest ≢ []
nonempty e = cc

granted_lem :
    (allowed : List Text) (scope : Option Text)
    → select (has_text allowed) (requested_scopes scope) ≡ granted_scopes allowed scope
unfolding granted_scopes
granted_lem allowed scope = refl

granted-AllNoSpace :
    (allowed : List Text) (scope : Option Text) → AllNoSpace (granted_scopes allowed scope)
unfolding granted_scopes requested_scopes
granted-AllNoSpace allowed scope = select-AllNoSpace (has_text allowed) _ (
    select-AllNoSpace is_part (parts_of (split (or_default scope)))
      (split-NoSpace (or_default scope)))

module _ (B : Backends) (env : Env) (sha256 : ℕ → ℕ) where
  -- The client behind a granted request, and what it was granted.
  pub record Granted (p : AuthorizeRequestParams) (w : World B) (v : ValidatedAuthorizeRequest)
      : Type 0 where
    pub client : OAuthClientRow
    pub found : Table.row B.oauth_clients w.oauth_clients v.client_db_id ≡ some client
    pub named : (client.client_id ≡ p.client_id) × (v.client_id ≡ p.client_id)
    pub activated : client.is_active ≡ true
    pub registered : mem p.redirect_uri client.redirect_uris ≡ true
    pub redirect : v.redirect_uri ≡ p.redirect_uri
    pub scopes : parts_of (split v.scope) ≡ granted_scopes client.scopes p.scope
    pub at_least_one : granted_scopes client.scopes p.scope ≢ []
    pub allowed : AllIn client.scopes (parts_of (split v.scope))
    pub challenge : v.code_challenge ≡ p.code_challenge
    pub supported : is_supported v.code_challenge v.code_challenge_method ≡ true

  abbrev pub Refusal : Error → Type 0
  Refusal e =
      (e ≡ app_error unsupported_grant_type 400)
      ⊎ (e ≡ app_error invalid_client 400)
      ⊎ (e ≡ app_error invalid_request 400)
      ⊎ (e ≡ app_error invalid_scope 400)
      ⊎ (e ≡ other_error)

  abbrev pub Authorized :
      AuthorizeRequestParams → World B → Outcome (World B) ValidatedAuthorizeRequest → Type 0
  Authorized p w (ok v w') = (w' ≡ w) × Granted p w v
  Authorized p w (err e w') = (w' ≡ w) × Refusal e

  abbrev pub client_of : World B → ℕ → Option (ℕ × OAuthClientRow)
  client_of w id =
      first_of_keys B.oauth_clients
        (Table.find_keys B.oauth_clients (with_client_id B env sha256 id) w.oauth_clients)
        w.oauth_clients

  grant_scopes_lem :
      (p : AuthorizeRequestParams) (w : World B) (id : ℕ) (client : OAuthClientRow)
      (scopes : List Text)
      → Table.row B.oauth_clients w.oauth_clients id ≡ some client
      → client.client_id ≡ p.client_id
      → client.is_active ≡ true
      → mem p.redirect_uri client.redirect_uris ≡ true
      → granted_scopes client.scopes p.scope ≡ scopes
      → Authorized p w (grant_scopes B env sha256 p id client scopes w)
  unfolding grant_scopes
  grant_scopes_lem p w id client [] f n a r s = (refl, inr (inr (inr (inl refl))))
  grant_scopes_lem p w id client (scope ∷ scopes) f n a r s =
      elim (Bool-cases (is_supported p.code_challenge p.code_challenge_method)) [
        | inr e ↦ rw e (refl, inr (inr (inl refl)))
        | inl e ↦
            let whole : parts_of (split (join (scope ∷ scopes))) ≡ scope ∷ scopes =
              split-join scope scopes
                (subst AllNoSpace s (granted-AllNoSpace client.scopes p.scope)) in
            simp e (
              refl,
              record {
                client = client;
                found = f;
                named = (n, n);
                activated = a;
                registered = r;
                redirect = refl;
                scopes = whole ∙ sym s;
                at_least_one = λ h. nonempty (sym s ∙ h);
                allowed = subst (AllIn client.scopes) (s ∙ sym whole) (
                    subst (AllIn client.scopes) (granted_lem client.scopes p.scope)
                      (select-AllIn client.scopes (requested_scopes p.scope)));
                challenge = refl;
                supported = e;
              },
            )
      ]

  validate_client_lem :
      (p : AuthorizeRequestParams) (w : World B) (client : Option (ℕ × OAuthClientRow))
      → client_of w p.client_id ≡ client
      → Authorized p w (validate_client B env sha256 p (active_client B env sha256 client) w)
  unfolding validate_client
  validate_client_lem p w none h = (refl, inr (inl refl))
  validate_client_lem p w (some (id, client)) h =
      let (found, named) =
        find_first_lem B.oauth_clients (with_client_id B env sha256 p.client_id) w.oauth_clients id
          client h in
      elim (Bool-cases client.is_active) [
        | inr e ↦ simp e (refl, inr (inl refl))
        | inl e ↦ elim (Bool-cases (mem p.redirect_uri client.redirect_uris)) [
          | inr r ↦ simp (e, r) (refl, inr (inr (inl refl)))
          | inl r ↦
              simp (e, r)
                (grant_scopes_lem p w id client (granted_scopes client.scopes p.scope) found
                  (ground (arith, named)) e r refl)
        ]
      ]

  validate_answers :
      (p : AuthorizeRequestParams) (w : World B)
      → validate_authorize_request B env sha256 p w ≡ (
          if is_code_response p.response_type
          then (if Table.down B.oauth_clients w.oauth_clients
              then err other_error w
              else validate_client B env sha256 p
                  (active_client B env sha256 (client_of w p.client_id))
                  w)
          else err (app_error unsupported_grant_type 400) w)
  unfolding validate_authorize_request
  validate_answers p w = ground arith

  -- An authorization request is granted only to an active client under its own client id, for one of
  -- its registered redirect URIs, and with S256 where it has a code challenge. The scope text that is
  -- kept splits into exactly the requested scopes that the client is allowed, and there is at least
  -- one. Nothing is written, and every refusal is UNSUPPORTED_GRANT_TYPE, INVALID_CLIENT,
  -- INVALID_REQUEST, INVALID_SCOPE or a failure of the database.
  pub validate-Authorized :
      (p : AuthorizeRequestParams) (w : World B)
      → Authorized p w (validate_authorize_request B env sha256 p w)
  validate-Authorized p w =
      rw (validate_answers p w)
        (cases (is_code_response p.response_type) (Table.down B.oauth_clients w.oauth_clients))
    where
      cases :
          (code down : Bool)
          → Authorized p w (
              if code
              then (if down
                  then err other_error w
                  else validate_client B env sha256 p
                      (active_client B env sha256 (client_of w p.client_id))
                      w)
              else err (app_error unsupported_grant_type 400) w)
      cases false down = (refl, inl refl)
      cases true true = (refl, inr (inr (inr (inr refl))))
      cases true false = validate_client_lem p w (client_of w p.client_id) refl
