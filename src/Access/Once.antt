-- ===== src/Access/Once.antt =====
-- A refresh token is good for one rotation (Services/Auth), and for none after a logout.
use paycore_backend.Base.{◌≡◌, String, refl, inl, inr, Option-cases, subst, sym}
use paycore_backend.Base.Table.{find, IsKeyed}
use paycore_backend.Core.Errors.{Result, Result-cases, ok, err, unauthorized}
use paycore_backend.Core.Security.{create_refresh_token, hash_refresh_token}
use paycore_backend.Models.Rows.{User}
use paycore_backend.Models.Access.{RefreshToken}
use paycore_backend.Session.{Env, Session, request, resume}
use paycore_backend.Repositories.Auth.{
  token_id, token_clashes, insert_token, create_token, get_by_hash, revoke,
}
use paycore_backend.Services.Auth.{
  issue_token_pair, store_refresh_token, open_session, check_refresh, refresh, TokenResponse,
}
use paycore_backend.Access.Tokens.{IsSpent, IsSpent-insert, revoke-IsSpent}
use paycore_backend.Access.Requests.{Requests, Requests-keep}
use paycore_backend.Access.Rotation.{check_refresh-eq-ok}

-- A spent token is refused.
check_refresh-spent :
    (env : Env) (raw : String) (s : Session)
    → IsSpent (hash_refresh_token env raw) s.db.refresh_tokens
    → check_refresh env raw s.db ≡ err unauthorized
unfolding check_refresh get_by_hash
check_refresh-spent env raw s h = rw (h.there, h.revoked) refl

refused :
    (env : Env) (raw : String) (s : Session)
    → IsSpent (hash_refresh_token env raw) s.committed.refresh_tokens
    → request (refresh env raw) s ≡ (err unauthorized, record s { db = s.committed })
unfolding refresh
refused env raw s h = rw (check_refresh-spent env raw (record s { db = s.committed }) h) refl

module _ (hash : String) where
  insert_token-seen :
      (t : RefreshToken) (s : Session)
      → IsSpent hash s.db.refresh_tokens
      → IsSpent hash (insert_token t s).1.db.refresh_tokens
  unfolding insert_token
  insert_token-seen t s h = elim (Option-cases (find (token_clashes t) s.db.refresh_tokens)) [
    | inl e ↦ rw e (IsSpent-insert hash s.db.refresh_tokens t e h)
    | inr (_, e) ↦ rw e h
  ]

  committed_if_ok :
      {A : Type 0} (o : Result A × Session) (r b : TokenResponse)
      → IsSpent hash o.1.db.refresh_tokens
      → (resume o (λ _ s. (ok b, record s { committed = s.db }))).0 ≡ ok r
      → IsSpent hash
          (resume o (λ _ s. (ok b, record s { committed = s.db }))).1.committed.refresh_tokens
  committed_if_ok (ok a, s) r b h e = h
  committed_if_ok (err a, s) r b h e = absurd (cc)

  open_session-IsSpent :
      (env : Env) (user : User) (s : Session) {r : TokenResponse}
      → IsSpent hash s.db.refresh_tokens
      → (open_session env user s).0 ≡ ok r
      → IsSpent hash (open_session env user s).1.committed.refresh_tokens
  unfolding open_session issue_token_pair create_refresh_token store_refresh_token create_token
  open_session-IsSpent env user s {r} h e =
      committed_if_ok (store_refresh_token env user.id _ _) r _ (insert_token-seen _ _ h) e

-- A rotation that goes through spends its token.
spends :
    (env : Env) (raw : String) (s : Session) {r : TokenResponse}
    → IsKeyed token_id s.db.refresh_tokens
    → (refresh env raw s).0 ≡ ok r
    → IsSpent (hash_refresh_token env raw) (refresh env raw s).1.committed.refresh_tokens
unfolding refresh revoke get_by_hash
spends env raw s {r} keyed e = elim (Result-cases (check_refresh env raw s.db)) [
  | inl (x, q) ↦ absurd (let bad : (refresh env raw s).0 ≡ err x = rw q refl in cc)
  | inr (pair, q) ↦
      let hash = hash_refresh_token env raw in
      let found = (check_refresh-eq-ok env raw s q).0 in
      let spent = revoke-IsSpent hash s.db.refresh_tokens pair.0 keyed found in
      let s1 = (revoke pair.0 s).1 in
      let reads : (open_session env pair.1 s1).0 ≡ ok r =
        subst
          (λ o.
            (resume (o, s) (λ p. λ t. resume (revoke p.0 t) (λ _. open_session env p.1))).0 ≡ ok r)
          q e in
      rw q (open_session-IsSpent hash env pair.1 s1 spent reads)
]

-- After a refresh that was answered with a new pair, no sequence of registrations, logins, refreshes
-- and logouts makes the old token good again: a refresh with it, by surroundings that hash it to the
-- same text, raises UnauthorizedError and writes nothing. The table of tokens has no two rows of one
-- primary key.
pub refresh-once :
    (env env' : Env) (raw : String) (s s' : Session) {r : TokenResponse}
    → IsKeyed token_id s.committed.refresh_tokens
    → (request (refresh env raw) s).0 ≡ ok r
    → Requests (request (refresh env raw) s).1 s'
    → hash_refresh_token env' raw ≡ hash_refresh_token env raw
    → request (refresh env' raw) s' ≡ (err unauthorized, record s' { db = s'.committed })
refresh-once env env' raw s s' {r} keyed e later same_hash = refused env' raw s' (
    subst (λ h. IsSpent h s'.committed.refresh_tokens) (sym same_hash)
      (Requests-keep (hash_refresh_token env raw) later
        (spends env raw (record s { db = s.committed }) keyed e)))
