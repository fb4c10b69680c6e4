-- ===== src/Access/Tokens.antt =====
-- Refresh tokens (Repositories/Auth) under the operations of Services/Auth.
use paycore_backend.Base.{
  ◌≡◌, true, false, String, none, some, List, ◌∷◌, arith, refl, Bool-cases, inl, inr, ◌==◌, ==_iff,
  subst, sym, ◌∙◌, eq_iff,
}
use paycore_backend.Base.Table.{
  find, get, put, IsKeyed, put-IsKeyed, get-find, find-put, find-put_ne, find-sat, find-unsat,
}
use paycore_backend.Models.Access.{RefreshToken}
use paycore_backend.Repositories.Auth.{token_id, has_hash, token_clashes}

-- The token of this hash is revoked.
pub record IsSpent (hash : String) (l : List RefreshToken) : Type 0 where
  pub keyed : IsKeyed token_id l
  pub token : RefreshToken
  pub there : find (has_hash hash) l ≡ some token
  pub revoked : token.is_revoked ≡ true

abbrev pub revoked_row : RefreshToken → RefreshToken
revoked_row t = record t { is_revoked = true }

-- A token that clashes with none has a new primary key.
pub get-clashes :
    (new : RefreshToken) (l : List RefreshToken)
    → find (token_clashes new) l ≡ none
    → get token_id new.id l ≡ none
unfolding find get
get-clashes new List.[] e = refl
get-clashes new (x ∷ l) e = ground (arith, get-clashes new l)

has_hash-clash :
    (hash : String) (t new : RefreshToken)
    → has_hash hash t ≡ true
    → token_clashes new t ≡ false
    → has_hash hash new ≡ false
has_hash-clash hash t new h fresh = elim (Bool-cases (has_hash hash new)) [
  | inl e ↦
      let same : t.token_hash ≡ new.token_hash =
        (eq_iff t.token_hash hash).0 h ∙ sym ((eq_iff new.token_hash hash).0 e) in
      absurd (let clash = (eq_iff t.token_hash new.token_hash).1 same in ground arith)
  | inr e ↦ e
]

module _ (hash : String) (l : List RefreshToken) where
  pub IsSpent-insert :
      (new : RefreshToken)
      → find (token_clashes new) l ≡ none
      → IsSpent hash l
      → IsSpent hash (new ∷ l)
  unfolding find
  IsSpent-insert new fresh h = record {
    keyed = (get-clashes new l fresh, h.keyed);
    token = h.token;
    there =
        rw
          (has_hash-clash hash h.token new (find-sat (has_hash hash) l h.there)
            (find-unsat (has_hash hash) (token_clashes new) l h.there fresh))
          h.there;
    revoked = h.revoked;
  }

  has_hash-same : (t : RefreshToken) (h : IsSpent hash l) → t ≡ h.token → has_hash hash t ≡ true
  has_hash-same t h e =
      subst (λ u. has_hash hash u ≡ true) (sym e) (find-sat (has_hash hash) l h.there)

  same_token :
      (t : RefreshToken) (h : IsSpent hash l)
      → get token_id t.id l ≡ some t
      → (t.id == h.token.id) ≡ true
      → t ≡ h.token
  same_token t h at q =
      let other = get-find token_id (has_hash hash) l h.keyed h.there in
      let id = (==_iff t.id h.token.id).0 q in
      let both : some t ≡ some h.token =
        sym at ∙ subst (λ i. get token_id i l ≡ some h.token) (sym id) other in
      cc

  -- Revoking the token of any hash.
  pub IsSpent-revoke :
      (other : String) (t : RefreshToken)
      → find (has_hash other) l ≡ some t
      → IsSpent hash l
      → IsSpent hash (put token_id (revoked_row t) l)
  IsSpent-revoke other t e h =
      let at = get-find token_id (has_hash other) l h.keyed e in
      elim (Bool-cases (t.id == h.token.id)) [
        | inl q ↦ record {
          keyed = put-IsKeyed token_id (revoked_row t) l h.keyed;
          token = revoked_row t;
          there =
              find-put token_id (has_hash hash) (revoked_row t) l h.keyed h.there
                ((==_iff t.id h.token.id).0 q) (has_hash-same t h (same_token t h at q));
          revoked = refl;
        }
        | inr q ↦ record {
          keyed = put-IsKeyed token_id (revoked_row t) l h.keyed;
          token = h.token;
          there =
              find-put_ne token_id (has_hash hash) (revoked_row t) l at refl h.there
                (λ r. ground arith);
          revoked = h.revoked;
        }
      ]

  -- Revoking the token of this hash.
  pub revoke-IsSpent :
      (t : RefreshToken)
      → IsKeyed token_id l
      → find (has_hash hash) l ≡ some t
      → IsSpent hash (put token_id (revoked_row t) l)
  revoke-IsSpent t keyed e = record {
    keyed = put-IsKeyed token_id (revoked_row t) l keyed;
    token = revoked_row t;
    there =
        find-put token_id (has_hash hash) (revoked_row t) l keyed e refl
          (find-sat (has_hash hash) l e);
    revoked = refl;
  }
