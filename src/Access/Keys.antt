-- ===== src/Access/Keys.antt =====
-- API keys (Core/Security, Services/Merchant): the key that a rotation hands out authenticates.
use Prim.Native.String as Text
use Prim.Native.String.append
use Prim.Native.String.count
use paycore_backend.Base.{
  ℕ, ◌+◌, ◌≡◌, ◌==◌, Bool, true, false, not, ◌&&◌, ◌||◌, String, Option, some, List, [], ◌∷◌, refl,
  subst, sym, ◌∙◌, arith, Bool-cases, inl, inr, eq_iff, is_none,
}
use paycore_backend.Base.Table.{All, select, get, put, find, find-sat, get-find, IsKeyed}
use paycore_backend.Core.Errors.{Result-cases, ok, err}
use paycore_backend.Core.Security.{first_chars, generate_api_key, verify_api_key}
use paycore_backend.Models.Rows.{Merchant, ActorType}
use paycore_backend.Database.{Db}
use paycore_backend.Session.{Env, Session, IsClean, request}
use paycore_backend.Repositories.People.{merchant_id}
use paycore_backend.Repositories.Merchant.{
  is_candidate, get_active_by_prefix, get_merchant_by_user_id, put_merchant, update_api_key,
}
use paycore_backend.Services.Audit
use paycore_backend.Keeping.{ok-injective}
use paycore_backend.Services.Merchant.{
  first_verified, authenticate, get_merchant_profile, rotate_api_key,
}

-- The audit trail leaves the merchants alone.
log-merchants :
    (env : Env) (actor : Option ℕ) (kind : ActorType) (action target : String) (id : ℕ)
    (s : Session)
    → IsClean s
    → ((Audit.log env actor kind action target id s).0 ≡ ok tt)
      × ((Audit.log env actor kind action target id s).1.committed.merchants
          ≡ s.committed.merchants)
unfolding Audit.log
log-merchants env actor kind action target id s clean = (ground arith, ground arith)

-- The key does not verify against the hash of another merchant.
abbrev pub IsAlone : Env → String → ℕ → Merchant → Type 0
IsAlone env raw_key i m = (m.id == i || not (env.security.checkpw raw_key m.api_key_hash)) ≡ true

-- The row with a key's hash is the first of the candidates that the key verifies against.
first_verified-put :
    (env : Env) (raw_key prefix : String) (m : Merchant) (l : List Merchant) {old : Merchant}
    → get merchant_id m.id l ≡ some old
    → All (IsAlone env raw_key m.id) l
    → is_candidate prefix m ≡ true
    → env.security.checkpw raw_key m.api_key_hash ≡ true
    → first_verified env raw_key (select (is_candidate prefix) (put merchant_id m l)) ≡ some m
unfolding get put select first_verified verify_api_key
first_verified-put env raw_key prefix m [] at alone stands good = absurd (cc)
first_verified-put env raw_key prefix m (x ∷ l) {old} at alone stands good =
    elim (Bool-cases (x.id == m.id)) [
      | inl e ↦ rw (e, stands, good) refl
      | inr e ↦
          let there : get merchant_id m.id l ≡ some old = ground arith in
          let rest =
            first_verified-put env raw_key prefix m l {old = old} there alone.1 stands good in
          let wrong : env.security.checkpw raw_key x.api_key_hash ≡ false =
            let head = alone.0 in ground arith in
          elim (Bool-cases (is_candidate prefix x)) [
            | inl q ↦ rw (e, q, wrong) rest
            | inr q ↦ rw (e, q) rest
          ]
    ]

get_merchant_profile-eq-ok :
    (user_id : ℕ) (db : Db) {m : Merchant}
    → IsKeyed merchant_id db.merchants
    → get_merchant_profile user_id db ≡ ok m
    → (get merchant_id m.id db.merchants ≡ some m) × (is_none m.deleted_at ≡ true)
unfolding get_merchant_profile get_merchant_by_user_id
get_merchant_profile-eq-ok user_id db {m} keyed e =
    let p : Merchant → Bool = λ x. x.user_id == user_id && is_none x.deleted_at in
    let found : find p db.merchants ≡ some m = ground arith in
    let sat = find-sat p db.merchants found in
    (get-find merchant_id p db.merchants keyed found, ground arith)

-- The key of a row that took the place of another authenticates it.
authenticates :
    (env : Env) (raw_key : String) (m : Merchant) (db : Db) (l : List Merchant) {old : Merchant}
    → db.merchants ≡ put merchant_id m l
    → get merchant_id m.id l ≡ some old
    → m.api_key_prefix ≡ first_chars 8 raw_key
    → is_none m.deleted_at ≡ true
    → env.security.checkpw raw_key m.api_key_hash ≡ true
    → m.is_active ≡ true
    → All (IsAlone env raw_key m.id) l
    → authenticate env raw_key db ≡ ok m
unfolding authenticate get_active_by_prefix
authenticates env raw_key m db l {old} same at prefix live good active alone =
    let matches = (eq_iff m.api_key_prefix (first_chars 8 raw_key)).1 prefix in
    let candidate : is_candidate (first_chars 8 raw_key) m ≡ true = ground arith in
    rw
      (
        same,
        first_verified-put env raw_key (first_chars 8 raw_key) m l {old = old} at alone candidate
            good,
      )
      refl

-- What a rotation of the key of `old` leaves behind.
module _ (env : Env) (user_id : ℕ) (s : Session) (old : Merchant) where
  abbrev new_key : String
  new_key = Text.◌++◌ "pk_live_" (env.hex (env.uuid s.drawn))

  abbrev rotated : Merchant
  rotated = record old {
    api_key_hash = env.security.hashpw (s.drawn + 1) new_key;
    api_key_prefix = first_chars 8 new_key;
  }

  rotates :
      get_merchant_profile user_id s.committed ≡ ok old
      → ((request (rotate_api_key env user_id) s).0 ≡ ok (rotated, new_key))
        × ((request (rotate_api_key env user_id) s).1.committed.merchants
            ≡ put merchant_id rotated s.committed.merchants)
  unfolding rotate_api_key generate_api_key update_api_key put_merchant
  rotates e =
      let db : Db = record s.committed {
        merchants = put merchant_id rotated s.committed.merchants;
      } in
      let (quiet, kept) =
        log-merchants env (some old.user_id) ActorType.user "api_key.generated" "merchant" old.id
          (record s { db = db; committed = db; drawn = s.drawn + 1 + 1 }) refl in
      rw (e, quiet) (refl, kept)

-- The raw key that a rotation answers with authenticates, by surroundings with the same
-- `Security`, the merchant that it answers with, in the tables that it commits, if that merchant
-- is active. bcrypt verifies what it hashed, the key does not verify against the hash of any other
-- merchant, and the table has no two rows of one primary key.
pub rotate_api_key-authenticate :
    (env env' : Env) (user_id : ℕ) (s : Session) {m : Merchant} {raw_key : String}
    → ((salt : ℕ) (plain : String)
        → env.security.checkpw plain (env.security.hashpw salt plain) ≡ true)
    → env'.security ≡ env.security
    → IsKeyed merchant_id s.committed.merchants
    → (request (rotate_api_key env user_id) s).0 ≡ ok (m, raw_key)
    → m.is_active ≡ true
    → All (IsAlone env' raw_key m.id) s.committed.merchants
    → authenticate env' raw_key (request (rotate_api_key env user_id) s).1.committed ≡ ok m
unfolding rotate_api_key
rotate_api_key-authenticate env env' user_id s {m} {raw_key} bcrypt same keyed e active alone =
    elim (Result-cases (get_merchant_profile user_id s.committed)) [
      | inl (x, q) ↦
          let bad : (request (rotate_api_key env user_id) s).0 ≡ err x = rw q refl in absurd (cc)
      | inr (old, q) ↦
          let (answers, table) = rotates env user_id s old q in
          let (at, live) = get_merchant_profile-eq-ok user_id s.committed keyed q in
          let new = rotated env user_id s old in
          let key = new_key env user_id s old in
          let out = (request (rotate_api_key env user_id) s).1.committed in
          let checks : env'.security.checkpw key new.api_key_hash ≡ true =
            subst (λ sec. sec.checkpw key new.api_key_hash ≡ true) (sym same)
              (bcrypt (s.drawn + 1) key) in
          let pairs : (new, key) ≡ (m, raw_key) = ok-injective (sym answers ∙ e) in
          subst
            (λ (x : Merchant × String).
              x.0.is_active ≡ true
              → All (IsAlone env' x.1 x.0.id) s.committed.merchants
              → authenticate env' x.1 out ≡ ok x.0)
            pairs
            (λ on only.
              authenticates env' key new out s.committed.merchants {old = old} table at refl live
                checks on only)
            active alone
    ]
