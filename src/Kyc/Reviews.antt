-- ===== src/Kyc/Reviews.antt =====
-- Submissions and reviews in any order, each in a request of its own.
use paycore_backend.Base.{ℕ, ◌+◌, ◌≡◌, String, List, some, refl, subst, sym, ap}
use paycore_backend.Base.Table.{put}
use paycore_backend.Core.Errors.{ok, Result}
use paycore_backend.Models.Rows.{User}
use paycore_backend.Models.Access.{KycSubmission, approved, rejected}
use paycore_backend.Database.{Db}
use paycore_backend.Session.{Env, Session, request}
use paycore_backend.Repositories.Kyc.{get_active_for_tier}
use paycore_backend.Repositories.User.{user_id}
use paycore_backend.Repositories.People.{get_user_by_id}
use paycore_backend.Services.Kyc.{approved_by, rejected_by, submit_kyc, approve_kyc, reject_kyc}
use paycore_backend.Kyc.{
  SameKyc, Submits, Approves, Rejects, refused, submitted, approved, rejected,
}
use paycore_backend.Kyc.Outcomes.{submit_kyc-Submits, approve_kyc-Approves, reject_kyc-Rejects}
use paycore_backend.Kyc.Orderly.{
  IsOrderly, submitted-IsOrderly, rejected-IsOrderly, approved-IsOrderly,
}

-- A submission is made by a user as the session reads him.
pub data Steps (s : Session) : Session → Type 0 where
  begun : Steps s s
  submits :
      (env : Env) (u : User) (tier : ℕ) (file_bytes : List ℕ) (filename : String) (s' : Session)
      → Steps s s'
      → get_user_by_id u.id s'.committed ≡ some u
      → Steps s (request (submit_kyc env u tier file_bytes filename) s').1
  approves :
      (env : Env) (id : ℕ) (reviewer : User) (s' : Session)
      → Steps s s'
      → Steps s (request (approve_kyc env id reviewer) s').1
  rejects :
      (env : Env) (id : ℕ) (reviewer : User) (reason : String) (s' : Session)
      → Steps s s'
      → Steps s (request (reject_kyc env id reviewer reason) s').1

abbrev pub Orderly : Db → Type 0
Orderly db = IsOrderly db.kyc_submissions db.users

same-Orderly : (db db' : Db) → SameKyc db db' → Orderly db → Orderly db'
same-Orderly db db' (subs, users) h =
    subst (λ l. IsOrderly l db'.users) (sym subs)
      (subst (λ l. IsOrderly db.kyc_submissions l) (sym users) h)

committed-Orderly :
    (db : Db) {subs : List KycSubmission} {users : List User}
    → db.kyc_submissions ≡ subs
    → db.users ≡ users
    → IsOrderly subs users
    → Orderly db
committed-Orderly db {subs} {users} e r h =
    subst (λ l. IsOrderly l db.users) (sym e) (subst (λ l. IsOrderly subs l) (sym r) h)

Submits-Orderly :
    (u : User) (tier : ℕ) (db : Db) (o : Result KycSubmission × Session)
    → Orderly db
    → get_user_by_id u.id db ≡ some u
    → Submits u tier db o
    → Orderly o.1.committed
unfolding get_user_by_id get_active_for_tier
Submits-Orderly u tier db o h mine (refused e s same) = same-Orderly db s.committed same h
Submits-Orderly u tier db o h mine (submitted k s waits owner wanted below alone fresh subs users) =
    committed-Orderly s.committed subs users (
      submitted-IsOrderly db.kyc_submissions db.users h k u fresh waits (rw owner mine)
        (rw wanted below) (rw (owner, wanted) alone))

Approves-Orderly :
    (env : Env) (id : ℕ) (reviewer : User) (db : Db) (o : Result KycSubmission × Session)
    → Orderly db
    → Approves env id reviewer db o
    → Orderly o.1.committed
unfolding get_user_by_id
Approves-Orderly env id reviewer db o h (refused e s same) = same-Orderly db s.committed same h
Approves-Orderly env id reviewer db o h (approved k u s at waits apart mine subs users) =
    committed-Orderly s.committed subs users (
      approved-IsOrderly db.kyc_submissions db.users h id k (approved_by env reviewer.id k) u at
        waits mine refl refl refl refl)

Rejects-Orderly :
    (env : Env) (id : ℕ) (reviewer : User) (reason : String) (db : Db)
    (o : Result KycSubmission × Session)
    → Orderly db
    → Rejects env id reviewer reason db o
    → Orderly o.1.committed
Rejects-Orderly env id reviewer reason db o h (refused e s same) =
    same-Orderly db s.committed same h
Rejects-Orderly env id reviewer reason db o h (rejected k s at waits apart subs users) =
    committed-Orderly s.committed subs users (
      rejected-IsOrderly db.kyc_submissions db.users h id k (rejected_by env reviewer.id reason k)
        at refl refl)

-- Whatever is submitted, approved and rejected, in any order, from orderly tables: at most one
-- submission per user and tier is PENDING or APPROVED, and every PENDING one asks for the tier that
-- comes after its owner's.
pub Steps-Orderly : {s s' : Session} → Orderly s.committed → Steps s s' → Orderly s'.committed
Steps-Orderly h begun = h
Steps-Orderly h (submits env u tier file_bytes filename s' r mine) =
    Submits-Orderly u tier s'.committed _ (Steps-Orderly h r) mine
      (submit_kyc-Submits env u tier file_bytes filename s')
Steps-Orderly h (approves env id reviewer s' r) =
    Approves-Orderly env id reviewer s'.committed _ (Steps-Orderly h r)
      (approve_kyc-Approves env id reviewer s')
Steps-Orderly h (rejects env id reviewer reason s' r) =
    Rejects-Orderly env id reviewer reason s'.committed _ (Steps-Orderly h r)
      (reject_kyc-Rejects env id reviewer reason s')

Approves-one :
    (env : Env) (id : ℕ) (reviewer : User) (db : Db) (o : Result KycSubmission × Session)
    {k : KycSubmission}
    → Orderly db
    → Approves env id reviewer db o
    → o.0 ≡ ok k
    → (u : User) × (get_user_by_id k.user_id db ≡ some u)
      × (o.1.committed.users ≡ put user_id (record u { kyc_tier = u.kyc_tier + 1 }) db.users)
unfolding get_user_by_id
Approves-one env id reviewer db o {k} h (refused e s same) q = absurd (cc)
Approves-one env id reviewer db o {k} h (approved k' u s at waits apart mine subs users) q =
    let same : approved_by env reviewer.id k' ≡ k = cc in
    let owner : k'.user_id ≡ k.user_id = ap (λ (x : KycSubmission). x.user_id) same in
    let one = h.next id {k = k'} {u = u} at waits mine in (u, rw⁻¹ owner mine, rw one users)

-- An approval that goes through, on orderly tables, raises the tier of the submission's owner by one
-- and changes no other user.
pub approve_kyc-raises_one :
    (env : Env) (id : ℕ) (reviewer : User) (s : Session) {k : KycSubmission}
    → Orderly s.committed
    → (request (approve_kyc env id reviewer) s).0 ≡ ok k
    → (u : User) × (get_user_by_id k.user_id s.committed ≡ some u)
      × ((request (approve_kyc env id reviewer) s).1.committed.users
          ≡ put user_id (record u { kyc_tier = u.kyc_tier + 1 }) s.committed.users)
approve_kyc-raises_one env id reviewer s h e =
    Approves-one env id reviewer s.committed _ h (approve_kyc-Approves env id reviewer s) e
