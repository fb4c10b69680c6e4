-- ===== src/Kyc/Outcomes.antt =====
-- Each operation of Services/Kyc comes to one of the outcomes that Kyc lists.
use paycore_backend.Base.{
  ℕ, ◌≡◌, ◌≢◌, ◌+◌, String, List, Option, none, some, arith, refl, Option-cases, Bool-cases, inl,
  inr, ◌∷◌,
}
use paycore_backend.Base.Table.{get}
use paycore_backend.Core.Errors.{Result-cases, ok}
use paycore_backend.Models.Rows.{User, ActorType}
use paycore_backend.Models.Access.{KycSubmission, pending, approved, rejected}
use paycore_backend.Database.{Db}
use paycore_backend.Session.{Env, Session, IsClean, request}
use paycore_backend.Integrations.Storage.{upload_file}
use paycore_backend.Repositories.Kyc.{
  submission_id, get_active_for_tier, get_submission_by_id, insert_submission, create_submission,
  put_submission, new_submission,
}
use paycore_backend.Repositories.User.{put_user, update_user_tier}
use paycore_backend.Repositories.People.{get_user_by_id}
use paycore_backend.Services.Audit
use paycore_backend.Services.User.{get_profile, update_kyc_tier}
use paycore_backend.Services.Kyc.{
  check_submission, refuse_existing, submit_kyc, approvable, approve_kyc, rejectable, reject_kyc,
  get_submission, submission_key, approved_by, rejected_by,
}
use paycore_backend.Kyc.{
  SameKyc, Submits, Approves, Rejects, refused, submitted, approved, rejected,
}

-- The audit trail leaves the tables of identity checks alone.
log-SameKyc :
    (env : Env) (actor : Option ℕ) (kind : ActorType) (action target : String) (id : ℕ)
    (s : Session)
    → IsClean s
    → ((Audit.log env actor kind action target id s).0 ≡ ok tt)
      × SameKyc s.committed (Audit.log env actor kind action target id s).1.committed
unfolding Audit.log
log-SameKyc env actor kind action target id s clean = (ground arith, (ground arith, ground arith))

check_submission-eq-ok :
    (u : User) (tier : ℕ) (file_bytes : List ℕ) (db : Db)
    → check_submission u tier file_bytes db ≡ ok tt
    → (u.kyc_tier + 1 ≡ tier) × (get_active_for_tier u.id tier db ≡ none)
unfolding check_submission refuse_existing
check_submission-eq-ok u tier file_bytes db e = (ground arith, ground arith)

approvable-eq-ok :
    (reviewer : User) (id : ℕ) (db : Db) {k : KycSubmission}
    → approvable reviewer id db ≡ ok k
    → (get submission_id id db.kyc_submissions ≡ some k)
      × ((k.status ≡ pending) × (reviewer.id ≢ k.user_id))
unfolding approvable get_submission get_submission_by_id
approvable-eq-ok reviewer id db {k} e = (ground arith, (ground arith, ground arith))

rejectable-eq-ok :
    (reviewer : User) (id : ℕ) (db : Db) {k : KycSubmission}
    → rejectable reviewer id db ≡ ok k
    → (get submission_id id db.kyc_submissions ≡ some k)
      × ((k.status ≡ pending) × (reviewer.id ≢ k.user_id))
unfolding rejectable get_submission get_submission_by_id
rejectable-eq-ok reviewer id db {k} e = (ground arith, (ground arith, ground arith))

get_profile-eq-ok :
    (i : ℕ) (db : Db) {u : User} → get_profile i db ≡ ok u → get_user_by_id i db ≡ some u
unfolding get_profile
get_profile-eq-ok i db {u} e = ground arith

-- A review of a submission in a request of its own either raises and leaves submissions and users as
-- they were, or the submission was PENDING and another's than the reviewer's, and the commit holds
-- it as APPROVED, with the reviewer and the time, and its owner at the requested tier.
pub approve_kyc-Approves :
    (env : Env) (id : ℕ) (reviewer : User) (s : Session)
    → Approves env id reviewer s.committed (request (approve_kyc env id reviewer) s)
unfolding approve_kyc put_submission update_kyc_tier update_user_tier put_user get_user_by_id
approve_kyc-Approves env id reviewer s = elim (Result-cases (approvable reviewer id s.committed)) [
  | inl (e, q) ↦ rw q (refused e _ (refl, refl))
  | inr (k, q) ↦
      let there = approvable-eq-ok reviewer id s.committed q in
      let s1 = (put_submission (approved_by env reviewer.id k) (record s { db = s.committed })).1 in
      elim (Result-cases (get_profile k.user_id s1.db)) [
        | inl (e, r) ↦ rw (q, r) (refused e _ (refl, refl))
        | inr (u, r) ↦
            let s2 = (put_user (record u { kyc_tier = k.requested_tier }) s1).1 in
            let log =
              log-SameKyc env (some reviewer.id) ActorType.admin "kyc.approved" "kyc_submission"
                k.id (record s2 { committed = s2.db }) refl in
            rw (q, r, log.0)
              (approved k u _ there.0 there.1.0 there.1.1 (get_profile-eq-ok k.user_id s1.db r)
                log.1.0 log.1.1)
      ]
]

-- A rejection in a request of its own either raises and leaves submissions and users as they were, or
-- the submission was PENDING and another's than the reviewer's, and the commit holds it as REJECTED,
-- with the reviewer, the reason and the time, and is otherwise as it was.
pub reject_kyc-Rejects :
    (env : Env) (id : ℕ) (reviewer : User) (reason : String) (s : Session)
    → Rejects env id reviewer reason s.committed (request (reject_kyc env id reviewer reason) s)
unfolding reject_kyc put_submission
reject_kyc-Rejects env id reviewer reason s =
    elim (Result-cases (rejectable reviewer id s.committed)) [
      | inl (e, q) ↦ rw q (refused e _ (refl, refl))
      | inr (k, q) ↦
          let there = rejectable-eq-ok reviewer id s.committed q in
          let s1 =
            (put_submission (rejected_by env reviewer.id reason k)
              (record s { db = s.committed })).1 in
          let log =
            log-SameKyc env (some reviewer.id) ActorType.admin "kyc.rejected" "kyc_submission" k.id
              (record s1 { committed = s1.db }) refl in
          rw (q, log.0) (rejected k _ there.0 there.1.0 there.1.1 log.1.0 log.1.1)
    ]

-- A submission in a request of its own either raises and leaves submissions and users as they were,
-- or the user stood one tier below, had no submission for the tier that is PENDING or APPROVED, and
-- the commit holds a new PENDING one.
pub submit_kyc-Submits :
    (env : Env) (u : User) (tier : ℕ) (file_bytes : List ℕ) (filename : String) (s : Session)
    → Submits u tier s.committed (request (submit_kyc env u tier file_bytes filename) s)
unfolding submit_kyc upload_file create_submission insert_submission
submit_kyc-Submits env u tier file_bytes filename s =
    let id = env.uuid s.drawn in
    let key = submission_key env u.id id filename in
    elim (Result-cases (check_submission u tier file_bytes s.committed)) [
      | inl (e, q) ↦ rw q (refused e _ (refl, refl))
      | inr (_, q) ↦
          let (next, single) = check_submission-eq-ok u tier file_bytes s.committed q in
          elim (Bool-cases (env.upload_file key)) [
            | inr e ↦ rw (q, e) (refused _ _ (refl, refl))
            | inl e ↦ elim (Option-cases (get submission_id id s.committed.kyc_submissions)) [
              | inr (_, r) ↦ rw (q, e, r) (refused _ _ (refl, refl))
              | inl r ↦
                  let k = new_submission id u.id tier key in
                  let db = record s.committed {
                    kyc_submissions = k ∷ s.committed.kyc_submissions;
                  } in
                  let log =
                    log-SameKyc env (some u.id) ActorType.user "kyc.submitted" "kyc_submission" id
                      (record s { drawn = s.drawn + 1; db = db; committed = db }) refl in
                  rw (q, e, r, log.0) (submitted k _ refl refl refl next single r log.1.0 log.1.1)
            ]
          ]
    ]
