-- ===== src/Kyc/Final.antt =====
-- A review is final: what was approved or rejected stays so.
use paycore_backend.Base.{
  ℕ, ◌≡◌, ◌≢◌, String, none, some, arith, refl, Bool-cases, inl, inr, ◌∷◌, ◌==◌, ==_iff, subst, sym,
  ◌∙◌,
}
use paycore_backend.Base.Table.{get, put, get-put_ne, get-key}
use paycore_backend.Core.Errors.{err, Result, conflict}
use paycore_backend.Models.Rows.{User}
use paycore_backend.Models.Access.{KycSubmission, KycStatus, pending, approved, rejected}
use paycore_backend.Database.{Db}
use paycore_backend.Session.{Env, Session, request}
use paycore_backend.Repositories.Kyc.{submission_id, get_submission_by_id}
use paycore_backend.Services.Kyc.{
  approved_by, rejected_by, approve_kyc, reject_kyc, approvable, rejectable, get_submission,
}
use paycore_backend.Kyc.{Submits, Approves, Rejects, refused, submitted, approved, rejected}
use paycore_backend.Kyc.Outcomes.{submit_kyc-Submits, approve_kyc-Approves, reject_kyc-Rejects}
use paycore_backend.Kyc.Reviews.{Steps, begun, submits, approves, rejects}

-- The submission has been reviewed, and is this row.
abbrev pub IsReviewed : ℕ → KycSubmission → Db → Type 0
IsReviewed i k db = (get submission_id i db.kyc_submissions ≡ some k) × (k.status ≢ pending)

module _ (i : ℕ) (k : KycSubmission) (db : Db) (h : IsReviewed i k db) where
  same-IsReviewed : (db' : Db) → db'.kyc_submissions ≡ db.kyc_submissions → IsReviewed i k db'
  same-IsReviewed db' e = (subst (λ l. get submission_id i l ≡ some k) (sym e) h.0, h.1)

  -- The review of a PENDING submission is of another row.
  put-IsReviewed :
      (j : ℕ) (k' new : KycSubmission) (db' : Db)
      → get submission_id j db.kyc_submissions ≡ some k'
      → k'.status ≡ pending
      → new.id ≡ k'.id
      → db'.kyc_submissions ≡ put submission_id new db.kyc_submissions
      → IsReviewed i k db'
  put-IsReviewed j k' new db' at waits same e =
      let id = get-key submission_id j db.kyc_submissions at in
      let apart : i ≢ new.id = λ q.
        (let both : some k ≡ some k' =
            sym h.0
            ∙ subst (λ n. get submission_id n db.kyc_submissions ≡ some k') (sym (q ∙ (same ∙ id)))
                at in
          let rows : k ≡ k' = cc in
          h.1 (subst (λ (x : KycSubmission). x.status ≡ pending) (sym rows) waits)) in
      (
        subst (λ l. get submission_id i l ≡ some k) (sym e)
            (get-put_ne submission_id i new db.kyc_submissions apart ∙ h.0),
        h.1,
      )

  submitted-IsReviewed :
      (new : KycSubmission) (db' : Db)
      → get submission_id new.id db.kyc_submissions ≡ none
      → db'.kyc_submissions ≡ new ∷ db.kyc_submissions
      → IsReviewed i k db'
  unfolding get
  submitted-IsReviewed new db' fresh e = (
    subst (λ l. get submission_id i l ≡ some k) (sym e)
        (elim (Bool-cases (new.id == i)) [
          | inl q ↦ absurd (
              let same = (==_iff new.id i).0 q in
              let nothing = subst (λ n. get submission_id n db.kyc_submissions ≡ none) same fresh in
              cc)
          | inr q ↦ rw q h.0
        ]),
    h.1,
  )

  Submits-IsReviewed :
      (u : User) (tier : ℕ) (o : Result KycSubmission × Session)
      → Submits u tier db o
      → IsReviewed i k o.1.committed
  Submits-IsReviewed u tier o (refused e s same) = same-IsReviewed s.committed same.0
  Submits-IsReviewed u tier o (submitted new s waits owner wanted below alone fresh subs users) =
      submitted-IsReviewed new s.committed fresh subs

  Approves-IsReviewed :
      (env : Env) (j : ℕ) (reviewer : User) (o : Result KycSubmission × Session)
      → Approves env j reviewer db o
      → IsReviewed i k o.1.committed
  Approves-IsReviewed env j reviewer o (refused e s same) = same-IsReviewed s.committed same.0
  Approves-IsReviewed env j reviewer o (approved k' u s at waits apart mine subs users) =
      put-IsReviewed j k' (approved_by env reviewer.id k') s.committed at waits refl subs

  Rejects-IsReviewed :
      (env : Env) (j : ℕ) (reviewer : User) (reason : String) (o : Result KycSubmission × Session)
      → Rejects env j reviewer reason db o
      → IsReviewed i k o.1.committed
  Rejects-IsReviewed env j reviewer reason o (refused e s same) = same-IsReviewed s.committed same.0
  Rejects-IsReviewed env j reviewer reason o (rejected k' s at waits apart subs users) =
      put-IsReviewed j k' (rejected_by env reviewer.id reason k') s.committed at waits refl subs

Steps-IsReviewed :
    (i : ℕ) (k : KycSubmission) {s s' : Session}
    → IsReviewed i k s.committed
    → Steps s s'
    → IsReviewed i k s'.committed
Steps-IsReviewed i k h begun = h
Steps-IsReviewed i k h (submits env u tier file_bytes filename s' r mine) =
    Submits-IsReviewed i k s'.committed (Steps-IsReviewed i k h r) u tier _
      (submit_kyc-Submits env u tier file_bytes filename s')
Steps-IsReviewed i k h (approves env id reviewer s' r) =
    Approves-IsReviewed i k s'.committed (Steps-IsReviewed i k h r) env id reviewer _
      (approve_kyc-Approves env id reviewer s')
Steps-IsReviewed i k h (rejects env id reviewer reason s' r) =
    Rejects-IsReviewed i k s'.committed (Steps-IsReviewed i k h r) env id reviewer reason _
      (reject_kyc-Rejects env id reviewer reason s')

-- The code of the conflict with which an approval meets a reviewed submission.
abbrev pub approval_conflict : KycStatus → String
approval_conflict approved = "KYC_ALREADY_APPROVED"
approval_conflict _ = "KYC_ALREADY_REJECTED"

approvable-reviewed :
    (i : ℕ) (reviewer : User) (k : KycSubmission) (db : Db)
    → IsReviewed i k db
    → approvable reviewer i db ≡ err (conflict (approval_conflict k.status))
unfolding approvable get_submission get_submission_by_id
approvable-reviewed i reviewer k db (at, reviewed) = ground arith

rejectable-reviewed :
    (i : ℕ) (reviewer : User) (k : KycSubmission) (db : Db)
    → IsReviewed i k db
    → rejectable reviewer i db ≡ err (conflict "KYC_INVALID_STATUS_FOR_REJECTION")
unfolding rejectable get_submission get_submission_by_id
rejectable-reviewed i reviewer k db (at, reviewed) = ground arith

refused_twice :
    (env : Env) (i : ℕ) (reviewer : User) (reason : String) (k : KycSubmission) (s : Session)
    → IsReviewed i k s.committed
    → (request (approve_kyc env i reviewer) s
        ≡ (err (conflict (approval_conflict k.status)), record s { db = s.committed }))
      × (request (reject_kyc env i reviewer reason) s
          ≡ (err (conflict "KYC_INVALID_STATUS_FOR_REJECTION"), record s { db = s.committed }))
unfolding approve_kyc reject_kyc
refused_twice env i reviewer reason k s h = (
  rw (approvable-reviewed i reviewer k s.committed h) refl,
  rw (rejectable-reviewed i reviewer k s.committed h) refl,
)

-- A submission that is no longer PENDING keeps its row through every sequence of submissions and
-- reviews, and from then on approving it raises the conflict that names its status and rejecting it
-- the conflict for rejections; neither writes anything.
pub reviews-final :
    (env : Env) (i : ℕ) (reviewer : User) (reason : String) (k : KycSubmission) (s s' : Session)
    → get submission_id i s.committed.kyc_submissions ≡ some k
    → k.status ≢ pending
    → Steps s s'
    → (get submission_id i s'.committed.kyc_submissions ≡ some k)
      × (request (approve_kyc env i reviewer) s'
          ≡ (err (conflict (approval_conflict k.status)), record s' { db = s'.committed }))
      × (request (reject_kyc env i reviewer reason) s'
          ≡ (err (conflict "KYC_INVALID_STATUS_FOR_REJECTION"), record s' { db = s'.committed }))
reviews-final env i reviewer reason k s s' at reviewed steps =
    let h = Steps-IsReviewed i k (at, reviewed) steps in
    let (first, second) = refused_twice env i reviewer reason k s' h in (h.0, first, second)
