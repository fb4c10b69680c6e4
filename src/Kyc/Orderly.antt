-- ===== src/Kyc/Orderly.antt =====
-- How submissions and tiers go together: one active submission per user and tier, and each PENDING
-- one asks for the tier after the user's own.
use paycore_backend.Base.{
  ℕ, ◌+◌, ◌≡◌, ◌≢◌, ◌≤◌, List, none, some, arith, refl, Bool-cases, inl, inr, ◌∷◌, is_none, ◌==◌,
  ◌&&◌, subst, sym, ◌∙◌, if◌then◌else◌, Bool,
}
use paycore_backend.Base.Table.{
  get, put, find, sum_by, IsKeyed, put-IsKeyed, get-put, sum_by-put, sum_by-get_two, get-find,
  find-put_out, find-sat, get-key,
}
use paycore_backend.Models.Rows.{User}
use paycore_backend.Models.Access.{KycSubmission, pending, approved, rejected}
use paycore_backend.Repositories.Kyc.{submission_id, is_active_for}
use paycore_backend.Repositories.User.{user_id}
use paycore_backend.Kyc.{approved, rejected}

abbrev pub active : ℕ → ℕ → KycSubmission → ℕ
active u tier k = if is_active_for u tier k then 1 else 0

-- The submissions of a user for a tier that are PENDING or APPROVED.
abbrev pub active_count : ℕ → ℕ → List KycSubmission → ℕ
active_count u tier l = sum_by (active u tier) l

abbrev pub has_id : ℕ → User → Bool
has_id i u = u.id == i && is_none u.deleted_at

pub record IsOrderly (subs : List KycSubmission) (users : List User) : Type 0 where
  pub subs_keyed : IsKeyed submission_id subs
  pub users_keyed : IsKeyed user_id users
  pub single : (u tier : ℕ) → active_count u tier subs ≤ 1
  pub next :
      (i : ℕ) {k : KycSubmission} {u : User}
      → get submission_id i subs ≡ some k
      → k.status ≡ pending
      → find (has_id k.user_id) users ≡ some u
      → u.kyc_tier + 1 ≡ k.requested_tier

-- No active submission is found where none is counted.
active_count-none :
    (u tier : ℕ) (l : List KycSubmission)
    → find (is_active_for u tier) l ≡ none
    → active_count u tier l ≡ 0
unfolding find sum_by
active_count-none u tier List.[] e = refl
active_count-none u tier (x ∷ l) e = ground (arith, active_count-none u tier l)

active-insert :
    (k : KycSubmission) (v tier : ℕ) (l : List KycSubmission)
    → active_count v tier l ≤ 1
    → active_count k.user_id k.requested_tier l ≡ 0
    → active v tier k + active_count v tier l ≤ 1
active-insert k v tier l most nothing = elim (Bool-cases (is_active_for v tier k)) [
  | inl e ↦
      let user : k.user_id ≡ v = ground arith in
      let wanted : k.requested_tier ≡ tier = ground arith in
      let zero_there : active_count v tier l ≡ 0 =
        subst (λ t. active_count v t l ≡ 0) wanted
          (subst (λ w. active_count w k.requested_tier l ≡ 0) user nothing) in
      rw (e, zero_there) (omega arith)
  | inr e ↦ rw e (omega arith)
]

active-rejected : (v tier : ℕ) (k : KycSubmission) → k.status ≡ rejected → active v tier k ≡ 0
active-rejected v tier k e = ground arith

-- A PENDING submission counts for its user and tier.
active-pending : (k : KycSubmission) → k.status ≡ pending → active k.user_id k.requested_tier k ≡ 1
active-pending k e = ground arith

active-approved :
    (v tier : ℕ) (k k' : KycSubmission)
    → k.status ≡ pending
    → k'.status ≡ approved
    → k'.user_id ≡ k.user_id
    → k'.requested_tier ≡ k.requested_tier
    → active v tier k' ≡ active v tier k
active-approved v tier k k' waits ends owner wanted = rw (owner, wanted, ends, waits) refl

-- The tier after the user's own, by equal rows.
next-same :
    (users : List User) {k j : KycSubmission} {u w : User}
    → k ≡ j
    → find (has_id k.user_id) users ≡ some u
    → find (has_id j.user_id) users ≡ some w
    → u.kyc_tier + 1 ≡ k.requested_tier
    → w.kyc_tier + 1 ≡ j.requested_tier
next-same users {k} {j} {u} {w} e mine whose below =
    let again : find (has_id j.user_id) users ≡ some u =
      subst (λ (x : KycSubmission). find (has_id x.user_id) users ≡ some u) e mine in
    let same : u ≡ w = cc in
    subst (λ (x : KycSubmission). w.kyc_tier + 1 ≡ x.requested_tier) e
      (subst (λ (x : User). x.kyc_tier + 1 ≡ k.requested_tier) same below)

module _ (subs : List KycSubmission) (users : List User) (h : IsOrderly subs users) where
  pub submitted-IsOrderly :
      (k : KycSubmission) (u : User)
      → get submission_id k.id subs ≡ none
      → k.status ≡ pending
      → find (has_id k.user_id) users ≡ some u
      → u.kyc_tier + 1 ≡ k.requested_tier
      → find (is_active_for k.user_id k.requested_tier) subs ≡ none
      → IsOrderly (k ∷ subs) users
  unfolding get sum_by
  submitted-IsOrderly k u fresh waits mine below alone = record {
    subs_keyed = (fresh, h.subs_keyed);
    users_keyed = h.users_keyed;
    single = λ v tier.
        (active-insert k v tier subs (h.single v tier)
          (active_count-none k.user_id k.requested_tier subs alone));
    next = λ i {k = j} {u = w} at was whose. (elim (Bool-cases (k.id == i)) [
      | inl q ↦ next-same users (let same : k ≡ j = ground arith in same) mine whose below
      | inr q ↦ h.next i {k = j} {u = w} (ground arith) was whose
    ]);
  }

  pub rejected-IsOrderly :
      (i : ℕ) (k k' : KycSubmission)
      → get submission_id i subs ≡ some k
      → k'.id ≡ k.id
      → k'.status ≡ rejected
      → IsOrderly (put submission_id k' subs) users
  rejected-IsOrderly i k k' at same ends =
      let id = get-key submission_id i subs at in
      let there : get submission_id k'.id subs ≡ some k =
        subst (λ n. get submission_id n subs ≡ some k) (sym (same ∙ id)) at in
      record {
        subs_keyed = put-IsKeyed submission_id k' subs h.subs_keyed;
        users_keyed = h.users_keyed;
        single = λ v tier.
            (let moved = sum_by-put submission_id (active v tier) k' subs there in
              let at_most = h.single v tier in
              (let small = active-rejected v tier k' ends in omega arith));
        next = λ j {k = x} {u = w} at' was whose.
            (let reads = get-put submission_id j k' subs there in
              elim (Bool-cases (k'.id == j)) [
                | inl q ↦ absurd (let same : k' ≡ x = ground arith in cc)
                | inr q ↦ h.next j {k = x} {u = w} (ground arith) was whose
              ]);
      }

  -- Another user's row is found where it was.
  other_user :
      (u : User) (tier j : ℕ) {w : User}
      → find (has_id u.id) users ≡ some u
      → u.id ≢ j
      → find (has_id j) (put user_id (record u { kyc_tier = tier }) users) ≡ some w
      → find (has_id j) users ≡ some w
  other_user u tier j {w} mine ne e =
      sym (
        find-put_out user_id (has_id j) (record u { kyc_tier = tier }) users
          (get-find user_id (has_id u.id) users h.users_keyed mine) (ground arith) (ground arith))
      ∙ e

  -- Two PENDING submissions of one user are one.
  no_second :
      (i j : ℕ) (k x : KycSubmission) (u : User)
      → get submission_id i subs ≡ some k
      → get submission_id j subs ≡ some x
      → i ≢ j
      → k.status ≡ pending
      → x.status ≡ pending
      → find (has_id k.user_id) users ≡ some u
      → k.user_id ≢ x.user_id
  no_second i j k x u at at' apart waits was mine same =
      let mine' : find (has_id x.user_id) users ≡ some u =
        subst (λ n. find (has_id n) users ≡ some u) same mine in
      let first = h.next i {k = k} {u = u} at waits mine in
      let second = h.next j {k = x} {u = u} at' was mine' in
      let tiers : x.requested_tier ≡ k.requested_tier = omega arith in
      let two =
        sum_by-get_two submission_id (active k.user_id k.requested_tier) i j subs at at' apart in
      let one = h.single k.user_id k.requested_tier in
      let here = active-pending k waits in
      let there : active k.user_id k.requested_tier x ≡ 1 =
        subst (λ n. active n k.requested_tier x ≡ 1) (sym same)
          (subst (λ n. active x.user_id n x ≡ 1) tiers (active-pending x was)) in
      omega arith

  pub approved-IsOrderly :
      (i : ℕ) (k k' : KycSubmission) (u : User)
      → get submission_id i subs ≡ some k
      → k.status ≡ pending
      → find (has_id k.user_id) users ≡ some u
      → k'.id ≡ k.id
      → k'.status ≡ approved
      → k'.user_id ≡ k.user_id
      → k'.requested_tier ≡ k.requested_tier
      → IsOrderly
          (put submission_id k' subs)
          (put user_id (record u { kyc_tier = k.requested_tier }) users)
  approved-IsOrderly i k k' u at waits mine same ends owner wanted =
      let id = get-key submission_id i subs at in
      let there : get submission_id k'.id subs ≡ some k =
        subst (λ n. get submission_id n subs ≡ some k) (sym (same ∙ id)) at in
      record {
        subs_keyed = put-IsKeyed submission_id k' subs h.subs_keyed;
        users_keyed =
            put-IsKeyed user_id (record u { kyc_tier = k.requested_tier }) users h.users_keyed;
        single = λ v tier.
            (let moved = sum_by-put submission_id (active v tier) k' subs there in
              let at_most = h.single v tier in
              let kept = active-approved v tier k k' waits ends owner wanted in omega arith);
        next = λ j {k = x} {u = w} at' was whose.
            (let reads = get-put submission_id j k' subs there in
              elim (Bool-cases (k'.id == j)) [
                | inl q ↦ absurd (let same : k' ≡ x = ground arith in cc)
                | inr q ↦
                    let before : get submission_id j subs ≡ some x = ground arith in
                    let apart : i ≢ j = λ r. ground arith in
                    let users_apart = no_second i j k x u at before apart waits was mine in
                    let mine_id : u.id ≡ k.user_id =
                      ground (arith, find-sat (has_id k.user_id) users mine) in
                    h.next j {k = x} {u = w} before was (
                      other_user u k.requested_tier x.user_id
                        (subst (λ n. find (has_id n) users ≡ some u) (sym mine_id) mine)
                        (λ r. users_apart (sym mine_id ∙ r)) whose)
              ]);
      }
