-- ===== src/Keeping.antt =====
-- What a chain of actions keeps of a session, step by step.
use paycore_backend.Base.{◌≡◌, refl, Bool, true, false, if◌then◌else◌}
use paycore_backend.Core.Errors.{Result, ok, err}
use paycore_backend.Session.{Session, Action, resume}

pub ok-injective : {A : Type 0} {a b : A} → Result.ok a ≡ ok b → a ≡ b
ok-injective e = cc

module _ (P : Session → Type 0) where
  pub resume-keeps :
      {A B : Type 0} (o : Result A × Session) (f : A → Action B)
      → P o.1
      → ((a : A) → o.0 ≡ ok a → P o.1 → P (f a o.1).1)
      → P (resume o f).1
  resume-keeps (ok a, s) f h k = k a refl h
  resume-keeps (err e, s) f h k = h

  pub if-keeps :
      {A : Type 0} (b : Bool) (m n : Action A) (s : Session)
      → P (m s).1
      → P (n s).1
      → P ((if b then m else n) s).1
  if-keeps true m n s h k = h
  if-keeps false m n s h k = k
