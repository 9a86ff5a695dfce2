-- ===== src/Base/Result/Keeps.antt =====
-- A predicate on the state that an action keeps, whatever it returns.
use mathlib.Core.Bool.{Bool, true, false}
use esp32s3tinyepaper.Base.Tests.{if◌then◌else◌}
use esp32s3tinyepaper.Base.Result.{
  Result, ok, err, Errno, Action, pure, raise, raise_if, attempt, ignore, modify, of_result,
  with_state, ◌>>=◌, ◌>>◌,
}
use esp32s3tinyepaper.Base.Result.Ends.{Ended, Ends}

pub record Keeps {S A : Type 0} (I : S → Type 0) (m : Action S A) : Type 0 where
  pub keeps : (s : S) → I s → I (m s).1

module _ {S : Type 0} {I : S → Type 0} where
  pub raise_if-Keeps : (b : Bool) (e : Errno) → Keeps I (raise_if b e)
  raise_if-Keeps b e = record { keeps = λ s h. h }

  pub of_result-Keeps : {A : Type 0} (r : Result A) → Keeps I (of_result r)
  of_result-Keeps r = record { keeps = λ s h. h }

  pub pure-Keeps : {A : Type 0} (a : A) → Keeps I (pure a)
  pure-Keeps a = record { keeps = λ s h. h }

  pub raise-Keeps : {A : Type 0} (e : Errno) → Keeps I (raise {A = A} e)
  raise-Keeps e = record { keeps = λ s h. h }

  pub modify-Keeps : {g : S → S} → ((s : S) → I s → I (g s)) → Keeps I (modify g)
  modify-Keeps h = record { keeps = h }

  pub attempt-Keeps : {A : Type 0} {m : Action S A} → Keeps I m → Keeps I (attempt m)
  attempt-Keeps k = record { keeps = λ s h. k.keeps s h }

  pub ignore-Keeps : {A : Type 0} {m : Action S A} → Keeps I m → Keeps I (ignore m)
  ignore-Keeps k = record { keeps = λ s h. k.keeps s h }

  pub with_state-Keeps :
      {A : Type 0} {f : S → Action S A} → ((s : S) → Keeps I (f s)) → Keeps I (with_state f)
  unfolding with_state
  with_state-Keeps k = record { keeps = λ s h. (k s).keeps s h }

  pub if-Keeps :
      {A : Type 0} (b : Bool) {m n : Action S A}
      → Keeps I m
      → Keeps I n
      → Keeps I (if b then m else n)
  if-Keeps true p q = p
  if-Keeps false p q = q

module _ {S A B : Type 0} {I : S → Type 0} where
  after_keeps :
      (f : A → Action S B) (r : Result A × S) (s : S)
      → I r.1
      → ((a : A) → Keeps I (f a))
      → I (◌>>=◌ {S = S} (λ _. r) f s).1
  after_keeps f (ok a, t) s h k = (k a).keeps t h
  after_keeps f (err e, t) s h k = h

  pub bind-Keeps :
      {m : Action S A} {f : A → Action S B}
      → Keeps I m
      → ((a : A) → Keeps I (f a))
      → Keeps I (m >>= f)
  bind-Keeps {m} {f} p q = record { keeps = λ s h. after_keeps f (m s) s (p.keeps s h) q }

  pub then-Keeps : {m : Action S A} {n : Action S B} → Keeps I m → Keeps I n → Keeps I (m >> n)
  then-Keeps p q = bind-Keeps p (λ _. q)

-- An invariant that is kept, as the outcome of one run, and back.
pub Ends-Keeps :
    {S A : Type 0} {I : S → Type 0} {m : Action S A} {s : S}
    → Keeps I m
    → I s
    → Ends (λ _ t. I t) (λ _ t. I t) m s
Ends-Keeps {S} {A} {I} {m} {s} k h = record { ended = go (m s) (k.keeps s h) }
  where
    go : (r : Result A × S) → I r.1 → Ended (λ _ t. I t) (λ _ t. I t) r
    go (ok a, t) h = h
    go (err e, t) h = h

pub Keeps-Ends :
    {S A : Type 0} {I : S → Type 0} {m : Action S A}
    → ((s : S) → I s → Ends (λ _ t. I t) (λ _ t. I t) m s)
    → Keeps I m
Keeps-Ends {S} {A} {I} {m} k = record { keeps = λ s h. go (m s) (k s h).ended }
  where
    go : (r : Result A × S) → Ended (λ _ t. I t) (λ _ t. I t) r → I r.1
    go (ok a, t) h = h
    go (err e, t) h = h
