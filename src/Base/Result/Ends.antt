-- ===== src/Base/Result/Ends.antt =====
-- What holds after an action from a state: one predicate for a normal return, one for a failure.
-- The rules follow the code: one for each kind of step of a do block.
use mathlib.Core.Path.{◌≡◌, refl}
use mathlib.Core.Bool.{Bool, true, false}
use esp32s3tinyepaper.Base.Tests.{if◌then◌else◌}
use esp32s3tinyepaper.Base.Result.{
  Result, ok, err, Errno, Action, pure, raise, raise_if, gets, with_state, attempt, modify, ignore,
  ◌>>=◌, ◌>>◌,
}

abbrev pub Ended : {S A : Type 0} → (A → S → Type 0) → (Errno → S → Type 0) → Result A × S → Type 0
Ended P Q (ok a, t) = P a t
Ended P Q (err e, t) = Q e t

pub record Ends {S A : Type 0} (P : A → S → Type 0) (Q : Errno → S → Type 0) (m : Action S A)
    (s : S) : Type 0 where
  pub ended : Ended P Q (m s)

-- What the outcome is, as an equation.
pub ends :
    {S A : Type 0} (m : Action S A) (s : S)
    → Ends (λ a t. m s ≡ (ok a, t)) (λ e t. m s ≡ (err e, t)) m s
ends {S} {A} m s = record { ended = go (m s) }
  where
    go : (r : Result A × S) → Ended (λ a t. r ≡ (ok a, t)) (λ e t. r ≡ (err e, t)) r
    go (ok a, t) = refl
    go (err e, t) = refl

module _ {S A : Type 0} {P : A → S → Type 0} {Q : Errno → S → Type 0} where
  weaken :
      {P' : A → S → Type 0} {Q' : Errno → S → Type 0} (r : Result A × S)
      → Ended P Q r
      → ((a : A) (t : S) → P a t → P' a t)
      → ((e : Errno) (t : S) → Q e t → Q' e t)
      → Ended P' Q' r
  weaken (ok a, t) h p q = p a t h
  weaken (err e, t) h p q = q e t h

  pub weaken-Ends :
      {P' : A → S → Type 0} {Q' : Errno → S → Type 0} {m : Action S A} {s : S}
      → Ends P Q m s
      → ((a : A) (t : S) → P a t → P' a t)
      → ((e : Errno) (t : S) → Q e t → Q' e t)
      → Ends P' Q' m s
  weaken-Ends {m} {s} h p q = record { ended = weaken (m s) h.ended p q }

  pub if-Ends :
      (b : Bool) {m n : Action S A} {s : S}
      → (b ≡ true → Ends P Q m s)
      → (b ≡ false → Ends P Q n s)
      → Ends P Q (if b then m else n) s
  if-Ends true p q = p refl
  if-Ends false p q = q refl

  pub pure-Ends : {a : A} {s : S} → P a s → Ends P Q (pure a) s
  pure-Ends p = record { ended = p }

  pub raise-Ends : {e : Errno} {s : S} → Q e s → Ends P Q (raise e) s
  raise-Ends q = record { ended = q }

  pub gets-Ends :
      {B : Type 0} {g : S → B} (f : B → Action S A) {s : S}
      → Ends P Q (f (g s)) s
      → Ends P Q (gets g >>= f) s
  gets-Ends f h = record { ended = h.ended }

  pub with_state-Ends : (f : S → Action S A) {s : S} → Ends P Q (f s) s → Ends P Q (with_state f) s
  unfolding with_state
  with_state-Ends f h = record { ended = h.ended }

  pub modify-Ends :
      {g : S → S} {m : Action S A} {s : S} → Ends P Q m (g s) → Ends P Q (modify g >> m) s
  modify-Ends h = record { ended = h.ended }

  pub ignore-Ends :
      {B : Type 0} (g : Action S B) {m : Action S A} {s : S}
      → Ends P Q m (g s).1
      → Ends P Q (ignore g >> m) s
  ignore-Ends g h = record { ended = h.ended }

  pub attempt-Ends :
      {B : Type 0} {g : Action S B} (f : Result B → Action S A) {s : S}
      → Ends P Q (f (g s).0) (g s).1
      → Ends P Q (attempt g >>= f) s
  attempt-Ends f h = record { ended = h.ended }

  pub raise_if-Ends :
      (b : Bool) (e : Errno) {m : Action S A} {s : S}
      → (b ≡ true → Q e s)
      → (b ≡ false → Ends P Q m s)
      → Ends P Q (raise_if b e >> m) s
  raise_if-Ends true e q p = record { ended = q refl }
  raise_if-Ends false e q p = record { ended = (p refl).ended }

module _ {S A B : Type 0} {P : A → S → Type 0} {P' : B → S → Type 0} {Q : Errno → S → Type 0} where
  after :
      {f : A → Action S B} (r : Result A × S) (s : S)
      → Ended P Q r
      → ((a : A) (t : S) → P a t → Ends P' Q (f a) t)
      → Ended P' Q (◌>>=◌ {S = S} (λ _. r) f s)
  after (ok a, t) s h k = (k a t h).ended
  after (err e, t) s h k = h

  pub bind-Ends :
      {m : Action S A} {f : A → Action S B} {s : S}
      → Ends P Q m s
      → ((a : A) (t : S) → P a t → Ends P' Q (f a) t)
      → Ends P' Q (m >>= f) s
  bind-Ends {m} {f} {s} h k = record { ended = after (m s) s h.ended k }

pub done-Ends :
    {S : Type 0} {P : Unit {0} → S → Type 0} {Q : Errno → S → Type 0} {g : S → S} {s : S}
    → P tt (g s)
    → Ends P Q (modify g) s
done-Ends p = record { ended = p }

module _ {S A B : Type 0} {P : A → S → Type 0} {P' : B → S → Type 0} {Q : Errno → S → Type 0} where
  pub then-Ends :
      {m : Action S A} {k : Action S B} {s : S}
      → Ends P Q m s
      → ((a : A) (t : S) → P a t → Ends P' Q k t)
      → Ends P' Q (m >> k) s
  then-Ends h k = bind-Ends h k

-- A test at the end of an action.
pub last_raise_if-Ends :
    {S : Type 0} {P : Unit {0} → S → Type 0} {Q : Errno → S → Type 0} (b : Bool) (e : Errno) {s : S}
    → (b ≡ true → Q e s)
    → (b ≡ false → P tt s)
    → Ends P Q (raise_if b e) s
last_raise_if-Ends true e q p = record { ended = q refl }
last_raise_if-Ends false e q p = record { ended = p refl }
