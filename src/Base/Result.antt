-- ===== src/Base/Result.antt =====
-- The error convention of the firmware: an `int` that is 0 or a count on success, and a negated
-- errno on failure. An action also keeps the calls that were made of the world outside.
pub mod Ends
pub mod Keeps
use Prim.Native.Nat.{ℕ}
use mathlib.Core.Path.{◌≡◌, refl, sym, ap}
use mathlib.Core.Bool.{Bool, true, false, false≢true}
use mathlib.Core.Logic.{◌⊎◌, inl, inr}
use esp32s3tinyepaper.Base.Tests.{if◌then◌else◌}

-- The errno values that the firmware names; `other` is any that a called library returns.
pub data Errno : Type 0 where
  enoent eio ebadf eagain enomem enodev einval emfile : Errno
  ebadmsg eopnotsupp emsgsize etimedout ehostdown ehostunreach eisconn enotconn enotsup : Errno
  other : ℕ → Errno

pub data Result {ℓ} (A : Type ℓ) : Type ℓ where
  ok : A → Result A
  err : Errno → Result A

-- An action on a state `S`; the state survives a failure, since what was done stays done.
abbrev pub Action : Type 0 → Type 0 → Type 0
Action S A = S → Result A × S

module _ {S A : Type 0} where
  abbrev pub pure : A → Action S A
  pure a s = (ok a, s)

  abbrev pub raise : Errno → Action S A
  raise e s = (err e, s)

  abbrev pub gets : (S → A) → Action S A
  gets f s = (ok (f s), s)

  -- An action that reads the state it starts in.
  unfoldable pub with_state : (S → Action S A) → Action S A
  with_state f s = f s s

  abbrev pub of_result : Result A → Action S A
  of_result r s = (r, s)

  -- `ret = f();` where the code goes on whatever `ret` is.
  abbrev pub attempt : Action S A → Action S (Result A)
  attempt m s = let (r, t) = m s in (ok r, t)

  -- `(void)f()`: the outcome is dropped.
  abbrev pub ignore : Action S A → Action S (Unit {0})
  ignore m s = (ok tt, (m s).1)

module _ {S : Type 0} where
  abbrev pub modify : (S → S) → Action S (Unit {0})
  modify f s = (ok tt, f s)

  -- `if (c) return -e;`
  abbrev pub raise_if : Bool → Errno → Action S (Unit {0})
  raise_if c e s = (if c then err e else ok tt, s)

infixl 5 ◌>>=◌ ◌>>◌
abbrev pub ◌>>=◌ : {S A B : Type 0} → Action S A → (A → Action S B) → Action S B
◌>>=◌ m f s = let (r, t) = m s in elim r [ ok a ↦ f a t | err e ↦ (err e, t) ]

abbrev pub ◌>>◌ : {S A B : Type 0} → Action S A → Action S B → Action S B
m >> k = m >>= λ _. k

pub Result-cases {ℓ} :
    {A : Type ℓ} (r : Result A) → ((a : A) × (r ≡ ok a)) ⊎ ((e : Errno) × (r ≡ err e))
Result-cases (ok a) = inl (a, refl)
Result-cases (err e) = inr (e, refl)

module _ {S A : Type 0} where
  -- A guard that holds ends the action, and one that does not is passed.
  pub raise_if_stops :
      (b : Bool) (e : Errno) (m : Action S A) (s : S)
      → b ≡ true
      → (raise_if b e >> m) s ≡ (err e, s)
  raise_if_stops true e m s h = refl
  raise_if_stops false e m s h = absurd (false≢true h)

  pub raise_if_passes :
      (b : Bool) (e : Errno) (m : Action S A) (s : S) → b ≡ false → (raise_if b e >> m) s ≡ m s
  raise_if_passes false e m s h = refl
  raise_if_passes true e m s h = absurd (false≢true (sym h))

-- A step that succeeds is followed by the rest.
pub bind_ok :
    {S A B : Type 0} (m : Action S A) (f : A → Action S B) (s : S) {a : A} {t : S}
    → m s ≡ (ok a, t)
    → (m >>= f) s ≡ f a t
bind_ok {S} m f s e = ap (λ p. ◌>>=◌ {S = S} (λ _. p) f s) e
