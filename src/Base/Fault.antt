-- ===== src/Base/Fault.antt =====
-- What a kernel function comes to: a value, or `panic`, which stops the machine.
use Prim.Native.String.{String}
use mathlib.Core.Path.{◌≡◌, refl, subst}

module _ {ℓ} where
  -- `panic(msg)` of console.c, which does not return.
  pub data Result (A : Type ℓ) : Type ℓ where
    panic : String → Result A
    ok : A → Result A

module _ {ℓ κ} {A : Type ℓ} {B : Type κ} where
  -- What follows a call runs only if the call comes back.
  infixl 5 ◌>>=◌
  abbrev pub ◌>>=◌ : Result A → (A → Result B) → Result B
  call >>= after = elim call [ panic msg ↦ panic msg | ok a ↦ after a ]

  -- If the whole comes back, so does the call.
  pub >>=-eq-ok :
      (call : Result A) (after : A → Result B) {b : B}
      → (call >>= after) ≡ ok b
      → (a : A) × (call ≡ ok a) × (after a ≡ ok b)
  >>=-eq-ok (panic msg) after whole = cc
  >>=-eq-ok (ok a) after whole = (a, refl, whole)

-- A call panics, or it comes back with a value that has property `P`.
pub data Returns {ℓ κ} {A : Type ℓ} (call : Result A) (P : A → Type κ) : Type (ℓ ⊔ κ) where
  panics : (msg : String) → call ≡ panic msg → Returns call P
  returns : (a : A) → call ≡ ok a → P a → Returns call P

module _ {ℓ κ} {A : Type ℓ} where
  pub Returns-intro :
      (call : Result A) {P : A → Type κ} → ((a : A) → call ≡ ok a → P a) → Returns call P
  Returns-intro (panic msg) h = panics msg refl
  Returns-intro (ok a) h = returns a refl (h a refl)

  pub Returns-elim : {call : Result A} {P : A → Type κ} {a : A} → call ≡ ok a → Returns call P → P a
  Returns-elim e (panics msg e') = absurd (cc)
  Returns-elim {P = P} {a = a} e (returns b e' h) = subst P (cc) h

module _ {ℓ κ μ} {A : Type ℓ} where
  pub Returns-weaken :
      {call : Result A} {P : A → Type κ} {Q : A → Type μ}
      → ((a : A) → P a → Q a)
      → Returns call P
      → Returns call Q
  Returns-weaken f (panics msg e) = panics msg e
  Returns-weaken f (returns a e h) = returns a e (f a h)

module _ {ℓ κ μ} {A : Type ℓ} {B : Type κ} where
  pub Returns->>= :
      (call : Result A) (after : A → Result B) {P : A → Type μ} {Q : B → Type μ}
      → Returns call P
      → ((a : A) → P a → Returns (after a) Q)
      → Returns (call >>= after) Q
  Returns->>= call after (panics msg e) next = rw e (panics msg refl)
  Returns->>= call after (returns a e h) next = rw e (next a h)
