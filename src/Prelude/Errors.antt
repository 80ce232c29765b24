-- ===== src/Prelude/Errors.antt =====
-- A Go function that returns `(T, error)` returns a `Result` here, and one that returns `error`
-- alone a `Result E Unit`.
use mathlib.Core.Path.{◌≡◌, refl}
use mathlib.Core.Logic.{◌↔◌, ◌⊎◌, inl, inr}
use mathlib.Core.Bool.{Bool, true, false}
use mathlib.Core.List.{List, [], ◌∷◌}
use harvester_installer.Prelude.Tests.{if◌then◌else◌}
use harvester_installer.Prelude.Lists.{All}

pub data Result {ℓ κ} (E : Type κ) (A : Type ℓ) : Type (ℓ ⊔ κ) where
  ok : A → Result E A
  err : E → Result E A

infixl 5 ◌>>=◌
abbrev pub ◌>>=◌ {ℓ κ μ} :
    {E : Type κ} {A : Type ℓ} {B : Type μ} → Result E A → (A → Result E B) → Result E B
err e >>= next = err e
ok a >>= next = next a

infixl 5 ◌>>◌
abbrev pub ◌>>◌ {ℓ κ} : {E : Type κ} {B : Type ℓ} → Result E (Unit {0}) → Result E B → Result E B
check >> rest = check >>= λ _. rest

-- `if bad { return e }`
abbrev pub fail_if {κ} : {E : Type κ} → Bool → E → Result E (Unit {0})
fail_if true e = err e
fail_if false e = ok tt

abbrev pub map_err {ℓ κ μ} :
    {E : Type κ} {F : Type μ} {A : Type ℓ} → (E → F) → Result E A → Result F A
map_err f (ok a) = ok a
map_err f (err e) = err (f e)

abbrev pub map_ok {ℓ κ μ} :
    {E : Type κ} {A : Type ℓ} {B : Type μ} → (A → B) → Result E A → Result E B
map_ok f (ok a) = ok (f a)
map_ok f (err e) = err e

abbrev pub succeeds {ℓ κ} : {E : Type κ} {A : Type ℓ} → Result E A → Bool
succeeds (ok a) = true
succeeds (err e) = false

pub Result-cases {ℓ κ} :
    {E : Type κ} {A : Type ℓ} (r : Result E A) → ((e : E) × (r ≡ err e)) ⊎ ((a : A) × (r ≡ ok a))
Result-cases (ok a) = inr (a, refl)
Result-cases (err e) = inl (e, refl)

-- `if _, err := r; err != nil { return err }`
abbrev pub discard {ℓ κ} : {E : Type κ} {A : Type ℓ} → Result E A → Result E (Unit {0})
discard (ok a) = ok tt
discard (err e) = err e

-- A sequence of checks passes exactly when each of them does.
module _ {κ} {E : Type κ} where
  pub >>-passes : (m k : Result E (Unit {0})) → (m >> k) ≡ ok tt ↔ (m ≡ ok tt) × (k ≡ ok tt)
  >>-passes (ok tt) k = (λ h. (refl, h), λ h. h.1)
  >>-passes (err e) k = (λ h. cc, λ h. cc h.0)

  pub fail_if-passes : (b : Bool) (e : E) → fail_if b e ≡ ok tt ↔ (b ≡ false)
  fail_if-passes true e = (λ h. cc, λ h. cc)
  fail_if-passes false e = (λ h. refl, λ h. refl)

  pub cond-passes :
      (b : Bool) (m : Result E (Unit {0}))
      → (if b then m else ok tt) ≡ ok tt ↔ (b ≡ true → m ≡ ok tt)
  cond-passes true m = (λ h _. h, λ h. h refl)
  cond-passes false m = (λ h p. cc, λ h. refl)

  -- `for _, x := range xs { if err := f(x); err != nil { return err } }`
  abbrev pub check_all {ℓ} : {A : Type ℓ} → (A → Result E (Unit {0})) → List A → Result E (Unit {0})
  check_all f [] = ok tt
  check_all f (x ∷ xs) = f x >> check_all f xs

  pub check_all-passes {ℓ} :
      {A : Type ℓ} (f : A → Result E (Unit {0})) (xs : List A)
      → check_all f xs ≡ ok tt ↔ All (λ x. f x ≡ ok tt) xs
  check_all-passes f [] = (λ h. tt, λ h. refl)
  check_all-passes f (x ∷ xs) =
      let (to, back) = >>-passes (f x) (check_all f xs) in
      let (into, out) = check_all-passes f xs in
      (λ h. ((to h).0, into (to h).1), λ h. back (h.0, out h.1))

  pub discard-passes {ℓ κ'} :
      {D : Type κ'} {A : Type ℓ} (f : D → E) (r : Result D A)
      → discard (map_err f r) ≡ ok tt ↔ (succeeds r ≡ true)
  discard-passes f (ok a) = (λ h. refl, λ h. refl)
  discard-passes f (err e) = (λ h. cc, λ h. cc)

  -- The meaning of a sequence, a test, a conditional check and a loop, from that of their parts.
  pub seq_iff {ℓ μ} :
      {P : Type ℓ} {Q : Type μ} {m k : Result E (Unit {0})}
      → (m ≡ ok tt ↔ P)
      → (k ≡ ok tt ↔ Q)
      → (m >> k) ≡ ok tt ↔ P × Q
  seq_iff {m = m} {k = k} p q =
      let (to, back) = >>-passes m k in
      (λ h. (p.0 (to h).0, q.0 (to h).1), λ h. back (p.1 h.0, q.1 h.1))

  pub fail_iff {ℓ} : {P : Type ℓ} (b : Bool) (e : E) → (b ≡ false ↔ P) → fail_if b e ≡ ok tt ↔ P
  fail_iff b e p = let (to, back) = fail_if-passes b e in (λ h. p.0 (to h), λ h. back (p.1 h))

  pub cond_iff {ℓ} :
      {P : Type ℓ} (b : Bool) {m : Result E (Unit {0})}
      → (m ≡ ok tt ↔ P)
      → (if b then m else ok tt) ≡ ok tt ↔ (b ≡ true → P)
  cond_iff b {m = m} p =
      let (to, back) = cond-passes b m in (λ h t. p.0 (to h t), λ h. back (λ t. p.1 (h t)))

-- What a chain gives: a success has `P`, and a failure has the excuse `F`.
abbrev pub Yields {ℓ μ κ} : {E : Type κ} {A : Type ℓ} → Type μ → (A → Type μ) → Result E A → Type μ
Yields F P (ok a) = P a
Yields F P (err e) = F

module _ {ℓ μ κ} {E : Type κ} {A : Type ℓ} (F : Type μ) where
  pub bind-Yields {ι} :
      {B : Type ι} (Q : A → Type μ) (P : B → Type μ) (m : Result E A) (f : A → Result E B)
      → Yields F Q m
      → ((a : A) → Q a → Yields F P (f a))
      → Yields F P (m >>= f)
  bind-Yields Q P (ok a) f q h = h a q
  bind-Yields Q P (err e) f q h = q

  -- A first step of which only the failure matters.
  pub step-Yields {ι} :
      {B : Type ι} (P : B → Type μ) (m : Result E A) (f : A → Result E B)
      → ((e : E) → m ≡ err e → F)
      → ((a : A) → m ≡ ok a → Yields F P (f a))
      → Yields F P (m >>= f)
  step-Yields P (ok a) f excuse h = h a refl
  step-Yields P (err e) f excuse h = excuse e refl
