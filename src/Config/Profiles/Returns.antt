-- ===== src/Config/Profiles/Returns.antt =====
-- What holds of an effect on the profiles of pkg/config/cos.go: of the result and the state if it
-- succeeds, and of the machine if it fails.
use harvester_installer.Prelude.{Result, String, err, ok, some, ◌≡◌}
use harvester_installer.Config.Profiles.Effects.{Faults, Io, Machine, after, ◌>>=◌}

-- A success has `P`, and a failure has the excuse `F`.
abbrev pub Returns {ℓ} :
    {A : Type 0} → Type ℓ → (A → Machine → Type ℓ) → Result String A × Machine → Type ℓ
Returns F P (ok a, s) = P a s
Returns F P (err e, s) = F

module _ {ℓ} (F : Type ℓ) where
  after-Returns :
      {A B : Type 0} (Q : A → Machine → Type ℓ) (P : B → Machine → Type ℓ)
      (r : Result String A × Machine) (f : A → Io B)
      → Returns F Q r
      → ((a : A) (t : Machine) → Q a t → Returns F P (f a t))
      → Returns F P (after r f)
  after-Returns Q P (ok a, t) f q h = h a t q
  after-Returns Q P (err e, t) f q h = q

  pub bind-Returns :
      {A B : Type 0} (Q : A → Machine → Type ℓ) (P : B → Machine → Type ℓ) (m : Io A) (f : A → Io B)
      (s : Machine)
      → Returns F Q (m s)
      → ((a : A) (t : Machine) → Q a t → Returns F P (f a t))
      → Returns F P ((m >>= f) s)
  unfolding ◌>>=◌
  bind-Returns Q P m f s q h = after-Returns Q P (m s) f q h

  pub map-Returns :
      {A : Type 0} (Q : A → Machine → Type ℓ) (P : A → Machine → Type ℓ)
      (r : Result String A × Machine)
      → Returns F Q r
      → ((a : A) (t : Machine) → Q a t → P a t)
      → Returns F P r
  map-Returns Q P (ok a, t) q h = h a t q
  map-Returns Q P (err e, t) q h = q

-- Something that the code relies on has failed.
pub data Faulty (faults : Faults) : Type 0 where
  read_fails : (path e : String) → faults.read_fault path ≡ some e → Faulty faults
  write_fails : (path e : String) → faults.write_fault path ≡ some e → Faulty faults
  remove_fails : (path e : String) → faults.remove_fault path ≡ some e → Faulty faults
  mkdir_fails : (path e : String) → faults.mkdir_fault path ≡ some e → Faulty faults
  command_fails : (line e : String) → faults.command_fault line ≡ some e → Faulty faults

pub weaken-Returns {ℓ} :
    {A : Type 0} (F G : Type ℓ) (P : A → Machine → Type ℓ) (r : Result String A × Machine)
    → (F → G)
    → Returns F P r
    → Returns G P r
weaken-Returns F G P (ok a, t) e h = h
weaken-Returns F G P (err x, t) e h = e h
