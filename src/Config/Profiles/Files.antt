-- ===== src/Config/Profiles/Files.antt =====
-- The laws of the files behind the profiles of pkg/config/cos.go.
use mathlib.Core.Path.{fun_ext}
use harvester_installer.Prelude.{
  Bool, Bool-cases, Option, Option-cases, String, [], ap, arith, eq_iff, false, if◌then◌else◌, inl,
  inr, none, refl, slice_contains, some, true, ◌==◌, ◌∙◌, ◌∷◌, ◌≡◌,
}
use harvester_installer.Config.Types.{Dict}
use harvester_installer.Config.Profiles.Returns.{Faulty, Returns, remove_fails, write_fails}
use harvester_installer.Config.Profiles.Effects.{
  Faults, Machine, drop, lookup, profile_paths, remove, store, write_file,
}

pub lookup-store :
    (p c q : String) (fs : Dict)
    → lookup q (store p c fs) ≡ (if p == q then some c else lookup q fs)
unfolding lookup store
lookup-store p c q [] = refl
lookup-store p c q ((r, d) ∷ fs) =
    ground (arith, eq_iff p q, eq_iff r p, eq_iff r q, lookup-store p c q fs)

pub lookup-drop :
    (p q : String) (fs : Dict) → lookup q (drop p fs) ≡ (if p == q then none else lookup q fs)
unfolding lookup drop
lookup-drop p q [] = ground arith
lookup-drop p q ((r, d) ∷ fs) =
    ground (arith, eq_iff p q, eq_iff r p, eq_iff r q, lookup-drop p q fs)

not_listed :
    (test : String → Bool) (q : String) (fs : Dict)
    → test q ≡ false
    → slice_contains (profile_paths test fs) q ≡ false
unfolding profile_paths slice_contains
not_listed test q [] h = refl
not_listed test q ((p, c) ∷ fs) h = elim (Bool-cases (test p)) [
  | inl e ↦ rw e (ground (arith, eq_iff p q, not_listed test q fs h, ap test))
  | inr e ↦ rw e (not_listed test q fs h)
]

all_listed :
    (test : String → Bool) (q : String) (fs : Dict)
    → test q ≡ true
    → (if slice_contains (profile_paths test fs) q then none else lookup q fs) ≡ none
unfolding profile_paths slice_contains lookup
all_listed test q [] h = refl
all_listed test q ((p, c) ∷ fs) h = elim (Bool-cases (p == q)) [
  | inl e ↦ rw (ap test ((eq_iff p q).0 e) ∙ h) (rw e)
  | inr e ↦ elim (Bool-cases (test p)) [
    | inl t ↦ rw (t, e) (all_listed test q fs h)
    | inr t ↦ rw (t, e) (all_listed test q fs h)
  ]
]

-- The paths that a glob finds are those that pass its test.
pub lookup-glob :
    (test : String → Bool) (q : String) (fs : Dict)
    → (if slice_contains (profile_paths test fs) q then none else lookup q fs)
      ≡ (if test q then none else lookup q fs)
lookup-glob test q fs = elim (Bool-cases (test q)) [
  | inl e ↦ rw e (all_listed test q fs e)
  | inr e ↦ rw (e, not_listed test q fs e)
]

-- The machine `t` is `s`, but for its files, which are those of `f`.
pub record HasFiles (s : Machine) (f : String → Option String) (t : Machine) : Type 0 where
  pub files_are : (q : String) → lookup q t.files ≡ f q
  pub originals_kept : t.originals ≡ s.originals
  pub once_kept : t.saved_once ≡ s.saved_once
  pub commands_kept : t.commands ≡ s.commands

-- Two changes after one another.
pub HasFiles-trans :
    (s : Machine) (f g f' : String → Option String) (t u : Machine)
    → HasFiles s f t
    → HasFiles t g u
    → ((q : String) → g q ≡ f' q)
    → HasFiles s f' u
HasFiles-trans s f g f' t u h k e = record {
  files_are = λ q. k.files_are q ∙ e q;
  originals_kept = k.originals_kept ∙ h.originals_kept;
  once_kept = k.once_kept ∙ h.once_kept;
  commands_kept = k.commands_kept ∙ h.commands_kept;
}

pub HasFiles-refl : (s : Machine) → HasFiles s (λ q. lookup q s.files) s
HasFiles-refl s = record {
  files_are = λ q. refl;
  originals_kept = refl;
  once_kept = refl;
  commands_kept = refl;
}

module _ (faults : Faults) where
  -- One lemma for each effect on the files.
  pub remove-HasFiles :
      (path : String) (s : Machine)
      → Returns
          (Faulty faults)
          (λ _ t. HasFiles s (λ q. if path == q then none else lookup q s.files) t)
          (remove faults path s)
  unfolding remove
  remove-HasFiles path s = elim (Option-cases (faults.remove_fault path)) [
    | inl e ↦ rw e (record {
      files_are = λ q. lookup-drop path q s.files;
      originals_kept = refl;
      once_kept = refl;
      commands_kept = refl;
    })
    | inr (f, e) ↦ rw e (remove_fails path f e)
  ]

  pub write_file-HasFiles :
      (path bytes : String) (s : Machine)
      → Returns
          (Faulty faults)
          (λ _ t. HasFiles s (λ q. if path == q then some bytes else lookup q s.files) t)
          (write_file faults path bytes s)
  unfolding write_file
  write_file-HasFiles path bytes s = elim (Option-cases (faults.write_fault path)) [
    | inl e ↦ rw e (record {
      files_are = λ q. lookup-store path bytes q s.files;
      originals_kept = refl;
      once_kept = refl;
      commands_kept = refl;
    })
    | inr (f, e) ↦ rw e (write_fails path f e)
  ]

pub HasFiles-chain :
    (s t u : Machine) (f : String → Option String)
    (g : (String → Option String) → String → Option String)
    → HasFiles s f t
    → HasFiles t (g (λ q. lookup q t.files)) u
    → HasFiles s (g f) u
HasFiles-chain s t u f g h k =
    HasFiles-trans s f _ (g f) t u h k (λ q. ap (λ b. g b q) (fun_ext h.files_are))
