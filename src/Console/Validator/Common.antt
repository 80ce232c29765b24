-- ===== src/Console/Validator/Common.antt =====
-- pkg/console/validator.go: `commonCheck`, and `validateConfig` as a whole.
use text.Mathlib.Text.{starts_with}
use mathlib.Core.Bool.{false≢true}
use harvester_installer.Prelude.{
  All, Bool, Bool-cases, List, String, [], arith, eq_iff, err, fail_if, fail_iff, false,
  if◌then◌else◌, inl, inr, is_empty, is_empty_iff, not, ok, refl, seq_iff, true, ◌&&◌, ◌==◌, ◌>>◌,
  ◌||◌, ◌↔◌, ◌∷◌, ◌≡◌, ◌≢◌, ◌⊎◌,
}
use harvester_installer.Config.Types.{
  HarvesterConfig, mode_create, mode_install, mode_join, mode_upgrade,
}
use harvester_installer.Console.Disks.{DiskOptionsCache}
use harvester_installer.Console.Validator.{check_credentials, common_check, validate_config}
use harvester_installer.Console.Validator.Fields.{
  Check, check_persistent_state_paths, create_contains_server_url, iso_url_not_specified,
  join_without_server_url, mode_unknown, no_credentials, token_not_specified,
}
use harvester_installer.Console.Validator.Values.{check_persistent_state_path_iff}
use harvester_installer.Console.Validator.Accepts.{IsAccepted, not_eq_iff, validate_iff}
use harvester_installer.Console.Validator.Machine.{Host}

abbrev pub IsStatePath : String → Type 0
IsStatePath path =
    (starts_with path "/" ≡ true) × (path ≢ "/tmp") × (starts_with path "/tmp/" ≡ false)

paths_iff :
    (paths : List String) → check_persistent_state_paths paths ≡ ok tt ↔ All IsStatePath paths
unfolding check_persistent_state_paths
paths_iff [] = (λ p. tt, λ p. refl)
paths_iff (x ∷ xs) = seq_iff (check_persistent_state_path_iff x) (paths_iff xs)

-- What is asked of a configuration in the modes `create` and `join`.
pub record IsCredited (already_installed : Bool) (c : HarvesterConfig) : Type 0 where
  pub iso :
      already_installed ≡ false
      → c.install.mode ≢ mode_install
      → c.install.automatic ≡ true
      → c.install.iso_url ≢ ""
  pub token_given : c.install.mode ≢ mode_install → c.token ≢ ""
  pub credentials : (c.os.ssh_authorized_keys ≢ []) ⊎ (c.os.password ≢ "")
  pub paths : All IsStatePath c.os.persistent_state_paths

not-true_iff : (b : Bool) → not b ≡ true ↔ (b ≡ false)
not-true_iff true = (λ p. cc, λ p. cc)
not-true_iff false = (λ p. refl, λ p. refl)

eq_false_iff : (s t : String) → (s == t) ≡ false ↔ (s ≢ t)
eq_false_iff s t = (ground (arith, eq_iff s t), ground (arith, eq_iff s t))

-- A guard that is not taken.
guard_iff {ℓ μ} :
    {P : Type ℓ} {Q : Type μ} (b : Bool) {x : Bool}
    → (b ≡ true ↔ Q)
    → (x ≡ false ↔ P)
    → (b && x) ≡ false ↔ (Q → P)
guard_iff true q p = (λ r c. p.0 r, λ r. p.1 (r (q.0 refl)))
guard_iff false q p = (λ r c. absurd (false≢true (q.1 c)), λ r. refl)

not_eq_false_iff : (s t : String) → not (s == t) ≡ false ↔ (s ≡ t)
not_eq_false_iff s t = (ground (arith, eq_iff s t), ground (arith, eq_iff s t))

abbrev IsMode : String → Type 0
IsMode m = (m ≡ mode_upgrade) ⊎ ((m ≡ mode_install) ⊎ ((m ≡ mode_create) ⊎ (m ≡ mode_join)))

-- The `switch` on the mode, for any checks of two of its cases.
module _ {C J : Type 0} (creating joining : Check) (c : creating ≡ ok tt ↔ C)
    (j : joining ≡ ok tt ↔ J) where
  by_mode : (m : String) → Check
  by_mode m =
      if m == mode_upgrade || m == mode_install
      then ok tt
      else if m == mode_create
      then creating
      else if m == mode_join
      then joining
      else err (mode_unknown m)

  by_mode_iff :
      (m : String) → by_mode m ≡ ok tt ↔ IsMode m × ((m ≡ mode_create → C) × (m ≡ mode_join → J))
  unfolding by_mode
  by_mode_iff m = elim (Bool-cases (m == mode_create)) [
    | inl e ↦
        let is = (eq_iff _ _).0 e in
        rw is (
          λ p. (
            inr (inr (inl refl)),
            (λ _. c.0 p, λ q. absurd (ground (arith, eq_iff mode_create mode_join))),
          ),
          λ p. c.1 (p.1.0 refl),
        )
    | inr n ↦ elim (Bool-cases (m == mode_join)) [
      | inl e ↦
          let is = (eq_iff _ _).0 e in
          rw is (
            λ p. (
              inr (inr (inr refl)),
              (λ q. absurd (ground (arith, eq_iff mode_join mode_create)), λ _. j.0 p),
            ),
            λ p. j.1 (p.1.1 refl),
          )
      | inr o ↦ (
        λ p. (
          ground (arith, eq_iff m mode_upgrade, eq_iff m mode_install),
          (
            λ q. absurd (ground (arith, eq_iff m mode_create)),
            λ q. absurd (ground (arith, eq_iff m mode_join)),
          ),
        ),
        λ p.
            let is = p.0 in
            ground (
              arith,
              eq_iff m mode_upgrade,
              eq_iff m mode_install,
              eq_iff m mode_create,
              eq_iff m mode_join,
            ),
      )
    ]
  ]

module _ (already_installed : Bool) (c : HarvesterConfig) where
  iso_iff :
      (not already_installed
          && (not (c.install.mode == mode_install)
              && (c.install.automatic && c.install.iso_url == "")))
        ≡ false
      ↔ (already_installed ≡ false
          → c.install.mode ≢ mode_install
          → c.install.automatic ≡ true
          → c.install.iso_url ≢ "")
  iso_iff = guard_iff (not already_installed) (not-true_iff already_installed) (
      guard_iff (not (c.install.mode == mode_install)) (not_eq_iff c.install.mode mode_install)
        (guard_iff c.install.automatic (λ p. p, λ p. p) (eq_false_iff c.install.iso_url "")))

  token_iff :
      (not (c.install.mode == mode_install) && c.token == "") ≡ false
      ↔ (c.install.mode ≢ mode_install → c.token ≢ "")
  token_iff =
      guard_iff (not (c.install.mode == mode_install)) (not_eq_iff c.install.mode mode_install)
        (eq_false_iff c.token "")

  credentials_iff :
      (is_empty c.os.ssh_authorized_keys && c.os.password == "") ≡ false
      ↔ (c.os.ssh_authorized_keys ≢ []) ⊎ (c.os.password ≢ "")
  credentials_iff =
      let (to, back) = is_empty_iff c.os.ssh_authorized_keys in
      (ground (arith, to, eq_iff c.os.password ""), ground (arith, back, eq_iff c.os.password ""))

  IsCredited-iff : check_credentials already_installed c ≡ ok tt ↔ IsCredited already_installed c
  unfolding check_credentials
  IsCredited-iff =
      let (to, back) = seq_iff (fail_iff _ iso_url_not_specified iso_iff) (
        seq_iff (fail_iff _ token_not_specified token_iff) (
          seq_iff (fail_iff _ no_credentials credentials_iff)
            (paths_iff c.os.persistent_state_paths))) in
      (
        λ p.
            let (a, (b, (d, e))) = to p in
            record { iso = a; token_given = b; credentials = d; paths = e },
        λ s. back (s.iso, (s.token_given, (s.credentials, s.paths))),
      )

  -- What `commonCheck` asks: one of four modes, a server URL only to join, and credentials.
  pub record IsCommon : Type 0 where
    pub mode_is :
        (c.install.mode ≡ mode_upgrade)
        ⊎ ((c.install.mode ≡ mode_install)
            ⊎ ((c.install.mode ≡ mode_create) ⊎ (c.install.mode ≡ mode_join)))
    pub create_is :
        c.install.mode ≡ mode_create → (c.server_url ≡ "") × IsCredited already_installed c
    pub join_is : c.install.mode ≡ mode_join → (c.server_url ≢ "") × IsCredited already_installed c

  -- `commonCheck` passes exactly when the mode is one of the four, mode `create` comes with no server
  -- URL and mode `join` with one, and in these two modes the ISO URL (where it is needed), the token,
  -- the credentials and the persistent paths are as they must be.
  pub common_check_iff : common_check already_installed c ≡ ok tt ↔ IsCommon
  unfolding common_check by_mode
  common_check_iff =
      let (to, back) =
        by_mode_iff
          (fail_if (not (c.server_url == "")) create_contains_server_url
            >> check_credentials already_installed c)
          (fail_if (c.server_url == "") join_without_server_url
            >> check_credentials already_installed c)
          (seq_iff (fail_iff _ create_contains_server_url (not_eq_false_iff c.server_url ""))
            IsCredited-iff)
          (seq_iff (fail_iff _ join_without_server_url (eq_false_iff c.server_url ""))
            IsCredited-iff)
          c.install.mode in
      (
        λ p. let (a, (b, d)) = to p in record { mode_is = a; create_is = b; join_is = d },
        λ s. back (s.mode_is, (s.create_is, s.join_is)),
      )

  -- `validateConfig` accepts exactly the configurations that `commonCheck` and `Validate` accept.
  validate_config_iff :
      (h : Host) (cache : DiskOptionsCache)
      → validate_config h cache already_installed c ≡ ok tt ↔ IsCommon × IsAccepted h cache c
  unfolding validate_config
  validate_config_iff h cache = seq_iff common_check_iff (validate_iff h cache c)
