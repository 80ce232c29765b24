-- ===== src/Config/Defaults.antt =====
-- `setConfigDefaultValues` of pkg/config/cos.go. The versions that the build sets by ldflags are a
-- parameter.
use harvester_installer.Prelude.{
  Bool-cases, Option, String, ap, arith, if◌then◌else◌, inl, inr, ltb, none, refl, some, ℕ, ◌==◌,
  ◌≡◌, ◌≤◌,
}
use harvester_installer.Config.Types.{HarvesterConfig, LhDefaultSettings}

pub record Versions : Type 0 where
  pub rke2 : String
  pub rancher : String
  pub harvester_chart : String
  pub monitoring_chart : String
  pub logging_chart : String
  pub kubeovn_operator_chart : String

abbrev pub default_replica_count : ℕ
default_replica_count = 3

-- `defaultGuaranteed{Engine,Replica,Instance}ManagerCPU`
abbrev pub default_guaranteed_cpu : ℕ
default_guaranteed_cpu = 12

abbrev pub max_storage_reserved_percentage : ℕ
max_storage_reserved_percentage = 30

abbrev pub default_storage_reserved_percentage : ℕ
default_storage_reserved_percentage = 0

unfoldable pub or_default : String → String → String
or_default given version = if given == "" then version else given

unfoldable pub cap_at : ℕ → ℕ → ℕ
cap_at limit n = if ltb limit n then limit else n

-- A pointer that is nil stays nil; a value above the limit is overwritten.
unfoldable pub cap_pointer : ℕ → Option ℕ → Option ℕ
unfolding cap_at
cap_pointer limit none = none
cap_pointer limit (some n) = some (cap_at limit n)

unfoldable pub cap_or_set : Option ℕ → Option ℕ
unfolding cap_at
cap_or_set none = some default_storage_reserved_percentage
cap_or_set (some n) = some (cap_at max_storage_reserved_percentage n)

unfoldable pub default_settings : LhDefaultSettings → LhDefaultSettings
default_settings s = record {
  guaranteed_engine_manager_cpu =
      cap_pointer default_guaranteed_cpu s.guaranteed_engine_manager_cpu;
  guaranteed_replica_manager_cpu =
      cap_pointer default_guaranteed_cpu s.guaranteed_replica_manager_cpu;
  guaranteed_instance_manager_cpu =
      cap_pointer default_guaranteed_cpu s.guaranteed_instance_manager_cpu;
  storage_reserved_percentage_for_default_disk =
      cap_or_set s.storage_reserved_percentage_for_default_disk;
}

unfoldable pub set_config_default_values : Versions → HarvesterConfig → HarvesterConfig
set_config_default_values v c =
    let i = c.install in
    let h = i.harvester in
    record c {
      runtime_version = or_default c.runtime_version v.rke2;
      rancher_version = or_default c.rancher_version v.rancher;
      harvester_chart_version = or_default c.harvester_chart_version v.harvester_chart;
      monitoring_chart_version = or_default c.monitoring_chart_version v.monitoring_chart;
      logging_chart_version = or_default c.logging_chart_version v.logging_chart;
      kubeovn_operator_chart_version =
          or_default c.kubeovn_operator_chart_version v.kubeovn_operator_chart;
      install = record i {
        harvester = record h {
          replica_count = cap_at default_replica_count h.replica_count;
          default_settings = default_settings h.default_settings;
        };
      };
    }

abbrev AtMost : ℕ → Option ℕ → Type 0
AtMost limit none = Unit
AtMost limit (some n) = n ≤ limit

-- What holds of a configuration with its default values.
pub record IsDefaulted (c : HarvesterConfig) : Type 0 where
  pub replicas : c.install.harvester.replica_count ≤ default_replica_count
  pub engine : AtMost 12 c.install.harvester.default_settings.guaranteed_engine_manager_cpu
  pub replica : AtMost 12 c.install.harvester.default_settings.guaranteed_replica_manager_cpu
  pub instances : AtMost 12 c.install.harvester.default_settings.guaranteed_instance_manager_cpu
  pub storage :
      (n : ℕ) × (c.install.harvester.default_settings.storage_reserved_percentage_for_default_disk
        ≡ some n)
      × (n ≤ 30)

cap_at-le : (limit n : ℕ) → cap_at limit n ≤ limit
unfolding cap_at
cap_at-le limit n = ground arith

cap_at_fix : (limit n : ℕ) → n ≤ limit → cap_at limit n ≡ n
unfolding cap_at
cap_at_fix limit n h = ground arith

cap_at_idempotent : (limit n : ℕ) → cap_at limit (cap_at limit n) ≡ cap_at limit n
cap_at_idempotent limit n = cap_at_fix limit (cap_at limit n) (cap_at-le limit n)

cap_pointer-AtMost : (limit : ℕ) (p : Option ℕ) → AtMost limit (cap_pointer limit p)
unfolding cap_pointer
cap_pointer-AtMost limit none = tt
cap_pointer-AtMost limit (some n) = cap_at-le limit n

cap_pointer_idempotent :
    (limit : ℕ) (p : Option ℕ) → cap_pointer limit (cap_pointer limit p) ≡ cap_pointer limit p
unfolding cap_pointer
cap_pointer_idempotent limit none = refl
cap_pointer_idempotent limit (some n) = ap some (cap_at_idempotent limit n)

cap_or_set_idempotent : (p : Option ℕ) → cap_or_set (cap_or_set p) ≡ cap_or_set p
unfolding cap_or_set
cap_or_set_idempotent none = refl
cap_or_set_idempotent (some n) = ap some (cap_at_idempotent 30 n)

cap_or_set_bounded : (p : Option ℕ) → (n : ℕ) × (cap_or_set p ≡ some n) × (n ≤ 30)
unfolding cap_or_set
cap_or_set_bounded none = (0, refl, omega arith)
cap_or_set_bounded (some n) = (cap_at 30 n, refl, cap_at-le 30 n)

or_default_idempotent :
    (given version : String)
    → or_default (or_default given version) version ≡ or_default given version
unfolding or_default
or_default_idempotent given version = elim (Bool-cases (given == "")) [
  | inl e ↦ rw e (elim (Bool-cases (version == "")) [ inl f ↦ rw f | inr f ↦ rw f ])
  | inr e ↦ rw e (rw e)
]

-- With its default values a configuration is within the limits on replicas, on the guaranteed CPU
-- of the three managers and on the reserved storage, which is set.
pub set_config_default_values-IsDefaulted :
    (v : Versions) (c : HarvesterConfig) → IsDefaulted (set_config_default_values v c)
unfolding set_config_default_values default_settings
set_config_default_values-IsDefaulted v c = record {
  replicas = cap_at-le _ _;
  engine = cap_pointer-AtMost 12 _;
  replica = cap_pointer-AtMost 12 _;
  instances = cap_pointer-AtMost 12 _;
  storage = cap_or_set_bounded _;
}

-- Setting the default values twice is setting them once.
pub set_config_default_values_idempotent :
    (v : Versions) (c : HarvesterConfig)
    → set_config_default_values v (set_config_default_values v c) ≡ set_config_default_values v c
unfolding set_config_default_values default_settings
set_config_default_values_idempotent v c =
    simp (or_default_idempotent, cap_at_idempotent, cap_pointer_idempotent, cap_or_set_idempotent)
