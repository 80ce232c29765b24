-- ===== src/Console/Disks/Options.antt =====
-- pkg/console/util.go: the choice of a data disk.
use mathlib.Core.List.{Perm, append_assoc, perm_middle}
use mathlib.Core.List.Perm
use harvester_installer.Prelude.{
  All, Bool-cases, List, Option, String, [], ap, arith, eq_iff, inl, inr, none, refl, some, sym,
  ◌++◌, ◌==◌, ◌↔◌, ◌∙◌, ◌∷◌, ◌≡◌, ◌≢◌, ◌⊎◌,
}
use harvester_installer.Config.Types.{HarvesterConfig}
use harvester_installer.Console.Disks.{
  DiskOptionsCache, WidgetOption, first_as_default, get_data_disk_options, move_to_front, or_nil,
  use_installation_disk,
}

-- `os` offers the installation disk first, and then all other options.
pub record OffersFirst (device_for_os : String) (all os : List WidgetOption) : Type 0 where
  pub first : WidgetOption
  pub others : List WidgetOption
  pub os_are : os ≡ use_installation_disk first ∷ others
  pub first_is : first.value ≡ device_for_os
  pub same : Perm (first ∷ others) all

move_to_front-OffersFirst :
    (device_for_os : String) (before all : List WidgetOption) {os : List WidgetOption}
    → move_to_front device_for_os before all ≡ some os
    → OffersFirst device_for_os (before ++ all) os
unfolding move_to_front
move_to_front-OffersFirst device_for_os before [] h = absurd (ground arith)
move_to_front-OffersFirst device_for_os before (o ∷ rest) {os} h =
    elim (Bool-cases (o.value == device_for_os)) [
      | inl found ↦ record {
        first = o;
        others = before ++ rest;
        os_are = cc (rw found at h);
        first_is = (eq_iff _ _).0 found;
        same = Perm.symm (perm_middle before rest);
      }
      | inr other ↦
          rw append_assoc at
            (move_to_front-OffersFirst device_for_os (before ++ o ∷ []) rest (rw other at h))
    ]

-- No option has the value.
abbrev pub Lacks : String → List WidgetOption → Type 0
Lacks device_for_os = All (λ o. o.value ≢ device_for_os)

move_to_front-Lacks :
    (device_for_os : String) (before all : List WidgetOption)
    → move_to_front device_for_os before all ≡ none
    → Lacks device_for_os all
unfolding move_to_front
move_to_front-Lacks device_for_os before [] h = tt
move_to_front-Lacks device_for_os before (o ∷ rest) h =
    elim (Bool-cases (o.value == device_for_os)) [
      | inl found ↦ cc (rw found at h)
      | inr other ↦ (
        ground (arith, eq_iff o.value device_for_os),
        move_to_front-Lacks device_for_os (before ++ o ∷ []) rest (rw other at h),
      )
    ]

or_nil-OffersFirst :
    (device_for_os : String) (all os : List WidgetOption) (moved : Option (List WidgetOption))
    → move_to_front device_for_os [] all ≡ moved
    → or_nil moved ≡ os
    → ((os ≡ []) × Lacks device_for_os all) ⊎ OffersFirst device_for_os all os
unfolding or_nil
or_nil-OffersFirst device_for_os all os none m h =
    inl (sym h, move_to_front-Lacks device_for_os [] all m)
or_nil-OffersFirst device_for_os all os (some ps) m h =
    inr (move_to_front-OffersFirst device_for_os [] all (m ∙ ap some h))

-- Where an installation disk is chosen, the options for a data disk are that disk, with its text
-- changed, in front of all other disks; or, only if that disk is not in the cache, none.
pub get_data_disk_options-OffersFirst :
    (cache : DiskOptionsCache) (c : HarvesterConfig) {os : List WidgetOption}
    → c.install.device ≢ ""
    → get_data_disk_options cache c ≡ some os
    → ((os ≡ []) × Lacks c.install.device cache.disk_options)
      ⊎ OffersFirst c.install.device cache.disk_options os
unfolding get_data_disk_options
get_data_disk_options-OffersFirst cache c {os} ne h =
    or_nil-OffersFirst c.install.device cache.disk_options os _ refl
      (ground (arith, eq_iff c.install.device ""))

first_as_default_iff : (os : List WidgetOption) → first_as_default os ≡ none ↔ (os ≡ [])
unfolding first_as_default
first_as_default_iff [] = (λ _. refl, λ _. refl)
first_as_default_iff (o ∷ os) = (λ h. cc, λ h. cc)

-- Where none is chosen yet and lsblk found no disk, the read of the first option is out of range.
pub get_data_disk_options-eq-none :
    (cache : DiskOptionsCache) (c : HarvesterConfig)
    → get_data_disk_options cache c ≡ none ↔ (c.install.device ≡ "") × (cache.disk_options ≡ [])
unfolding get_data_disk_options
get_data_disk_options-eq-none cache c = elim (Bool-cases (c.install.device == "")) [
  | inl e ↦
      let chosen = (eq_iff c.install.device "").0 e in
      let (to, back) = first_as_default_iff cache.disk_options in
      (λ h. (chosen, to (rw e at h)), λ h. rw e (back h.1))
  | inr e ↦ (λ h. cc (rw e at h), λ h. absurd (ground (arith, eq_iff c.install.device "")))
]
