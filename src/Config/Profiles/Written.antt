-- ===== src/Config/Profiles/Written.antt =====
-- pkg/config/cos.go: the profiles that `UpdateManagementInterfaceConfig` leaves.
use harvester_installer.Prelude.{
  Bool, Bool-cases, List, Option, Result, String, [], arith, eq_iff, err, false, if◌then◌else◌, inl,
  inr, is_above, is_below, is_empty, leb, negsuc, not, ok, pos, refl, some, true, ℤ, ◌&&◌, ◌==◌,
  ◌∷◌, ◌≡◌, ◌≢◌, ◌⊎◌,
}
use harvester_installer.Config.Types.{Network, NetworkInterface}
use harvester_installer.Config.Profiles.{
  Env, TemplateData, bond_data, bond_of, bond_path, bridge_of, bridge_path, check_mgmt,
  need_vlan_interface, slave_data, slave_path, update_bond, update_bridge, vlan_of, vlan_path,
  with_bond_options, write_slaves, write_vlan,
}
use harvester_installer.Config.Profiles.Effects.{
  Io, Machine, lookup, of_result, pure, write_file, ◌>>=◌, ◌>>◌,
}
use harvester_installer.Config.Profiles.Files.{
  HasFiles, HasFiles-chain, HasFiles-refl, write_file-HasFiles,
}
use harvester_installer.Config.Profiles.Returns.{
  Faulty, Returns, bind-Returns, map-Returns, weaken-Returns,
}

is_empty-nil : {A : Type 0} (xs : List A) → is_empty xs ≡ true → xs ≡ []
is_empty-nil [] h = refl
is_empty-nil (x ∷ xs) h = cc

module _ (env : Env) where
  -- No interface is given, or the method is none of the three.
  abbrev pub IsRefused : Network → Type 0
  IsRefused n =
      (n.interfaces ≡ []) ⊎ ((n.method ≢ "dhcp") × (n.method ≢ "static") × (n.method ≢ "none"))

  -- The machine fails, or a template does, or the network is refused.
  pub data Excuse (n : Network) : Type 0 where
    faulty : Faulty env.faults → Excuse n
    unrendered : (d : TemplateData) (e : String) → env.render d ≡ err e → Excuse n
    refused : IsRefused n → Excuse n

  pub check_mgmt-IsRefused : (n : Network) (e : String) → check_mgmt env n ≡ err e → IsRefused n
  unfolding check_mgmt
  check_mgmt-IsRefused n e h = elim (Bool-cases (is_empty n.interfaces)) [
    | inl none_given ↦ inl (is_empty-nil n.interfaces none_given)
    | inr some_given ↦ inr (
      ground (arith, eq_iff n.method "dhcp", eq_iff n.method "static", eq_iff n.method "none"),
      ground (arith, eq_iff n.method "dhcp", eq_iff n.method "static", eq_iff n.method "none"),
      ground (arith, eq_iff n.method "dhcp", eq_iff n.method "static", eq_iff n.method "none"),
    )
  ]

  -- A VLAN of its own: from 2 to 4094.
  abbrev pub has_vlan : ℤ → Bool
  has_vlan (pos v) = leb 2 v && leb v 4094
  has_vlan (negsuc v) = false

  need_vlan_interface-has_vlan :
      (v : ℤ) → (not (is_below v 2) && not (is_above v 4094)) ≡ has_vlan v
  need_vlan_interface-has_vlan (pos v) = ground arith
  need_vlan_interface-has_vlan (negsuc v) = refl

  pub need_vlan_interface_lem : (n : Network) → need_vlan_interface n ≡ has_vlan n.vlan_id
  unfolding need_vlan_interface
  need_vlan_interface_lem n = need_vlan_interface-has_vlan n.vlan_id

  abbrev pub text_of : Result String String → String
  text_of (ok t) = t
  text_of (err e) = ""

  -- The file of a template's rendering, over the other files.
  abbrev pub rendered : String → TemplateData → (String → Option String) → String → Option String
  rendered path d base q = if path == q then some (text_of (env.render d)) else base q

  abbrev pub slaves_over :
      String → List NetworkInterface → (String → Option String) → String → Option String
  slaves_over config_path [] base = base
  slaves_over config_path (i ∷ is) base =
      slaves_over config_path is (rendered (slave_path config_path i) (slave_data i) base)

  abbrev pub vlan_over :
      Bool → String → Network → List String → (String → Option String) → String → Option String
  vlan_over false config_path n dns_servers base = base
  vlan_over true config_path n dns_servers base =
      rendered (vlan_path config_path) (vlan_of env n dns_servers) base

  -- All profiles of a network, from `base`.
  abbrev pub profiles_of :
      String → Network → List String → (String → Option String) → String → Option String
  profiles_of config_path n dns_servers base =
      vlan_over (has_vlan n.vlan_id) config_path n dns_servers (
        rendered (bridge_path config_path) (bridge_of env n dns_servers) (
          slaves_over config_path n.interfaces
            (rendered (bond_path config_path) (bond_data (with_bond_options (bond_of n))) base)))

  of_result-Returns :
      (n : Network) (d : TemplateData) (s : Machine)
      → Returns
          (Excuse n)
          (λ text t. (t ≡ s) × (text ≡ text_of (env.render d)))
          (of_result (env.render d) s)
  unfolding of_result
  of_result-Returns n d s = go (env.render d) refl
    where
      go :
          (r : Result String String)
          → env.render d ≡ r
          → Returns (Excuse n) (λ text t. (t ≡ s) × (text ≡ text_of r)) (r, s)
      go (ok text) e = (refl, refl)
      go (err x) e = unrendered d x e

  write_text :
      (n : Network) (path : String) (d : TemplateData) (s : Machine) (text : String) (t : Machine)
      → (t ≡ s) × (text ≡ text_of (env.render d))
      → Returns
          (Excuse n)
          (λ _. HasFiles s (rendered path d (λ q. lookup q s.files)))
          (write_file env.faults path text t)
  write_text n path d s text t h =
      rw (h.0, h.1)
        (weaken-Returns (Faulty env.faults) (Excuse n)
          (λ _. HasFiles s (rendered path d (λ q. lookup q s.files)))
          (write_file env.faults path (text_of (env.render d)) s) faulty
          (write_file-HasFiles env.faults path (text_of (env.render d)) s))

  -- A template is rendered and written, and then the rest is done.
  write_then :
      (n : Network) (path : String) (d : TemplateData) (rest : Io (Unit {0})) (s : Machine)
      (P : Unit {0} → Machine → Type 0)
      → ((t : Machine)
          → HasFiles s (rendered path d (λ q. lookup q s.files)) t
          → Returns (Excuse n) P (rest t))
      → Returns
          (Excuse n)
          P
          ((of_result (env.render d) >>= λ nmcon. write_file env.faults path nmcon >> rest) s)
  write_then n path d rest s P next =
      bind-Returns (Excuse n) _ P (of_result (env.render d))
        (λ nmcon. write_file env.faults path nmcon >> rest) s (of_result-Returns n d s)
        (λ text t h.
          bind-Returns (Excuse n) (λ _. HasFiles s (rendered path d (λ q. lookup q s.files))) P
            (write_file env.faults path text) (λ _. rest) t (write_text n path d s text t h)
            (λ _. next))

  write_slaves-HasFiles :
      (n : Network) (config_path : String) (is : List NetworkInterface) (s : Machine)
      → Returns
          (Excuse n)
          (λ _. HasFiles s (slaves_over config_path is (λ q. lookup q s.files)))
          (write_slaves env config_path is s)
  unfolding write_slaves pure
  write_slaves-HasFiles n config_path [] s = HasFiles-refl s
  write_slaves-HasFiles n config_path (i ∷ is) s =
      write_then n (slave_path config_path i) (slave_data i) (write_slaves env config_path is) s _
        (λ t h.
          map-Returns (Excuse n) _ _ (write_slaves env config_path is t)
            (write_slaves-HasFiles n config_path is t)
            (λ _ u k. HasFiles-chain s t u _ (slaves_over config_path is) h k))

  write_vlan-HasFiles :
      (needed : Bool) (n : Network) (dns_servers : List String) (config_path : String) (s : Machine)
      → Returns
          (Excuse n)
          (λ _. HasFiles s (vlan_over needed config_path n dns_servers (λ q. lookup q s.files)))
          (write_vlan env needed n dns_servers config_path s)
  unfolding write_vlan pure
  write_vlan-HasFiles false n dns_servers config_path s = HasFiles-refl s
  write_vlan-HasFiles true n dns_servers config_path s =
      let d = vlan_of env n dns_servers in
      bind-Returns (Excuse n) _ _ (of_result (env.render d))
        (write_file env.faults (vlan_path config_path)) s (of_result-Returns n d s)
        (λ text t h. write_text n (vlan_path config_path) d s text t h)

  pub update_bridge-HasFiles :
      (n : Network) (dns_servers : List String) (config_path : String) (s : Machine)
      → Returns
          (Excuse n)
          (λ _. HasFiles s (
            vlan_over (has_vlan n.vlan_id) config_path n dns_servers (
              rendered
                (bridge_path config_path)
                (bridge_of env n dns_servers)
                (λ q. lookup q s.files))))
          (update_bridge env n dns_servers config_path s)
  unfolding update_bridge
  update_bridge-HasFiles n dns_servers config_path s =
      let needed : Bool = has_vlan n.vlan_id in
      rw (need_vlan_interface_lem n) (
        write_then n (bridge_path config_path) (bridge_of env n dns_servers)
          (write_vlan env needed n dns_servers config_path) s _
          (λ t h.
            map-Returns (Excuse n) _ _ (write_vlan env needed n dns_servers config_path t)
              (write_vlan-HasFiles needed n dns_servers config_path t)
              (λ _ u k. HasFiles-chain s t u _ (vlan_over needed config_path n dns_servers) h k)))

  pub update_bond-HasFiles :
      (n b : Network) (config_path : String) (s : Machine)
      → Returns
          (Excuse n)
          (λ _. HasFiles s (
            slaves_over config_path b.interfaces (
              rendered
                (bond_path config_path)
                (bond_data (with_bond_options b))
                (λ q. lookup q s.files))))
          (update_bond env b config_path s)
  unfolding update_bond
  update_bond-HasFiles n b config_path s =
      write_then n (bond_path config_path) (bond_data (with_bond_options b))
        (write_slaves env config_path b.interfaces) s _
        (λ t h.
          map-Returns (Excuse n) _ _ (write_slaves env config_path b.interfaces t)
            (write_slaves-HasFiles n config_path b.interfaces t)
            (λ _ u k. HasFiles-chain s t u _ (slaves_over config_path b.interfaces) h k))
