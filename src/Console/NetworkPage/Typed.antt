-- ===== src/Console/NetworkPage/Typed.antt =====
-- pkg/console/install_panels.go: what the static inputs of the management network have accepted.
use harvester_installer.Prelude.{
  Bool, List, Option, String, err, false, if◌then◌else◌, none, ok, pos, refl, some, succeeds, true,
  ℤ, ◌==◌, ◌≡◌,
}
use harvester_installer.Config.Types.{Network}
use harvester_installer.Console.Validator.Machine.{check_ip}
use harvester_installer.Console.Validator.Fields.{Check, check_mtu}
use harvester_installer.Console.NetworkPage.{
  NetworkPage, PageTools, accept, parse_mask, refuse, set_address, set_ip, set_mask, set_mgmt,
  set_mtu, validate_addr_mask, validate_address, validate_gateway, validate_mtu,
}
use harvester_installer.Console.NetworkPage.Known.{Gives}

module _ (t : PageTools) where
  pub validate_address-Gives :
      (P : Network → Type 0) (p : NetworkPage)
      → ((ip mask : String)
          → (s : String) → t.parse_cidr s ≡ some (ip, mask)
          → P (let n = p.mgmt_network in record n { ip = ip; subnet_mask = mask }))
      → ((ip : String)
          → (s : String) → t.parse_ip s ≡ some ip
          → P (let n = p.mgmt_network in record n { ip = ip }))
      → Gives t P p (validate_address t p)
  unfolding validate_address
  validate_address-Gives P p h k = go (p.address_text == "") (t.parse_cidr p.address_text) refl
    where
      q : NetworkPage
      q = record p { address = p.address_text }

      plain : (b : Option String) → t.parse_ip p.address_text ≡ b → Gives t P p (set_ip t q b)
      plain none y = (refl, refl, refl, refl)
      plain (some ip) y = (refl, refl, refl, k ip p.address_text y)

      go :
          (blank : Bool) (a : Option (String × String))
          → t.parse_cidr p.address_text ≡ a
          → Gives t P p (
              if blank
              then refuse t "must specify address in static method" p
              else set_address t q a)
      go true a x = (refl, refl, refl, refl)
      go false none x = plain (t.parse_ip p.address_text) refl
      go false (some (ip, mask)) x = (refl, refl, refl, h ip mask p.address_text x)

  pub validate_addr_mask-Gives :
      (P : Network → Type 0) (p : NetworkPage)
      → ((s : String) (mask : List ℤ)
          → parse_mask t s ≡ some mask
          → P (let n = p.mgmt_network in record n { subnet_mask = t.dotted mask }))
      → Gives t P p (validate_addr_mask t p)
  unfolding validate_addr_mask
  validate_addr_mask-Gives P p h = go (p.mask_text == "") (parse_mask t p.mask_text) refl
    where
      go :
          (blank : Bool) (a : Option (List ℤ))
          → parse_mask t p.mask_text ≡ a
          → Gives t P p
              (if blank then refuse t "must specify mask in static method" p else set_mask t p a)
      go true a x = (refl, refl, refl, refl)
      go false none x = (refl, refl, refl, refl)
      go false (some mask) x = (refl, refl, refl, h p.mask_text mask x)

  pub validate_gateway-Gives :
      (P : Network → Type 0) (p : NetworkPage)
      → ((s : String)
          → check_ip t.host s ≡ ok tt
          → P (let n = p.mgmt_network in record n { gateway = s }))
      → Gives t P p (validate_gateway t p)
  unfolding validate_gateway
  validate_gateway-Gives P p h = go (p.gateway_text == "") (check_ip t.host p.gateway_text) refl
    where
      go :
          (blank : Bool) (r : Check)
          → check_ip t.host p.gateway_text ≡ r
          → Gives t P p (
              if blank
              then refuse t "must specify gateway in static method" p
              else if succeeds r
              then (let n = p.mgmt_network in
                  accept t (set_mgmt (record n { gateway = p.gateway_text }) p))
              else refuse t "not a valid IP address" p)
      go true r x = (refl, refl, refl, refl)
      go false (err e) x = (refl, refl, refl, refl)
      go false (ok _) x = (refl, refl, refl, h p.gateway_text x)

  pub validate_mtu-Gives :
      (P : Network → Type 0) (p : NetworkPage)
      → ((mtu : ℤ) → check_mtu mtu ≡ ok tt → P (let n = p.mgmt_network in record n { mtu = mtu }))
      → Gives t P p (validate_mtu t p)
  unfolding validate_mtu
  validate_mtu-Gives P p h = go (if p.mtu_text == "" then some (pos 0) else t.atoi p.mtu_text)
    where
      checked :
          (mtu : ℤ) (r : Check)
          → check_mtu mtu ≡ r
          → Gives t P p (
              if succeeds r
              then (let n = p.mgmt_network in accept t (set_mgmt (record n { mtu = mtu }) p))
              else refuse t "invalid MTU" p)
      checked mtu (ok _) x = (refl, refl, refl, h mtu x)
      checked mtu (err e) x = (refl, refl, refl, refl)

      go : (a : Option ℤ) → Gives t P p (set_mtu t p a)
      go none = (refl, refl, refl, refl)
      go (some mtu) = checked mtu (check_mtu mtu) refl
