-- ===== src/Console/ClusterNetwork/Leaves.antt =====
-- pkg/console/install_panels.go: what holds of the cluster networks when their page is left.
use mathlib.Core.Path.{subst, subst⁻¹}
use harvester_installer.Prelude.{
  Bool, Option, Result, String, arith, discard, eq_iff, err, fail_if, false, if◌then◌else◌, inl,
  inr, not, ok, refl, some, true, ◌>>=◌, ◌≡◌, ◌⊎◌,
}
use harvester_installer.Config.Types.{HarvesterConfig}
use harvester_installer.Console.DiskPage.Keys.{
  Key, key_arrow_down, key_arrow_up, key_enter, key_esc,
}
use harvester_installer.Console.ClusterNetwork.{
  ClusterPage, ClusterPanel, ClusterRoute, NetTools, Visits, cluster_dns_panel,
  cluster_pod_cidr_panel, cluster_service_cidr_panel, confirmed, dns_confirm, pod_cidr_confirm,
  press_input, pressed, service_cidr_confirm, set_cluster, show_cluster_network_page, show_input,
  shown, stays, to_hostname_page, to_network_page, type_text, typed, validate_cidr, validate_dns_ip,
}

module _ {Prefix Addr : Type 0} (t : NetTools Prefix Addr) where
  -- Nothing but spaces, or a prefix with spaces around.
  abbrev pub IsCidr : String → Type 0
  IsCidr s = (t.trim_space s ≡ "") ⊎ ((n : Prefix) × (t.parse_prefix (t.trim_space s) ≡ ok n))

  -- Neither the address nor the prefix is given, or the address lies in the prefix.
  abbrev pub IsIn : String → String → Type 0
  IsIn service dns =
      ((t.trim_space dns ≡ "") × (service ≡ ""))
      ⊎ ((n : Prefix) × (a : Addr) × (t.parse_prefix service ≡ ok n)
          × (t.parse_addr (t.trim_space dns) ≡ ok a)
          × (t.contains n a ≡ true))

  -- What is known at an input.
  abbrev At : ClusterPanel → ClusterPage → Type 0
  At cluster_pod_cidr_panel p = Unit
  At cluster_service_cidr_panel p = IsCidr p.config.install.cluster_pod_cidr
  At cluster_dns_panel p =
      IsCidr p.config.install.cluster_pod_cidr
      × IsCidr p.config.install.cluster_service_cidr
      × (p.service_text ≡ p.config.install.cluster_service_cidr)

  pub record IsAccepted (c : HarvesterConfig) : Type 0 where
    pub pod : IsCidr c.install.cluster_pod_cidr
    pub service : IsCidr c.install.cluster_service_cidr
    pub dns : IsIn c.install.cluster_service_cidr c.install.cluster_dns

  -- Where the page has led.
  abbrev Known : ClusterRoute → ClusterPage → Type 0
  Known stays p = At p.focus p
  Known to_network_page p = Unit
  Known to_hostname_page p = IsAccepted p.config

  validate_cidr-IsCidr : (s : String) → validate_cidr t s ≡ ok tt → IsCidr s
  unfolding validate_cidr
  validate_cidr-IsCidr s p =
      go _ (t.parse_prefix (t.trim_space s)) (λ h. (eq_iff (t.trim_space s) "").0 h) refl p
    where
      go :
          (blank : Bool) (r : Result String Prefix)
          → (blank ≡ true → t.trim_space s ≡ "")
          → t.parse_prefix (t.trim_space s) ≡ r
          → (if blank then ok tt else discard r) ≡ ok tt
          → IsCidr s
      go true r b q p = inl (b refl)
      go false (ok n) b q p = inr (n, q)
      go false (err e) b q p = cc

  validate_dns_ip-IsIn :
      (service dns : String) → validate_dns_ip t service dns ≡ ok tt → IsIn service dns
  unfolding validate_dns_ip
  validate_dns_ip-IsIn service dns p =
      go _ (t.parse_addr ip) (t.parse_prefix service)
        (λ h. ground (arith, eq_iff ip "", eq_iff service "")) refl refl p
    where
      ip : String
      ip = t.trim_space dns

      go :
          (blank : Bool) (a : Result String Addr) (n : Result String Prefix)
          → (blank ≡ true → (ip ≡ "") × (service ≡ ""))
          → t.parse_addr ip ≡ a
          → t.parse_prefix service ≡ n
          → (if blank then ok tt else do
            ip_addr ← a
            svc_net ← n
            fail_if {E = String} (not (t.contains svc_net ip_addr)) "not in the service CIDR")
            ≡ ok tt
          → IsIn service dns
      go true a n b q r p = inl (b refl)
      go false (err e) n b q r p = cc
      go false (ok a) (err e) b q r p = cc
      go false (ok a) (ok n) b q r p = inr (n, a, r, q, inside (t.contains n a) p)
        where
          inside :
              (c : Bool) → fail_if {E = String} (not c) "not in the service CIDR" ≡ ok tt → c ≡ true
          inside true p = refl
          inside false p = cc

  stays-Known : (r : ClusterRoute) (q : ClusterPage) → r ≡ stays → At q.focus q → Known r q
  stays-Known stays q s h = h
  stays-Known to_network_page q s h = tt
  stays-Known to_hostname_page q s h = cc

  -- A refused text leaves the page where it is.
  At-fault :
      (at : ClusterPanel) (p : ClusterPage) (e : Option String)
      → At at p
      → At at (record p { fault = e })
  At-fault cluster_pod_cidr_panel p e h = h
  At-fault cluster_service_cidr_panel p e h = h
  At-fault cluster_dns_panel p e h = h

  confirmed-Known :
      (r : Result String (Unit {0})) (p q : ClusterPage)
      → p.route ≡ stays
      → At p.focus p
      → (r ≡ ok tt → Known q.route q)
      → Known (confirmed t r p q).route (confirmed t r p q)
  confirmed-Known (ok _) p q s h k = k refl
  confirmed-Known (err e) p q s h k =
      stays-Known p.route (record p { fault = some e }) s (At-fault p.focus p (some e) h)

  stays-At : (p : ClusterPage) → p.route ≡ stays → Known p.route p → At p.focus p
  stays-At p s k = go p.route s k
    where
      go : (r : ClusterRoute) → r ≡ stays → Known r p → At p.focus p
      go stays s k = k
      go to_network_page s k = cc
      go to_hostname_page s k = cc

  pod_cidr_confirm-Known :
      (p : ClusterPage)
      → p.route ≡ stays
      → At p.focus p
      → Known (pod_cidr_confirm t p).route (pod_cidr_confirm t p)
  unfolding pod_cidr_confirm show_input
  pod_cidr_confirm-Known p s h =
      confirmed-Known _ p next s h
        (λ q. stays-Known p.route next s (validate_cidr-IsCidr p.pod_text q))
    where
      next : ClusterPage
      next =
          let i = p.config.install in
          show_input cluster_service_cidr_panel
            (set_cluster (record i { cluster_pod_cidr = p.pod_text }) p)

  service_cidr_confirm-Known :
      (p : ClusterPage)
      → p.route ≡ stays
      → At p.focus p
      → IsCidr p.config.install.cluster_pod_cidr
      → Known (service_cidr_confirm t p).route (service_cidr_confirm t p)
  unfolding service_cidr_confirm show_input
  service_cidr_confirm-Known p s h pod =
      confirmed-Known _ p next s h
        (λ q. stays-Known p.route next s (pod, validate_cidr-IsCidr p.service_text q, refl))
    where
      next : ClusterPage
      next =
          let i = p.config.install in
          show_input cluster_dns_panel
            (set_cluster (record i { cluster_service_cidr = p.service_text }) p)

  dns_confirm-Known :
      (p : ClusterPage)
      → p.route ≡ stays
      → At p.focus p
      → At cluster_dns_panel p
      → Known (dns_confirm t p).route (dns_confirm t p)
  unfolding dns_confirm
  dns_confirm-Known p s h (pod, service, same) =
      confirmed-Known (validate_dns_ip t p.service_text p.dns_text) p next s h (λ q. record {
        pod = pod;
        service = service;
        dns =
            subst (λ text. IsIn text p.dns_text) same
              (validate_dns_ip-IsIn p.service_text p.dns_text q);
      })
    where
      next : ClusterPage
      next =
          let i = p.config.install in
          let q = set_cluster (record i { cluster_dns = p.dns_text }) p in
          record q { route = to_hostname_page }

  press_input-Known :
      (at : ClusterPanel) (key : Key) (p : ClusterPage)
      → p.route ≡ stays
      → At p.focus p
      → At at p
      → Known (press_input t at key p).route (press_input t at key p)
  unfolding press_input show_input
  press_input-Known cluster_pod_cidr_panel key_esc p s h k = tt
  press_input-Known cluster_service_cidr_panel key_esc p s h k = tt
  press_input-Known cluster_dns_panel key_esc p s h k = tt
  press_input-Known cluster_pod_cidr_panel key_arrow_up p s h k = tt
  press_input-Known cluster_pod_cidr_panel key_enter p s h k = pod_cidr_confirm-Known p s h
  press_input-Known cluster_pod_cidr_panel key_arrow_down p s h k = pod_cidr_confirm-Known p s h
  press_input-Known cluster_service_cidr_panel key_arrow_up p s h k = stays-Known p.route _ s tt
  press_input-Known cluster_service_cidr_panel key_enter p s h k =
      service_cidr_confirm-Known p s h k
  press_input-Known cluster_service_cidr_panel key_arrow_down p s h k =
      service_cidr_confirm-Known p s h k
  press_input-Known cluster_dns_panel key_arrow_up p s h k = stays-Known p.route _ s k.0
  press_input-Known cluster_dns_panel key_enter p s h k = dns_confirm-Known p s h k
  press_input-Known cluster_dns_panel key_arrow_down p s h k = dns_confirm-Known p s h k

  type_text-Known :
      (at : ClusterPanel) (text : String) (p : ClusterPage)
      → p.focus ≡ at
      → p.route ≡ stays
      → At at p
      → Known (type_text at text p).route (type_text at text p)
  unfolding type_text
  type_text-Known cluster_pod_cidr_panel text p f s k =
      stays-Known p.route _ s (subst⁻¹ (λ z. At z (record p { pod_text = text })) f tt)
  type_text-Known cluster_service_cidr_panel text p f s k =
      stays-Known p.route _ s (subst⁻¹ (λ z. At z (record p { service_text = text })) f k)
  type_text-Known cluster_dns_panel text p f s k =
      stays-Known p.route _ s (subst⁻¹ (λ z. At z (record p { dns_text = text })) f k)

  Visits-Known : {p0 p : ClusterPage} → Visits t p0 p → Known p.route p
  unfolding show_cluster_network_page show_input
  Visits-Known shown = tt
  Visits-Known (typed {p = p} text s v) =
      type_text-Known p.focus text p refl s (stays-At p s (Visits-Known v))
  Visits-Known (pressed {p = p} key s v) =
      let at : At p.focus p = stays-At p s (Visits-Known v) in
      press_input-Known p.focus key p s at at

  -- Whatever is typed and pressed on the page of the cluster networks since it was first shown, with
  -- any configuration: where it leads to the page of the hostname, the two CIDRs are blank or
  -- prefixes, and the address for DNS lies in the CIDR of the services, or both are blank.
  pub Visits-IsAccepted :
      (p0 p : ClusterPage) → Visits t p0 p → p.route ≡ to_hostname_page → IsAccepted p.config
  Visits-IsAccepted p0 p v led = go p.route led (Visits-Known v)
    where
      go : (r : ClusterRoute) → r ≡ to_hostname_page → Known r p → IsAccepted p.config
      go stays led k = cc
      go to_network_page led k = cc
      go to_hostname_page led k = k
