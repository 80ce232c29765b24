-- ===== src/Console/VipPage/Leaves.antt =====
-- pkg/console/install_panels.go: what holds of the virtual IP when its page is left.
use mathlib.Core.Path.{subst}
use harvester_installer.Prelude.{
  Bool, Result, String, Yields, eq_iff, err, false, if◌then◌else◌, inr, none, ok, refl, true, ◌-◌,
  ◌==◌, ◌≡◌,
}
use harvester_installer.Console.DiskPage.Keys.{
  Key, key_arrow_down, key_arrow_up, key_enter, key_esc,
}
use harvester_installer.Console.VipPage.{
  VipPage, VipPanel, VipRoute, VipRun, answer, answered, ask_vip_method_panel,
  confirm_ask_vip_method, failed, goto_prev_page_from_vip, goto_vip_panel, goto_vip_parent_panel,
  press_vip, pressed, set_vip_install, show_vip_page, show_vip_panel, shown, stays,
  to_dns_servers_page, to_token_page, type_vip, typed, vip_hw_addr_panel, vip_panel,
}
use harvester_installer.Console.VipPage.Verified.{
  HwDhcp, IsOffered, IsVipOf, Kept, Known, dhcp-Kept, goto_verify_ip-Known, stays-Known,
}

module _ (is_ip : String → Bool) (Offers : String → String → Type 0) (p0 : VipPage) where
  goto_vip_panel-Known :
      (p : VipPage)
      → p.route ≡ stays
      → p.method ≡ "dhcp"
      → Kept is_ip Offers p0 p.config p.mgmt_ip
      → Known is_ip Offers p0 (goto_vip_panel p).route (goto_vip_panel p)
  unfolding goto_vip_panel show_vip_panel
  goto_vip_panel-Known p s d k =
      rw ((eq_iff p.method "dhcp").1 d) (stays-Known is_ip Offers p0 p.route _ s k (λ f. cc))

  confirm_ask_vip_method-Known :
      (p : VipPage)
      → p.route ≡ stays
      → Kept is_ip Offers p0 p.config p.mgmt_ip
      → Known is_ip Offers p0 (confirm_ask_vip_method p).route (confirm_ask_vip_method p)
  unfolding confirm_ask_vip_method show_vip_panel
  confirm_ask_vip_method-Known p s k = go _ refl
    where
      go :
          (b : Bool)
          → p.method == "dhcp" ≡ b
          → (let q =
                if b
                then show_vip_panel vip_hw_addr_panel (show_vip_panel vip_panel p)
                else show_vip_panel vip_panel (record p { hw_addr_shown = false }) in
              Known is_ip Offers p0 q.route q)
      go true e = stays-Known is_ip Offers p0 p.route _ s k (λ f. (eq_iff p.method "dhcp").0 e)
      go false e = stays-Known is_ip Offers p0 p.route _ s k (λ f. cc)

  goto_vip_parent_panel-Known :
      (p : VipPage)
      → p.route ≡ stays
      → Kept is_ip Offers p0 p.config p.mgmt_ip
      → Known is_ip Offers p0 (goto_vip_parent_panel p).route (goto_vip_parent_panel p)
  unfolding goto_vip_parent_panel show_vip_panel
  goto_vip_parent_panel-Known p s k = go _ refl
    where
      go :
          (b : Bool)
          → p.method == "dhcp" ≡ b
          → (let q =
                if b
                then record (show_vip_panel vip_hw_addr_panel p) {
                  hw_addr_text = p.config.install.vip_hw_addr;
                }
                else show_vip_panel ask_vip_method_panel p in
              Known is_ip Offers p0 q.route q)
      go true e = stays-Known is_ip Offers p0 p.route _ s k (λ f. (eq_iff p.method "dhcp").0 e)
      go false e = stays-Known is_ip Offers p0 p.route _ s k (λ f. cc)

  press_vip-Known :
      (name : VipPanel) (key : Key) (p : VipPage)
      → p.focus ≡ name
      → p.route ≡ stays
      → Kept is_ip Offers p0 p.config p.mgmt_ip
      → HwDhcp is_ip Offers p0 p
      → (let q = press_vip is_ip name key p in Known is_ip Offers p0 q.route q)
  unfolding press_vip goto_prev_page_from_vip show_vip_panel
  press_vip-Known ask_vip_method_panel key_esc p f s k h = k
  press_vip-Known vip_hw_addr_panel key_esc p f s k h = k
  press_vip-Known vip_panel key_esc p f s k h = k
  press_vip-Known ask_vip_method_panel key_arrow_up p f s k h =
      stays-Known is_ip Offers p0 p.route p s k h
  press_vip-Known ask_vip_method_panel key_enter p f s k h = confirm_ask_vip_method-Known p s k
  press_vip-Known ask_vip_method_panel key_arrow_down p f s k h = confirm_ask_vip_method-Known p s k
  press_vip-Known vip_hw_addr_panel key_arrow_up p f s k h =
      stays-Known is_ip Offers p0 p.route _ s k (λ g. cc)
  press_vip-Known vip_hw_addr_panel key_enter p f s k h = goto_vip_panel-Known p s (h f) k
  press_vip-Known vip_hw_addr_panel key_arrow_down p f s k h = goto_vip_panel-Known p s (h f) k
  press_vip-Known vip_panel key_arrow_up p f s k h = goto_vip_parent_panel-Known p s k
  press_vip-Known vip_panel key_enter p f s k h = goto_verify_ip-Known is_ip Offers p0 p s k h
  press_vip-Known vip_panel key_arrow_down p f s k h = goto_verify_ip-Known is_ip Offers p0 p s k h

  type_vip-Known :
      (name : VipPanel) (text : String) (p : VipPage)
      → p.focus ≡ name
      → p.route ≡ stays
      → Kept is_ip Offers p0 p.config p.mgmt_ip
      → HwDhcp is_ip Offers p0 p
      → (let q = type_vip name text p in Known is_ip Offers p0 q.route q)
  unfolding type_vip
  type_vip-Known ask_vip_method_panel text p f s k h =
      stays-Known is_ip Offers p0 p.route _ s k (λ g. cc)
  type_vip-Known vip_hw_addr_panel text p f s k h = stays-Known is_ip Offers p0 p.route _ s k h
  type_vip-Known vip_panel text p f s k h = stays-Known is_ip Offers p0 p.route _ s k h

  stays-is :
      (p : VipPage)
      → p.route ≡ stays
      → Known is_ip Offers p0 p.route p
      → Kept is_ip Offers p0 p.config p.mgmt_ip × HwDhcp is_ip Offers p0 p
  stays-is p s k = go p.route s k
    where
      go :
          (r : VipRoute)
          → r ≡ stays
          → Known is_ip Offers p0 r p
          → Kept is_ip Offers p0 p.config p.mgmt_ip × HwDhcp is_ip Offers p0 p
      go stays s k = k
      go to_dns_servers_page s k = cc
      go to_token_page s k = cc

  abbrev KnownAll : Result String VipPage → Type 0
  KnownAll r = Yields Unit (λ q. Known is_ip Offers p0 q.route q) r

  answer-Known :
      (r : Result String (String × String)) (p : VipPage)
      → p.route ≡ stays
      → Kept is_ip Offers p0 p.config p.mgmt_ip
      → HwDhcp is_ip Offers p0 p
      → Yields Unit (λ o. Offers o.0 o.1) r
      → KnownAll (answer r p)
  unfolding answer show_vip_panel
  answer-Known (err e) p s k h o = stays-Known is_ip Offers p0 p.route _ s k (λ g. cc)
  answer-Known (ok (hw_addr, ip)) p s k h o = go p.hw_addr_shown
    where
      go :
          (b : Bool)
          → KnownAll (
              let i = p.config.install in
              let q =
                set_vip_install
                  (record i { vip = ip; vip_mode = "dhcp"; vip_hw_addr = hw_addr })
                  p in
              if b
              then ok (record q {
                requests = p.requests - 1;
                hw_addr_text = hw_addr;
                vip_text = ip;
                text = none;
              })
              else err "unknown view")
      go true =
          stays-Known is_ip Offers p0 p.route _ s
            (dhcp-Kept is_ip Offers p0 p.config p.mgmt_ip hw_addr ip k o) h
      go false = tt

  VipRun-Known : {p : VipPage} → VipRun is_ip Offers p0 p → Known is_ip Offers p0 p.route p
  unfolding show_vip_page show_vip_panel
  VipRun-Known shown = (
    record {
      offered = λ d. inr (d, refl, refl);
      sticky = λ d. d;
      same_ip = refl;
      rest = (_, _, _, refl);
    },
    λ g. cc,
  )
  VipRun-Known (typed {p = p} text s v) =
      let (k, h) = stays-is p s (VipRun-Known v) in type_vip-Known p.focus text p refl s k h
  VipRun-Known (pressed {p = p} key s v) =
      let (k, h) = stays-is p s (VipRun-Known v) in press_vip-Known p.focus key p refl s k h
  VipRun-Known (failed {p = p} e s n a v) =
      let (k, h) = stays-is p s (VipRun-Known v) in
      subst KnownAll a (answer-Known (err e) p s k h tt)
  VipRun-Known (answered {p = p} hw_addr ip s n o a v) =
      let (k, h) = stays-is p s (VipRun-Known v) in
      subst KnownAll a (answer-Known (ok (hw_addr, ip)) p s k h o)

  pub VipRun-Kept :
      {p : VipPage} → VipRun is_ip Offers p0 p → Kept is_ip Offers p0 p.config p.mgmt_ip
  VipRun-Kept {p} v = go p.route (VipRun-Known v)
    where
      go : (r : VipRoute) → Known is_ip Offers p0 r p → Kept is_ip Offers p0 p.config p.mgmt_ip
      go stays k = k.0
      go to_dns_servers_page k = k
      go to_token_page k = k.0

  -- Whatever is typed, pressed and answered on the page of the virtual IP, in any order: where it
  -- leads to the page of the token, the mode is DHCP, with an address that was offered or that the
  -- page was shown with, or it is another one, not blank, and the address is an IP address, not the
  -- one of the management network if it is not blank, and goes without a hardware address.
  pub VipRun-IsVipOf :
      {p : VipPage}
      → VipRun is_ip Offers p0 p
      → p.route ≡ to_token_page
      → IsVipOf is_ip Offers p0 p.config.install
  VipRun-IsVipOf {p} v led = go p.route led (VipRun-Known v)
    where
      go :
          (r : VipRoute)
          → r ≡ to_token_page
          → Known is_ip Offers p0 r p
          → IsVipOf is_ip Offers p0 p.config.install
      go stays led k = cc
      go to_dns_servers_page led k = cc
      go to_token_page led k = k.1

  -- Where the page is shown with the mode DHCP, nothing on it leads back to a static address: the
  -- mode stays DHCP, and the page is left for the token only with an address that was offered or
  -- that the page was shown with.
  pub VipRun-stays_dhcp :
      {p : VipPage}
      → VipRun is_ip Offers p0 p
      → p0.config.install.vip_mode ≡ "dhcp"
      → (p.config.install.vip_mode ≡ "dhcp") × IsOffered is_ip Offers p0 p.config.install
  VipRun-stays_dhcp v d = let k = VipRun-Kept v in let e = k.sticky d in (e, k.offered e)
