-- ===== src/Console/VipPage/Verified.antt =====
-- pkg/console/install_panels.go: what holds of the virtual IP on its page.
use harvester_installer.Prelude.{
  Bool, String, ap, arith, concat_text, eq_iff, false, if◌then◌else◌, inl, inr, not, refl, some,
  sym, true, ◌&&◌, ◌==◌, ◌∙◌, ◌≡◌, ◌≢◌, ◌⊎◌,
}
use harvester_installer.Config.Types.{
  HarvesterConfig, Install, network_method_dhcp, network_method_static,
}
use harvester_installer.Console.VipPage.{
  VipPage, VipPanel, VipRoute, ask_vip_method_panel, goto_next_page_from_vip, goto_verify_ip,
  set_vip_install, stays, to_dns_servers_page, to_token_page, vip_hw_addr_panel, vip_panel,
}

abbrev pub with_vip : String → String → String → HarvesterConfig → HarvesterConfig
with_vip v m h c =
    let i = c.install in record c { install = record i { vip = v; vip_mode = m; vip_hw_addr = h } }

module _ (is_ip : String → Bool) (Offers : String → String → Type 0) (p0 : VipPage) where
  abbrev i0 : Install
  i0 = p0.config.install

  -- A DHCP server gave the address, or the page was shown with it.
  abbrev pub IsOffered : Install → Type 0
  IsOffered i =
      Offers i.vip_hw_addr i.vip
      ⊎ ((i0.vip_mode ≡ "dhcp") × (i.vip ≡ i0.vip) × (i.vip_hw_addr ≡ i0.vip_hw_addr))

  abbrev pub IsStaticVip : Install → Type 0
  IsStaticVip i =
      (i.vip_mode ≢ "dhcp")
      × (i.vip_mode ≢ "")
      × (is_ip i.vip ≡ true)
      × ((i.vip ≡ "") ⊎ (i.vip ≢ p0.mgmt_ip))
      × (i.vip_hw_addr ≡ "")

  abbrev pub IsVipOf : Install → Type 0
  IsVipOf i = ((i.vip_mode ≡ "dhcp") × IsOffered i) ⊎ IsStaticVip i

  -- The configuration differs in the virtual IP alone, and stays on DHCP where it was.
  pub record Kept (c : HarvesterConfig) (mgmt_ip : String) : Type 0 where
    pub offered : c.install.vip_mode ≡ "dhcp" → IsOffered c.install
    pub sticky : i0.vip_mode ≡ "dhcp" → c.install.vip_mode ≡ "dhcp"
    pub same_ip : mgmt_ip ≡ p0.mgmt_ip
    pub rest : (v m h : String) × (c ≡ with_vip v m h p0.config)

  abbrev pub HwDhcp : VipPage → Type 0
  HwDhcp p = p.focus ≡ vip_hw_addr_panel → p.method ≡ "dhcp"

  abbrev pub Known : VipRoute → VipPage → Type 0
  Known stays p = Kept p.config p.mgmt_ip × HwDhcp p
  Known to_dns_servers_page p = Kept p.config p.mgmt_ip
  Known to_token_page p = Kept p.config p.mgmt_ip × IsVipOf p.config.install

  pub stays-Known :
      (r : VipRoute) (p : VipPage) → r ≡ stays → Kept p.config p.mgmt_ip → HwDhcp p → Known r p
  stays-Known stays p s k h = (k, h)
  stays-Known to_dns_servers_page p s k h = cc
  stays-Known to_token_page p s k h = cc

  not_hw :
      (n : VipPanel) (p : VipPage)
      → n ≡ ask_vip_method_panel ⊎ (n ≡ vip_panel)
      → n ≡ vip_hw_addr_panel
      → p.method ≡ "dhcp"
  not_hw n p (inl a) b = cc
  not_hw n p (inr a) b = cc

  -- DHCP is the mode of a request or of a page that was shown so.
  pub dhcp-Kept :
      (c : HarvesterConfig) (ip : String) (hw_addr vip : String)
      → Kept c ip
      → Offers hw_addr vip
      → Kept (with_vip vip "dhcp" hw_addr c) ip
  dhcp-Kept c ip hw_addr vip k o =
      let (v, m, h, e) = k.rest in
      record {
        offered = λ _. inl o;
        sticky = λ _. refl;
        same_ip = k.same_ip;
        rest = (vip, "dhcp", hw_addr, ap (with_vip vip "dhcp" hw_addr) e);
      }

  static-Kept :
      (c : HarvesterConfig) (ip : String) (vip mode : String)
      → Kept c ip
      → c.install.vip_mode ≢ "dhcp"
      → mode ≢ "dhcp"
      → Kept (with_vip vip mode "" c) ip
  static-Kept c ip vip mode k other ne =
      let (v, m, h, e) = k.rest in
      record {
        offered = λ d. absurd (ne d);
        sticky = λ d. absurd (other (k.sticky d));
        same_ip = k.same_ip;
        rest = (vip, mode, "", ap (with_vip vip mode "") e);
      }

  default_mode :
      (mode : String)
      → mode ≢ "dhcp"
      → (let m = if mode == "" then "static" else mode in (m ≢ "dhcp") × (m ≢ ""))
  default_mode mode ne = go _ refl
    where
      no : network_method_static ≢ network_method_dhcp
      no q = let bad : false ≡ true = (eq_iff "static" "dhcp").1 q in cc

      none_empty : network_method_static ≢ ""
      none_empty q = let bad : false ≡ true = (eq_iff "static" "").1 q in cc

      go :
          (b : Bool)
          → mode == "" ≡ b
          → (let m = if b then "static" else mode in (m ≢ "dhcp") × (m ≢ ""))
      go true e = (no, none_empty)
      go false e = (ne, λ q. ground (arith, eq_iff mode ""))

  pub goto_verify_ip-Known :
      (p : VipPage)
      → p.route ≡ stays
      → Kept p.config p.mgmt_ip
      → HwDhcp p
      → Known (goto_verify_ip is_ip p).route (goto_verify_ip is_ip p)
  unfolding goto_verify_ip goto_next_page_from_vip
  goto_verify_ip-Known p s k h = dhcp _ refl
    where
      i : Install
      i = p.config.install

      vip : String
      vip = p.vip_text

      static_page : VipPage
      static_page = goto_next_page_from_vip (
          set_vip_install
            (record i {
              vip = vip;
              vip_hw_addr = "";
              vip_mode = if i.vip_mode == "" then "static" else i.vip_mode;
            })
            p)

      left :
          (b : Bool)
          → i.vip_mode ≢ "dhcp"
          → is_ip vip ≡ true
          → not (vip == "") && vip == p.mgmt_ip ≡ b
          → (let q =
                if b
                then record p { text = some "VIP must not be the same as management NIC's IP" }
                else static_page in
              Known q.route q)
      left true other ip e = stays-Known p.route _ s k h
      left false other ip e =
          let (ne, not_blank) = default_mode i.vip_mode other in
          (
            static-Kept p.config p.mgmt_ip vip _ k other ne,
            inr (ne, not_blank, ip, apart (vip == "") (vip == p.mgmt_ip) refl refl e, refl),
          )
        where
          apart :
              (a b : Bool)
              → vip == "" ≡ a
              → vip == p.mgmt_ip ≡ b
              → not a && b ≡ false
              → (vip ≡ "") ⊎ (vip ≢ p0.mgmt_ip)
          apart true b x y z = inl ((eq_iff vip "").0 x)
          apart false true x y z = cc
          apart false false x y z = inr (λ q.
              let bad : vip == p.mgmt_ip ≡ true = (eq_iff vip p.mgmt_ip).1 (q ∙ sym k.same_ip) in
              cc)

      parsed :
          (b : Bool)
          → i.vip_mode ≢ "dhcp"
          → is_ip vip ≡ b
          → (let q =
                if not b
                then record p { text = some (concat_text "Invalid VIP: " vip) }
                else if not (vip == "") && vip == p.mgmt_ip
                then record p { text = some "VIP must not be the same as management NIC's IP" }
                else static_page in
              Known q.route q)
      parsed true other e = left _ other e refl
      parsed false other e = stays-Known p.route _ s k h

      same :
          (b : Bool)
          → i.vip_mode ≡ "dhcp"
          → (let q =
                if b
                then goto_next_page_from_vip p
                else record p { text = some "Forbid to modify the VIP obtained through DHCP" } in
              Known q.route q)
      same true d = (k, inl (d, k.offered d))
      same false d = stays-Known p.route _ s k h

      dhcp :
          (b : Bool)
          → i.vip_mode == "dhcp" ≡ b
          → (let q =
                if b
                then (if vip == i.vip
                    then goto_next_page_from_vip p
                    else record p { text = some "Forbid to modify the VIP obtained through DHCP" })
                else if not (is_ip vip)
                then record p { text = some (concat_text "Invalid VIP: " vip) }
                else if not (vip == "") && vip == p.mgmt_ip
                then record p { text = some "VIP must not be the same as management NIC's IP" }
                else static_page in
              Known q.route q)
      dhcp true e = same _ ((eq_iff i.vip_mode "dhcp").0 e)
      dhcp false e = parsed _ (λ d. ground (arith, eq_iff i.vip_mode "dhcp")) refl
