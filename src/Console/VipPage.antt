-- ===== src/Console/VipPage.antt =====
-- The page of the virtual IP in pkg/console/install_panels.go: the method, the hardware address for
-- DHCP and the address, each confirmed by itself. A DHCP request runs beside the keys, and its answer
-- is an event of the page. What gocui does to views that are there succeeds; titles, the spinner and
-- places are left out.
pub mod Verified
pub mod Leaves
use harvester_installer.Prelude.{
  Bool, Option, Result, String, concat_text, err, false, if◌then◌else◌, none, not, ok, some, suc,
  true, ℕ, ◌&&◌, ◌-◌, ◌<◌, ◌==◌, ◌≡◌,
}
use harvester_installer.Config.Types.{
  HarvesterConfig, Install, network_method_dhcp, network_method_static,
}
use harvester_installer.Console.DiskPage.Keys.{Key, key_arrow_up, key_esc}

pub data VipPanel : Type 0 where
  ask_vip_method_panel vip_hw_addr_panel vip_panel : VipPanel

pub data VipRoute : Type 0 where
  stays to_dns_servers_page to_token_page : VipRoute

-- The configuration, the IP of the management network, what the drop-down and the inputs hold,
-- whether the view for the hardware address is there, the requests not answered yet, the text below
-- the inputs, the input that has the focus, and where the last key has led.
pub record VipPage : Type 0 where
  pub config : HarvesterConfig
  pub mgmt_ip : String
  pub method : String
  pub hw_addr_text : String
  pub vip_text : String
  pub hw_addr_shown : Bool
  pub requests : ℕ
  pub text : Option String
  pub focus : VipPanel
  pub route : VipRoute

abbrev pub set_vip_install : Install → VipPage → VipPage
set_vip_install i p = let c = p.config in record p { config = record c { install = i } }

-- `Show`: an input starts with no text, a drop-down with its first option.
unfoldable pub show_vip_panel : VipPanel → VipPage → VipPage
show_vip_panel ask_vip_method_panel p = record p {
  method = if p.method == "" then network_method_dhcp else p.method;
  text = none;
  focus = ask_vip_method_panel;
}
show_vip_panel vip_hw_addr_panel p = record p {
  hw_addr_text = "";
  hw_addr_shown = true;
  focus = vip_hw_addr_panel;
}
show_vip_panel vip_panel p = record p { vip_text = ""; focus = vip_panel }

-- `showNext(c, vipTextPanel, askVipMethodPanel)`
unfoldable pub show_vip_page : VipPage → VipPage
unfolding show_vip_panel
show_vip_page p =
    show_vip_panel ask_vip_method_panel
      (record p { hw_addr_shown = false; requests = 0; route = stays })

unfoldable pub goto_prev_page_from_vip : VipPage → VipPage
goto_prev_page_from_vip p = record p {
  hw_addr_shown = false;
  text = none;
  route = to_dns_servers_page;
}

unfoldable pub goto_next_page_from_vip : VipPage → VipPage
goto_next_page_from_vip p = record p { hw_addr_shown = false; text = none; route = to_token_page }

-- The request is only begun.
unfoldable pub goto_vip_panel : VipPage → VipPage
unfolding show_vip_panel
goto_vip_panel p =
    if p.method == network_method_dhcp
    then show_vip_panel vip_panel (record p { requests = suc p.requests })
    else (let i = p.config.install in
        show_vip_panel vip_panel (
          set_vip_install (record i { vip_mode = network_method_static })
            (record p { text = none })))

unfoldable pub confirm_ask_vip_method : VipPage → VipPage
unfolding show_vip_panel
confirm_ask_vip_method p =
    if p.method == network_method_dhcp
    then show_vip_panel vip_hw_addr_panel (show_vip_panel vip_panel p)
    else show_vip_panel vip_panel (record p { hw_addr_shown = false })

unfoldable pub goto_vip_parent_panel : VipPage → VipPage
unfolding show_vip_panel
goto_vip_parent_panel p =
    if p.method == network_method_dhcp
    then record (show_vip_panel vip_hw_addr_panel p) { hw_addr_text = p.config.install.vip_hw_addr }
    else show_vip_panel ask_vip_method_panel p

-- The rest of the request: the hardware address and the IP that it got, or its error. Writing into a
-- view that is not there ends the console.
unfoldable pub answer : Result String (String × String) → VipPage → Result String VipPage
unfolding show_vip_panel
answer (err e) p =
    ok (show_vip_panel ask_vip_method_panel (record p { requests = p.requests - 1; text = some e }))
answer (ok (hw_addr, ip)) p =
    let i = p.config.install in
    let q =
      set_vip_install (record i { vip = ip; vip_mode = network_method_dhcp; vip_hw_addr = hw_addr })
        p in
    if p.hw_addr_shown
    then ok
        (record q { requests = p.requests - 1; hw_addr_text = hw_addr; vip_text = ip; text = none })
    else err "unknown view"

-- What is typed into the input that has the focus, or chosen in the drop-down.
unfoldable pub type_vip : VipPanel → String → VipPage → VipPage
type_vip ask_vip_method_panel s p = record p { method = s }
type_vip vip_hw_addr_panel s p = record p { hw_addr_text = s }
type_vip vip_panel s p = record p { vip_text = s }

-- `is_ip` tells whether `net.ParseIP` reads the text.
module _ (is_ip : String → Bool) where
  unfoldable pub goto_verify_ip : VipPage → VipPage
  unfolding goto_next_page_from_vip
  goto_verify_ip p =
      let vip = p.vip_text in
      let i = p.config.install in
      if i.vip_mode == network_method_dhcp
      then (if vip == i.vip
          then goto_next_page_from_vip p
          else record p { text = some "Forbid to modify the VIP obtained through DHCP" })
      else if not (is_ip vip)
      then record p { text = some (concat_text "Invalid VIP: " vip) }
      else if not (vip == "") && vip == p.mgmt_ip
      then record p { text = some "VIP must not be the same as management NIC's IP" }
      else goto_next_page_from_vip (
          set_vip_install
            (record i {
              vip = vip;
              vip_hw_addr = "";
              vip_mode = if i.vip_mode == "" then network_method_static else i.vip_mode;
            })
            p)

  -- A key, by the input that has the focus; the drop-down has none for the arrow up.
  unfoldable pub press_vip : VipPanel → Key → VipPage → VipPage
  unfolding show_vip_panel
  press_vip _ key_esc p = goto_prev_page_from_vip p
  press_vip ask_vip_method_panel key_arrow_up p = p
  press_vip ask_vip_method_panel _ p = confirm_ask_vip_method p
  press_vip vip_hw_addr_panel key_arrow_up p = show_vip_panel ask_vip_method_panel p
  press_vip vip_hw_addr_panel _ p = goto_vip_panel p
  press_vip vip_panel key_arrow_up p = goto_vip_parent_panel p
  press_vip vip_panel _ p = goto_verify_ip p

  -- The pages that the page has been since it was shown, whatever the order of keys and answers.
  -- `Offers` is what the DHCP server may have given to an address.
  pub data VipRun (Offers : String → String → Type 0) (p0 : VipPage) : VipPage → Type 0 where
    shown : VipRun Offers p0 (show_vip_page p0)
    typed :
        {p : VipPage} (s : String)
        → p.route ≡ stays
        → VipRun Offers p0 p
        → VipRun Offers p0 (type_vip p.focus s p)
    pressed :
        {p : VipPage} (key : Key)
        → p.route ≡ stays
        → VipRun Offers p0 p
        → VipRun Offers p0 (press_vip p.focus key p)
    failed :
        {p q : VipPage} (e : String)
        → p.route ≡ stays
        → 0 < p.requests
        → answer (err e) p ≡ ok q
        → VipRun Offers p0 p
        → VipRun Offers p0 q
    answered :
        {p q : VipPage} (hw_addr ip : String)
        → p.route ≡ stays
        → 0 < p.requests
        → Offers hw_addr ip
        → answer (ok (hw_addr, ip)) p ≡ ok q
        → VipRun Offers p0 p
        → VipRun Offers p0 q
