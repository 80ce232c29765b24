-- ===== src/Console/Validator/Fields.antt =====
-- pkg/console/validator.go: the checks that look at a value alone.
use text.Mathlib.Text.{starts_with}
use harvester_installer.Prelude.{
  Bool, List, Result, String, [], check_all, codes, concat_text, eqb, fail_if, false, if◌then◌else◌,
  is_above, is_below, is_empty, is_equal, leb, not, ok, true, ℕ, ℤ, ◌&&◌, ◌==◌, ◌>>◌, ◌||◌, ◌∷◌,
}
use harvester_installer.Config.Kubelet.{LabelError}
use harvester_installer.Config.Interfaces.{InterfaceError}

pub data ValidationError : Type 0 where
  interface_not_specified interface_not_specified_for_mgmt : ValidationError
  interface_lookup : InterfaceError → ValidationError
  interface_not_found interface_is_loop : String → ValidationError
  device_not_specified : ValidationError
  device_not_found device_too_small : String → ValidationError
  tool_failed : String → ValidationError
  required : String → ValidationError
  invalid_domain invalid_ip invalid_hw_addr : String → ValidationError
  invalid_mtu : ℤ → ValidationError
  mgmt_invalid_method mgmt_static_no_dns vlan_out_of_range : ValidationError
  network_method_unknown vip_mode_unknown mode_unknown : String → ValidationError
  force_mbr_on_large_disk : String → ValidationError
  force_mbr_on_uefi invalid_token path_not_absolute : ValidationError
  path_in_black_list : String → ValidationError
  registry_not_json : ValidationError
  system_setting_unknown : String → ValidationError
  unsupported_scheme_version : ℕ → ValidationError
  invalid_hostname management_interface_not_found : ValidationError
  create_contains_server_url join_without_server_url iso_url_not_specified : ValidationError
  token_not_specified no_credentials : ValidationError
  bad_label : LabelError → ValidationError

abbrev pub Check : Type 0
Check = Result ValidationError (Unit {0})

unfoldable pub check_static_required_string : String → String → Check
check_static_required_string field value = fail_if (value == "") (required field)

-- Treat 0 as default value; RFC 791.
unfoldable pub check_mtu : ℤ → Check
check_mtu mtu =
    if is_equal mtu 0
    then ok tt
    else fail_if (is_below mtu 576 || is_above mtu 9000) (invalid_mtu mtu)

abbrev within : ℕ → ℕ → ℕ → Bool
within lo hi c = leb lo c && leb c hi

abbrev one_of : List ℕ → ℕ → Bool
one_of [] c = false
one_of (x ∷ xs) c = eqb c x || one_of xs c

-- `validTokenChars`, in the order of the pattern; `,-.` is a range in it.
unfoldable pub is_token_char : ℕ → Bool
is_token_char c =
    within b'a' b'z' c
    || within b'A' b'Z' c
    || within b'0' b'9' c
    || one_of (codes " !\"#$%&'()*+") c
    || within b',' b'.' c
    || one_of (codes "/:;<=>?@^_`{|}~[]\\") c

unfoldable pub all_token_chars : List ℕ → Bool
all_token_chars [] = true
all_token_chars (c ∷ cs) = is_token_char c && all_token_chars cs

-- `^[...]+$`
unfoldable pub check_token : String → Check
check_token token =
    fail_if (is_empty (codes token) || not (all_token_chars (codes token))) invalid_token

-- `filepath.IsAbs` on Linux: a leading slash.
unfoldable pub is_abs : String → Bool
is_abs path = starts_with path "/"

-- One round of the loop over `persistentStateDirBlackList`.
unfoldable pub check_black_list : String → String → Check
check_black_list path d =
    fail_if (path == d || starts_with path (concat_text d "/")) (path_in_black_list d)

abbrev pub persistent_state_dir_black_list : List String
persistent_state_dir_black_list = "/tmp" ∷ []

unfoldable pub check_persistent_state_path : String → Check
check_persistent_state_path path = do
  fail_if (not (is_abs path)) path_not_absolute
  check_all (check_black_list path) persistent_state_dir_black_list

unfoldable pub check_persistent_state_paths : List String → Check
check_persistent_state_paths paths = check_all check_persistent_state_path paths
