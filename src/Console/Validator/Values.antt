-- ===== src/Console/Validator/Values.antt =====
-- pkg/console/validator.go: what the checks of a value alone let pass.
use text.Mathlib.Text.{starts_with}
use harvester_installer.Prelude.{
  All, List, String, [], arith, codes, eq_iff, fail_if, false, is_empty, negsuc, not, ok, pos, refl,
  true, ℕ, ℤ, ◌||◌, ◌↔◌, ◌∷◌, ◌≡◌, ◌≢◌, ◌≤◌, ◌⊎◌,
}
use harvester_installer.Console.Validator.Fields.{
  all_token_chars, check_black_list, check_mtu, check_persistent_state_path, check_token,
  invalid_token, is_abs, is_token_char,
}

-- The printable ASCII characters.
abbrev pub IsPrintable : ℕ → Type 0
IsPrintable c = (32 ≤ c) × (c ≤ 126)

is_token_char_iff : (c : ℕ) → is_token_char c ≡ true ↔ IsPrintable c
unfolding is_token_char
is_token_char_iff c = (λ h. ground arith, λ h. ground arith)

all_token_chars_iff : (cs : List ℕ) → all_token_chars cs ≡ true ↔ All IsPrintable cs
unfolding all_token_chars
all_token_chars_iff [] = (λ h. tt, λ h. refl)
all_token_chars_iff (c ∷ cs) = (
  ground (arith, (is_token_char_iff c).0, (all_token_chars_iff cs).0),
  ground (arith, (is_token_char_iff c).1, (all_token_chars_iff cs).1),
)

-- A token passes exactly when it is not empty and each of its characters is printable ASCII.
pub check_token_iff :
    (token : String)
    → check_token token ≡ ok tt ↔ (codes token ≢ []) × All IsPrintable (codes token)
unfolding check_token
check_token_iff token = go (codes token)
  where
    go :
        (cs : List ℕ)
        → fail_if (is_empty cs || not (all_token_chars cs)) invalid_token ≡ ok tt
          ↔ (cs ≢ []) × All IsPrintable cs
    go [] = (λ h. cc, λ h. absurd (h.0 refl))
    go (c ∷ cs) =
        let (to, back) = all_token_chars_iff (c ∷ cs) in
        (λ h. (λ e. cc, to (ground arith)), λ h. ground (arith, back h.1))

-- An MTU passes exactly when it is 0 or from 576 to 9000.
pub check_mtu_iff :
    (mtu : ℤ)
    → check_mtu mtu ≡ ok tt ↔ ((n : ℕ) × (mtu ≡ pos n) × ((n ≡ 0) ⊎ ((576 ≤ n) × (n ≤ 9000))))
unfolding check_mtu
check_mtu_iff (pos n) = (λ h. (n, refl, ground arith), λ h. ground arith)
check_mtu_iff (negsuc n) = (λ h. cc, λ h. cc h.1)

-- A path passes exactly when it is absolute, is not /tmp, and does not begin with /tmp/.
pub check_persistent_state_path_iff :
    (path : String)
    → check_persistent_state_path path ≡ ok tt
      ↔ (starts_with path "/" ≡ true) × (path ≢ "/tmp") × (starts_with path "/tmp/" ≡ false)
unfolding check_persistent_state_path is_abs check_black_list
check_persistent_state_path_iff path =
    (ground (arith, eq_iff path "/tmp"), ground (arith, eq_iff path "/tmp"))
