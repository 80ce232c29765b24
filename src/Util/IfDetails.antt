-- ===== src/Util/IfDetails.antt =====
-- pkg/util/cmdline.go: the details of an interface (`parseIfDetails`). Texts are lists of code
-- points, and the test of a MAC address is a parameter.
pub mod Fields
pub mod Print
use harvester_installer.Prelude.{
  Bool, List, Option, Result, [], codes, eqb, err, false, if◌then◌else◌, is_empty, leb, map, map_ok,
  none, ok, some, true, ℕ, ◌&&◌, ◌++◌, ◌>>=◌, ◌||◌, ◌∷◌,
}

abbrev pub Bytes : Type 0
Bytes = List ℕ

unfoldable pub bytes_eqb : Bytes → Bytes → Bool
bytes_eqb [] [] = true
bytes_eqb [] (d ∷ ds) = false
bytes_eqb (c ∷ cs) [] = false
bytes_eqb (c ∷ cs) (d ∷ ds) = eqb c d && bytes_eqb cs ds

-- `strings.Contains` for a text of one byte.
unfoldable pub contains_byte : Bytes → ℕ → Bool
contains_byte [] sep = false
contains_byte (c ∷ cs) sep = eqb c sep || contains_byte cs sep

abbrev pub put_head : ℕ → List Bytes → List Bytes
put_head c [] = (c ∷ []) ∷ []
put_head c (w ∷ ws) = (c ∷ w) ∷ ws

-- `strings.Split` at one byte.
unfoldable pub split_on : ℕ → Bytes → List Bytes
split_on sep [] = [] ∷ []
split_on sep (c ∷ cs) = if eqb c sep then [] ∷ split_on sep cs else put_head c (split_on sep cs)

-- `unicode.IsSpace`
unfoldable pub is_space : ℕ → Bool
is_space c =
    (leb 9 c && leb c 13)
    || eqb c 32
    || eqb c 133
    || eqb c 160
    || eqb c 5760
    || (leb 8192 c && leb c 8202)
    || eqb c 8232
    || eqb c 8233
    || eqb c 8239
    || eqb c 8287
    || eqb c 12288

module _ (cut : ℕ → Bool) where
  unfoldable pub trim_left : Bytes → Bytes
  trim_left [] = []
  trim_left (c ∷ cs) = if cut c then trim_left cs else c ∷ cs

  unfoldable pub trim_right : Bytes → Bytes
  trim_right [] = []
  trim_right (c ∷ cs) = let rest = trim_right cs in if is_empty rest && cut c then [] else c ∷ rest

-- `strings.TrimSpace`, and `strings.Trim(s, "\"")`.
unfoldable pub trim_space : Bytes → Bytes
unfolding trim_left trim_right is_space
trim_space s = trim_right is_space (trim_left is_space s)

unfoldable pub trim_quotes : Bytes → Bytes
unfolding trim_left trim_right
trim_quotes s = trim_right (λ c. eqb c b'"') (trim_left (λ c. eqb c b'"') s)

-- `strings.Join`
unfoldable pub join_bytes : Bytes → List Bytes → Bytes
join_bytes sep [] = []
join_bytes sep (s ∷ []) = s
join_bytes sep (s ∷ t ∷ ts) = s ++ (sep ++ join_bytes sep (t ∷ ts))

pub data CmdError : Type 0 where
  empty_details : CmdError
  could_not_parse : Bytes → CmdError
  invalid_mac : Bytes → CmdError
  invalid_version : Bytes → CmdError
  -- The type assertion `schemeVersion.(string)` panics.
  not_a_string : CmdError

-- The entries `hwAddr` and `name` of the map.
pub record IfDetails : Type 0 where
  pub hw_addr : Option Bytes
  pub name : Option Bytes

abbrev pub no_details : IfDetails
no_details = record { hw_addr = none; name = none }

module _ (is_mac_address : Bytes → Bool) (details : Bytes) where
  unfoldable pub set_hw_addr : List Bytes → IfDetails → Result CmdError IfDetails
  unfolding join_bytes
  set_hw_addr groups args =
      let hw_addr = join_bytes (b':' ∷ []) groups in
      if is_mac_address hw_addr
      then ok (record args { hw_addr = some hw_addr })
      else err (invalid_mac hw_addr)

  -- The switch on the number of parts.
  unfoldable pub set_field : List Bytes → IfDetails → Result CmdError IfDetails
  unfolding set_hw_addr bytes_eqb
  set_field (p ∷ a ∷ b ∷ c ∷ d ∷ e ∷ f ∷ []) args =
      if bytes_eqb p (codes "hwAddr")
      then set_hw_addr (a ∷ b ∷ c ∷ d ∷ e ∷ f ∷ []) args
      else err (could_not_parse details)
  set_field (a ∷ b ∷ c ∷ d ∷ e ∷ f ∷ []) args = set_hw_addr (a ∷ b ∷ c ∷ d ∷ e ∷ f ∷ []) args
  set_field (p ∷ n ∷ []) args =
      if bytes_eqb p (codes "name")
      then ok (record args { name = some n })
      else err (could_not_parse details)
  set_field (n ∷ []) args = ok (record args { name = some n })
  set_field _ args = err (could_not_parse details)

  -- The loop over the fields.
  unfoldable pub set_fields : List Bytes → IfDetails → Result CmdError IfDetails
  unfolding set_field split_on trim_space
  set_fields [] args = ok args
  set_fields (field ∷ rest) args =
      set_field (map trim_space (split_on b':' field)) args >>= set_fields rest

  unfoldable pub parse_if_details : Result CmdError IfDetails
  unfolding set_fields contains_byte split_on
  parse_if_details =
      if is_empty details
      then err empty_details
      else set_fields (if contains_byte details b',' then split_on b',' details else details ∷ [])
          no_details

-- `for _, v := range ifDetails`
unfoldable pub parse_all : (Bytes → Bool) → List Bytes → Result CmdError (List IfDetails)
unfolding parse_if_details
parse_all is_mac_address [] = ok []
parse_all is_mac_address (v ∷ vs) =
    parse_if_details is_mac_address v >>= λ n. map_ok (λ ns. n ∷ ns) (parse_all is_mac_address vs)
