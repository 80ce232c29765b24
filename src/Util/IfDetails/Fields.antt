-- ===== src/Util/IfDetails/Fields.antt =====
-- pkg/util/cmdline.go: the fields of the details of an interface, and texts that are split and joined.
use harvester_installer.Prelude.{
  All, Bool, List, [], ap, arith, codes, eqb, false, map, refl, some, suc, true, zero, ℕ, ◌++◌,
  ◌||◌, ◌∙◌, ◌∷◌, ◌≡◌, ◌≢◌,
}
use harvester_installer.Util.IfDetails.{
  Bytes, IfDetails, contains_byte, join_bytes, split_on, trim_left, trim_space,
}

-- The six groups of an address.
pub record Groups : Type 0 where
  pub first : Bytes
  pub second : Bytes
  pub third : Bytes
  pub fourth : Bytes
  pub fifth : Bytes
  pub sixth : Bytes

abbrev pub groups_of : Groups → List Bytes
groups_of g = g.first ∷ g.second ∷ g.third ∷ g.fourth ∷ g.fifth ∷ g.sixth ∷ []

-- A field: an address or a name, with its tag and some spaces, or without.
pub data Field : Type 0 where
  tagged_address : ℕ → Groups → Field
  bare_address : Groups → Field
  tagged_name : ℕ → Bytes → Field
  bare_name : Bytes → Field

abbrev pub spaces : ℕ → Bytes
spaces zero = []
spaces (suc n) = b' ' ∷ spaces n

unfoldable pub print_address : Groups → Bytes
unfolding join_bytes
print_address g = join_bytes (b':' ∷ []) (groups_of g)

unfoldable pub print_field : Field → Bytes
unfolding print_address
print_field (tagged_address n g) = codes "hwAddr" ++ b':' ∷ (spaces n ++ print_address g)
print_field (bare_address g) = print_address g
print_field (tagged_name n name) = codes "name" ++ b':' ∷ (spaces n ++ name)
print_field (bare_name name) = name

unfoldable pub print_details : List Field → Bytes
unfolding print_field join_bytes
print_details fields = join_bytes (b',' ∷ []) (map print_field fields)

-- A text without separators, and without spaces around it.
abbrev pub IsPlain : Bytes → Type 0
IsPlain w =
    (w ≢ []) × (contains_byte w b':' ≡ false) × (contains_byte w b',' ≡ false) × (trim_space w ≡ w)

module _ (is_mac_address : Bytes → Bool) where
  abbrev pub IsAddress : Groups → Type 0
  IsAddress g = All IsPlain (groups_of g) × (is_mac_address (print_address g) ≡ true)

  abbrev pub IsField : Field → Type 0
  IsField (tagged_address n g) = IsAddress g
  IsField (bare_address g) = IsAddress g
  IsField (tagged_name n name) = IsPlain name
  IsField (bare_name name) = IsPlain name

-- The details after a field.
abbrev pub written : Field → IfDetails → IfDetails
written (tagged_address n g) d = record d { hw_addr = some (print_address g) }
written (bare_address g) d = record d { hw_addr = some (print_address g) }
written (tagged_name n name) d = record d { name = some name }
written (bare_name name) d = record d { name = some name }

abbrev pub all_written : List Field → IfDetails → IfDetails
all_written [] d = d
all_written (f ∷ fs) d = all_written fs (written f d)

-- Splitting and joining.
pub split_on-plain : (sep : ℕ) (w : Bytes) → contains_byte w sep ≡ false → split_on sep w ≡ w ∷ []
unfolding split_on contains_byte
split_on-plain sep [] h = refl
split_on-plain sep (c ∷ cs) h = ground (arith, split_on-plain sep cs)

pub split_on-append :
    (sep : ℕ) (w s : Bytes)
    → contains_byte w sep ≡ false
    → split_on sep (w ++ sep ∷ s) ≡ w ∷ split_on sep s
unfolding split_on contains_byte
split_on-append sep [] s h = ground arith
split_on-append sep (c ∷ cs) s h = ground (arith, split_on-append sep cs s)

pub split_on-join :
    (sep : ℕ) (w : Bytes) (ws : List Bytes)
    → All (λ w. contains_byte w sep ≡ false) (w ∷ ws)
    → split_on sep (join_bytes (sep ∷ []) (w ∷ ws)) ≡ w ∷ ws
unfolding join_bytes
split_on-join sep w [] h = split_on-plain sep w h.0
split_on-join sep w (v ∷ vs) h =
    split_on-append sep w (join_bytes (sep ∷ []) (v ∷ vs)) h.0
    ∙ ap (λ t. w ∷ t) (split_on-join sep v vs h.1)

pub contains_byte-append :
    (w s : Bytes) (sep : ℕ)
    → contains_byte (w ++ s) sep ≡ (contains_byte w sep || contains_byte s sep)
unfolding contains_byte
contains_byte-append [] s sep = refl
contains_byte-append (c ∷ cs) s sep = ground (arith, contains_byte-append cs s sep)

pub contains_byte-join :
    (sep other : ℕ) (ws : List Bytes)
    → eqb sep other ≡ false
    → All (λ w. contains_byte w other ≡ false) ws
    → contains_byte (join_bytes (sep ∷ []) ws) other ≡ false
unfolding join_bytes contains_byte
contains_byte-join sep other [] h k = refl
contains_byte-join sep other (w ∷ []) h k = k.0
contains_byte-join sep other (w ∷ v ∷ vs) h k = ground (
  arith,
  k.0,
  contains_byte-append w (sep ∷ join_bytes (sep ∷ []) (v ∷ vs)) other,
  contains_byte-join sep other (v ∷ vs) h k.1,
)

pub trim_space-spaces : (n : ℕ) (w : Bytes) → trim_space (spaces n ++ w) ≡ trim_space w
unfolding trim_space trim_left
trim_space-spaces zero w = refl
trim_space-spaces (suc n) w = trim_space-spaces n w

pub contains_byte-spaces :
    (n : ℕ) (w : Bytes) (sep : ℕ)
    → eqb b' ' sep ≡ false
    → contains_byte (spaces n ++ w) sep ≡ contains_byte w sep
unfolding contains_byte
contains_byte-spaces zero w sep h = refl
contains_byte-spaces (suc n) w sep h = rw h (contains_byte-spaces n w sep h)
