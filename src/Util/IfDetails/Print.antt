-- ===== src/Util/IfDetails/Print.antt =====
-- pkg/util/cmdline.go: the details of an interface as they are written.
use mathlib.Core.List.{append_assoc}
use harvester_installer.Prelude.{
  All, Bool, List, [], ap, arith, codes, false, is_empty, is_empty_iff, map, ok, refl, sym, true, ℕ,
  ◌++◌, ◌∙◌, ◌∷◌, ◌≡◌, ◌≢◌,
}
use harvester_installer.Util.IfDetails.{
  Bytes, IfDetails, contains_byte, is_space, join_bytes, no_details, parse_if_details, set_field,
  set_fields, split_on, trim_left, trim_right, trim_space,
}
use harvester_installer.Util.IfDetails.Fields.{
  Field, Groups, IsField, IsPlain, all_written, bare_address, bare_name, contains_byte-join,
  contains_byte-spaces, groups_of, print_address, print_details, print_field, spaces,
  split_on-append, split_on-join, split_on-plain, tagged_address, tagged_name, trim_space-spaces,
  written,
}

-- The parts of a field, trimmed.
abbrev parts_of : Field → List Bytes
parts_of (tagged_address n g) = codes "hwAddr" ∷ groups_of g
parts_of (bare_address g) = groups_of g
parts_of (tagged_name n name) = codes "name" ∷ name ∷ []
parts_of (bare_name name) = name ∷ []

abbrev trimmed : Bytes → List Bytes
trimmed s = map trim_space (split_on b':' s)

trimmed-append :
    (tag s : Bytes)
    → contains_byte tag b':' ≡ false
    → trim_space tag ≡ tag
    → trimmed (tag ++ b':' ∷ s) ≡ tag ∷ trimmed s
trimmed-append tag s plain trim = rw (split_on-append b':' tag s plain, trim) refl

trimmed-plain : (n : ℕ) (w : Bytes) → IsPlain w → trimmed (spaces n ++ w) ≡ w ∷ []
trimmed-plain n w h =
    rw
      (
        split_on-plain b':' (spaces n ++ w) (contains_byte-spaces n w b':' refl ∙ h.1),
        trim_space-spaces n w,
        h.3,
      )
      refl

trimmed-group :
    (n : ℕ) (w s : Bytes) → IsPlain w → trimmed (spaces n ++ (w ++ b':' ∷ s)) ≡ w ∷ trimmed s
trimmed-group n w s h =
    rw
      (
        sym (append_assoc (spaces n) w (b':' ∷ s)),
        split_on-append b':' (spaces n ++ w) s (contains_byte-spaces n w b':' refl ∙ h.1),
        trim_space-spaces n w,
        h.3,
      )
      refl

trimmed-join :
    (n : ℕ) (w : Bytes) (ws : List Bytes)
    → All IsPlain (w ∷ ws)
    → trimmed (spaces n ++ join_bytes (b':' ∷ []) (w ∷ ws)) ≡ w ∷ ws
unfolding join_bytes
trimmed-join n w [] h = trimmed-plain n w h.0
trimmed-join n w (v ∷ vs) h =
    trimmed-group n w (join_bytes (b':' ∷ []) (v ∷ vs)) h.0
    ∙ ap (λ t. w ∷ t) (trimmed-join 0 v vs h.1)

trimmed-print_field :
    (is_mac_address : Bytes → Bool) (f : Field)
    → IsField is_mac_address f
    → trimmed (print_field f) ≡ parts_of f
unfolding print_field print_address trim_space trim_left trim_right is_space contains_byte
trimmed-print_field is_mac (tagged_address n g) h =
    trimmed-append (codes "hwAddr") (spaces n ++ print_address g) refl refl
    ∙ ap (λ t. codes "hwAddr" ∷ t) (trimmed-join n g.first _ h.0)
trimmed-print_field is_mac (bare_address g) h = trimmed-join 0 g.first _ h.0
trimmed-print_field is_mac (tagged_name n name) h =
    trimmed-append (codes "name") (spaces n ++ name) refl refl
    ∙ ap (λ t. codes "name" ∷ t) (trimmed-plain n name h)
trimmed-print_field is_mac (bare_name name) h = trimmed-plain 0 name h

set_field-parts :
    (is_mac_address : Bytes → Bool) (details : Bytes) (f : Field) (d : IfDetails)
    → IsField is_mac_address f
    → set_field is_mac_address details (parts_of f) d ≡ ok (written f d)
unfolding set_field print_address
set_field-parts is_mac details (tagged_address n g) d h = rw h.1 refl
set_field-parts is_mac details (bare_address g) d h = rw h.1 refl
set_field-parts is_mac details (tagged_name n name) d h = refl
set_field-parts is_mac details (bare_name name) d h = refl

set_fields-print :
    (is_mac_address : Bytes → Bool) (details : Bytes) (fs : List Field) (d : IfDetails)
    → All (IsField is_mac_address) fs
    → set_fields is_mac_address details (map print_field fs) d ≡ ok (all_written fs d)
unfolding set_fields
set_fields-print is_mac details [] d h = refl
set_fields-print is_mac details (f ∷ fs) d h =
    rw (trimmed-print_field is_mac f h.0, set_field-parts is_mac details f d h.0)
      (set_fields-print is_mac details fs (written f d) h.1)

plain_no_comma : (ws : List Bytes) → All IsPlain ws → All (λ w. contains_byte w b',' ≡ false) ws
plain_no_comma [] h = tt
plain_no_comma (w ∷ ws) h = (h.0.2, plain_no_comma ws h.1)

print_address-one_part :
    (n : ℕ) (g : Groups)
    → All IsPlain (groups_of g)
    → contains_byte (spaces n ++ print_address g) b',' ≡ false
unfolding print_address
print_address-one_part n g h =
    contains_byte-spaces n _ b',' refl
    ∙ contains_byte-join b':' b',' (groups_of g) refl (plain_no_comma (groups_of g) h)

print_field-one_part :
    (is_mac_address : Bytes → Bool) (f : Field)
    → IsField is_mac_address f
    → contains_byte (print_field f) b',' ≡ false
unfolding print_field contains_byte
print_field-one_part is_mac (tagged_address n g) h = print_address-one_part n g h.0
print_field-one_part is_mac (bare_address g) h = print_address-one_part 0 g h.0
print_field-one_part is_mac (tagged_name n name) h = contains_byte-spaces n name b',' refl ∙ h.2
print_field-one_part is_mac (bare_name name) h = h.2

print_fields-one_part :
    (is_mac_address : Bytes → Bool) (fs : List Field)
    → All (IsField is_mac_address) fs
    → All (λ w. contains_byte w b',' ≡ false) (map print_field fs)
print_fields-one_part is_mac [] h = tt
print_fields-one_part is_mac (f ∷ fs) h =
    (print_field-one_part is_mac f h.0, print_fields-one_part is_mac fs h.1)

append-is_not_empty : (w s : Bytes) → w ≢ [] → is_empty (w ++ s) ≡ false
append-is_not_empty [] s h = absurd (h refl)
append-is_not_empty (c ∷ cs) s h = refl

print_field-is_not_empty :
    (is_mac_address : Bytes → Bool) (f : Field) → IsField is_mac_address f → print_field f ≢ []
unfolding print_field print_address join_bytes
print_field-is_not_empty is_mac (tagged_address n g) h = λ e. cc
print_field-is_not_empty is_mac (bare_address g) h =
    (is_empty_iff (print_address g)).0 (append-is_not_empty g.first _ h.0.0.0)
print_field-is_not_empty is_mac (tagged_name n name) h = λ e. cc
print_field-is_not_empty is_mac (bare_name name) h = h.0

contains_byte-here : (w s : Bytes) (sep : ℕ) → contains_byte (w ++ sep ∷ s) sep ≡ true
unfolding contains_byte
contains_byte-here [] s sep = ground arith
contains_byte-here (c ∷ cs) s sep = ground (arith, contains_byte-here cs s sep)

-- The details that are printed from one or more fields, tagged or not, with any number of spaces
-- behind a tag, are parsed without an error, and the last address and the last name among the
-- fields are what is read. The groups and names are not empty, have no colon and no comma in them
-- and no space around them, and the addresses are accepted as MAC addresses.
pub parse_if_details-print :
    (is_mac_address : Bytes → Bool) (f : Field) (fs : List Field)
    → All (IsField is_mac_address) (f ∷ fs)
    → parse_if_details is_mac_address (print_details (f ∷ fs))
      ≡ ok (all_written (f ∷ fs) no_details)
unfolding parse_if_details print_details join_bytes
parse_if_details-print is_mac f [] h =
    rw
      (
        (is_empty_iff (print_field f)).1 (print_field-is_not_empty is_mac f h.0),
        print_field-one_part is_mac f h.0,
      )
      (set_fields-print is_mac (print_field f) (f ∷ []) no_details h)
parse_if_details-print is_mac f (g ∷ gs) h =
    let rest = join_bytes (b',' ∷ []) (map print_field (g ∷ gs)) in
    rw
      (
        append-is_not_empty (print_field f) (b',' ∷ rest) (print_field-is_not_empty is_mac f h.0),
        contains_byte-here (print_field f) rest b',',
        split_on-join b',' (print_field f) (map print_field (g ∷ gs))
            (print_fields-one_part is_mac (f ∷ g ∷ gs) h),
      )
      (set_fields-print is_mac _ (f ∷ g ∷ gs) no_details h)
