-- ===== src/Util/Disk.antt =====
-- pkg/util/disk.go and the unit conversions of pkg/util/common.go. A `uint64` is a number with its
-- wrap-around written out.
pub mod Bounds
pub mod Sizes
use harvester_installer.Prelude.{
  Bool, List, Option, Result, String, [], codes, eqb, err, fail_if, false, if◌then◌else◌, is_digit,
  ltb, none, not, ok, parse_uint, some, ℕ, ◌%◌, ◌&&◌, ◌*◌, ◌+◌, ◌-◌, ◌/◌, ◌>>=◌, ◌>>◌, ◌^◌, ◌||◌,
  ◌∷◌,
}

abbrev pub u64 : ℕ → ℕ
u64 n = n % 2 ^ 64

-- `a - b` on `uint64`.
abbrev pub sub64 : ℕ → ℕ → ℕ
sub64 a b = (a + 2 ^ 64 - b) % 2 ^ 64

abbrev pub mi_byte_multiplier : ℕ
mi_byte_multiplier = 2 ^ 20

abbrev pub gi_byte_multiplier : ℕ
gi_byte_multiplier = 2 ^ 30

abbrev pub min_disk_size : ℕ
min_disk_size = 250 * 2 ^ 30

abbrev pub min_persistent_size : ℕ
min_persistent_size = 150 * 2 ^ 30

abbrev pub fixed_occupied_size : ℕ
fixed_occupied_size = (50 + 15360 + 8192 + 64 + 51200) * mi_byte_multiplier

unfoldable pub byte_to_gi : ℕ → ℕ
byte_to_gi b = b / 2 ^ 30

unfoldable pub byte_to_mi : ℕ → ℕ
byte_to_mi b = b / 2 ^ 20

unfoldable pub gi_to_byte : ℕ → ℕ
gi_to_byte gi = u64 (gi * 2 ^ 30)

unfoldable pub mi_to_byte : ℕ → ℕ
mi_to_byte mi = u64 (mi * 2 ^ 20)

-- The errors, with the number that the message shows.
pub data DiskError : Type 0 where
  disk_too_small : ℕ → DiskError
  partition_too_small : ℕ → DiskError
  partition_too_large : ℕ → DiskError
  bad_unit : DiskError
  bad_number : DiskError

-- Whether the rest is exactly a unit.
unfoldable pub is_unit : List ℕ → Bool
is_unit (m ∷ i ∷ []) = (eqb m b'M' || eqb m b'G') && eqb i b'i'
is_unit _ = false

unfoldable pub match_digits : List ℕ → Bool
unfolding is_unit
match_digits [] = false
match_digits (c ∷ cs) = let more = match_digits cs in if is_digit c then more else is_unit (c ∷ cs)

-- `sizeRegexp`: `^(\d+)(Mi|Gi)$`.
unfoldable pub size_matches : List ℕ → Bool
unfolding match_digits
size_matches [] = false
size_matches (c ∷ cs) = is_digit c && match_digits cs

-- `s[:len(s)-2]` and `s[len(s)-2:]`, for a text of two bytes at least.
unfoldable pub drop_last2 : List ℕ → List ℕ
drop_last2 (a ∷ b ∷ c ∷ cs) = a ∷ drop_last2 (b ∷ c ∷ cs)
drop_last2 _ = []

unfoldable pub last2 : List ℕ → List ℕ
last2 (a ∷ b ∷ c ∷ cs) = last2 (b ∷ c ∷ cs)
last2 cs = cs

-- The `switch` on the unit: no case leaves the zero value.
unfoldable pub scale : List ℕ → ℕ → ℕ
scale (m ∷ i ∷ []) size =
    if eqb m b'M' && eqb i b'i'
    then u64 (size * mi_byte_multiplier)
    else if eqb m b'G' && eqb i b'i'
    then u64 (size * gi_byte_multiplier)
    else 0
scale _ size = 0

-- What is done with the result of `strconv.ParseUint`.
abbrev pub scaled : List ℕ → Option ℕ → Result DiskError ℕ
scaled unit none = err bad_number
scaled unit (some size) = ok (scale unit size)

unfoldable pub parse_partition_codes : List ℕ → Result DiskError ℕ
unfolding size_matches drop_last2 last2 scale parse_uint
parse_partition_codes cs = do
  fail_if (not (size_matches cs)) bad_unit
  scaled (last2 cs) (parse_uint (2 ^ 64 - 1) (drop_last2 cs))

unfoldable pub parse_partition_bytes : String → Result DiskError ℕ
unfolding parse_partition_codes
parse_partition_bytes partition_size = parse_partition_codes (codes partition_size)

-- The tests behind the parse of the size.
unfoldable pub fit_partition : ℕ → Bool → ℕ → Result DiskError ℕ
fit_partition disk_size_bytes skip_checks partition_bytes =
    let actual = sub64 disk_size_bytes fixed_occupied_size in
    if not skip_checks && ltb partition_bytes min_persistent_size
    then err (partition_too_small (min_persistent_size / 2 ^ 30))
    else if ltb actual partition_bytes
    then (if skip_checks then ok actual else err (partition_too_large (actual / 2 ^ 30)))
    else ok partition_bytes

unfoldable pub parse_partition_size : ℕ → String → Bool → Result DiskError ℕ
unfolding parse_partition_bytes fit_partition
parse_partition_size disk_size_bytes partition_size skip_checks = do
  fail_if (not skip_checks && ltb disk_size_bytes min_disk_size)
      (disk_too_small (min_disk_size / 2 ^ 30))
  partition_bytes ← parse_partition_bytes partition_size
  fit_partition disk_size_bytes skip_checks partition_bytes
