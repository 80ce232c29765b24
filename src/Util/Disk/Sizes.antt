-- ===== src/Util/Disk/Sizes.antt =====
-- pkg/util/disk.go: the size syntax against decimal numbers and units.
use harvester_installer.Prelude.{
  All, Bool-cases, List, [], ap, arith, eqb, err, fail_if, if◌then◌else◌, inl, inr, is_digit, leb,
  none, not, ok, parse_uint, parse_uint_from, refl, some, sym, true, ℕ, ◌*◌, ◌++◌, ◌+◌, ◌-◌, ◌<◌,
  ◌>>◌, ◌^◌, ◌∙◌, ◌∷◌, ◌≡◌, ◌≤◌,
}
use harvester_installer.Util.Disk.{
  bad_number, bad_unit, drop_last2, is_unit, last2, match_digits, parse_partition_codes, scale,
  scaled, size_matches, u64,
}

-- The number that decimal digits stand for, behind what was read before.
abbrev pub decimal_from : ℕ → List ℕ → ℕ
decimal_from acc [] = acc
decimal_from acc (c ∷ cs) = decimal_from (acc * 10 + (c - b'0')) cs

abbrev pub decimal : List ℕ → ℕ
decimal = decimal_from 0

abbrev pub IsDigits : List ℕ → Type 0
IsDigits = All (λ c. is_digit c ≡ true)

pub data SizeUnit : Type 0 where
  mi gi : SizeUnit

abbrev pub symbol : SizeUnit → List ℕ
symbol mi = b'M' ∷ b'i' ∷ []
symbol gi = b'G' ∷ b'i' ∷ []

abbrev pub bytes_of : SizeUnit → ℕ
bytes_of mi = 2 ^ 20
bytes_of gi = 2 ^ 30

le-decimal_from : (acc : ℕ) (ds : List ℕ) → acc ≤ decimal_from acc ds
le-decimal_from acc [] = omega arith
le-decimal_from acc (c ∷ ds) = omega (arith, le-decimal_from (acc * 10 + (c - b'0')) ds)

parse_uint_from-decimal :
    (largest acc : ℕ) (ds : List ℕ)
    → IsDigits ds
    → acc ≤ largest
    → parse_uint_from largest acc ds
      ≡ (if leb (decimal_from acc ds) largest then some (decimal_from acc ds) else none)
unfolding parse_uint_from
parse_uint_from-decimal largest acc [] h low = ground arith
parse_uint_from-decimal largest acc (c ∷ ds) h low =
    let next : ℕ = acc * 10 + (c - b'0') in
    ground (arith, h.0, le-decimal_from next ds, parse_uint_from-decimal largest next ds h.1)

match_digits-append :
    (ds : List ℕ) (u : SizeUnit) → IsDigits ds → match_digits (ds ++ symbol u) ≡ true
unfolding match_digits
match_digits-append [] mi h = refl
match_digits-append [] gi h = refl
match_digits-append (c ∷ ds) u h = rw h.0 (match_digits-append ds u h.1)

drop_last2-append : (ds : List ℕ) (a b : ℕ) → drop_last2 (ds ++ a ∷ b ∷ []) ≡ ds
unfolding drop_last2
drop_last2-append [] a b = refl
drop_last2-append (c ∷ []) a b = refl
drop_last2-append (c ∷ d ∷ []) a b = refl
drop_last2-append (c ∷ d ∷ e ∷ ds) a b = ap (λ t. c ∷ t) (drop_last2-append (d ∷ e ∷ ds) a b)

last2-append : (ds : List ℕ) (a b : ℕ) → last2 (ds ++ a ∷ b ∷ []) ≡ a ∷ b ∷ []
unfolding last2
last2-append [] a b = refl
last2-append (c ∷ []) a b = refl
last2-append (c ∷ d ∷ []) a b = refl
last2-append (c ∷ d ∷ e ∷ ds) a b = last2-append (d ∷ e ∷ ds) a b

scale-symbol : (u : SizeUnit) (n : ℕ) → scale (symbol u) n ≡ u64 (n * bytes_of u)
unfolding scale
scale-symbol mi n = refl
scale-symbol gi n = refl

parse_partition_codes_lem :
    (cs : List ℕ)
    → parse_partition_codes cs ≡ (
        fail_if (not (size_matches cs)) bad_unit
        >> scaled (last2 cs) (parse_uint (2 ^ 64 - 1) (drop_last2 cs)))
unfolding parse_partition_codes
parse_partition_codes_lem cs = refl

module _ (c : ℕ) (ds : List ℕ) (u : SizeUnit) (digits : IsDigits (c ∷ ds)) where
  size_matches-append : size_matches ((c ∷ ds) ++ symbol u) ≡ true
  unfolding size_matches
  size_matches-append = rw digits.0 (match_digits-append ds u digits.1)

  parse_uint-decimal :
      parse_uint (2 ^ 64 - 1) (c ∷ ds)
      ≡ (if leb (decimal (c ∷ ds)) (2 ^ 64 - 1) then some (decimal (c ∷ ds)) else none)
  unfolding parse_uint
  parse_uint-decimal = parse_uint_from-decimal (2 ^ 64 - 1) 0 (c ∷ ds) digits (omega arith)

  last2-symbol : last2 ((c ∷ ds) ++ symbol u) ≡ symbol u
  last2-symbol = elim u as (λ v. last2 ((c ∷ ds) ++ symbol v) ≡ symbol v) [
    | mi ↦ last2-append (c ∷ ds) _ _
    | gi ↦ last2-append (c ∷ ds) _ _
  ]

  drop_last2-symbol : drop_last2 ((c ∷ ds) ++ symbol u) ≡ c ∷ ds
  drop_last2-symbol = elim u as (λ v. drop_last2 ((c ∷ ds) ++ symbol v) ≡ c ∷ ds) [
    | mi ↦ drop_last2-append (c ∷ ds) _ _
    | gi ↦ drop_last2-append (c ∷ ds) _ _
  ]

  -- What `parsePartitionBytes` answers for a decimal number with a unit: the number of bytes
  -- modulo 2 ^ 64, or an error where the number itself does not fit 64 bits.
  pub parse_partition_codes-append : parse_partition_codes ((c ∷ ds) ++ symbol u) ≡ (
      if leb (decimal (c ∷ ds)) (2 ^ 64 - 1)
      then ok (u64 (decimal (c ∷ ds) * bytes_of u))
      else err bad_number)
  parse_partition_codes-append =
      rw
        (
          parse_partition_codes_lem, size_matches-append, last2-symbol, drop_last2-symbol,
          parse_uint-decimal,
        )
        (elim (Bool-cases (leb (decimal (c ∷ ds)) (2 ^ 64 - 1))) [
          | inl e ↦ rw e (ap ok (scale-symbol u (decimal (c ∷ ds))))
          | inr e ↦ rw e
        ])

is_unit-eq-symbol : (cs : List ℕ) → is_unit cs ≡ true → (u : SizeUnit) × (cs ≡ symbol u)
unfolding is_unit
is_unit-eq-symbol (m ∷ i ∷ []) h = elim (Bool-cases (eqb m b'M')) [
  | inl e ↦ (mi, ground arith)
  | inr e ↦ (gi, ground arith)
]
is_unit-eq-symbol _ h = cc

match_digits-eq-append :
    (cs : List ℕ)
    → match_digits cs ≡ true
    → (ds : List ℕ) × (u : SizeUnit) × (cs ≡ ds ++ symbol u) × IsDigits ds
unfolding match_digits
match_digits-eq-append [] h = cc
match_digits-eq-append (c ∷ cs) h = elim (Bool-cases (is_digit c)) [
  | inl digit ↦
      let (ds, u, e, all) = match_digits-eq-append cs (rw digit at h) in
      (c ∷ ds, u, ap (λ t. c ∷ t) e, (digit, all))
  | inr other ↦ let (u, e) = is_unit-eq-symbol (c ∷ cs) (rw other at h) in ([], u, e, tt)
]

-- The texts that are accepted are a non-empty run of digits with a unit.
size_matches-eq-append :
    (cs : List ℕ)
    → size_matches cs ≡ true
    → (c : ℕ) × (ds : List ℕ) × (u : SizeUnit) × (cs ≡ (c ∷ ds) ++ symbol u) × IsDigits (c ∷ ds)
unfolding size_matches
size_matches-eq-append [] h = cc
size_matches-eq-append (c ∷ cs) h = elim (Bool-cases (is_digit c)) [
  | inl digit ↦
      let (ds, u, e, all) = match_digits-eq-append cs (rw digit at h) in
      (c, ds, u, ap (λ t. c ∷ t) e, (digit, all))
  | inr other ↦ cc (rw other at h)
]

-- The reading of a text as digits and a unit.
pub record IsSize (cs : List ℕ) (size : ℕ) : Type 0 where
  pub first : ℕ
  pub others : List ℕ
  pub unit : SizeUnit
  pub splits : cs ≡ (first ∷ others) ++ symbol unit
  pub digits : IsDigits (first ∷ others)
  pub fits : decimal (first ∷ others) < 2 ^ 64
  pub value : size ≡ u64 (decimal (first ∷ others) * bytes_of unit)

-- Every text that `parsePartitionBytes` accepts is a non-empty run of digits, that stands for a
-- number below 2 ^ 64, behind which stands `Mi` or `Gi`; and the answer is the number times the
-- unit modulo 2 ^ 64.
pub parse_partition_codes-IsSize :
    (cs : List ℕ) {size : ℕ} → parse_partition_codes cs ≡ ok size → IsSize cs size
parse_partition_codes-IsSize cs {size} h = elim (Bool-cases (size_matches cs)) [
  | inl m ↦
      let (c, ds, u, e, all) = size_matches-eq-append cs m in
      let answered = sym (parse_partition_codes-append c ds u all) ∙ (rw e at h) in
      record {
        first = c;
        others = ds;
        unit = u;
        splits = e;
        digits = all;
        fits = ground arith;
        value = ground arith;
      }
  | inr m ↦ cc (rw (parse_partition_codes_lem, m) at h)
]
