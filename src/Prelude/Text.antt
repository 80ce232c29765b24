-- ===== src/Prelude/Text.antt =====
-- Texts as code points, and the number syntax of `strconv`.
use Prim.Native.Nat.{ℕ, ◌+◌, ◌-◌, ◌*◌}
use Prim.Native.Char.{code}
use Prim.Native.String
use Prim.Native.String.{String}
use mathlib.Core.Bool.{Bool, true, false, ◌&&◌, ◌||◌}
use mathlib.Core.Option.{Option, none, some}
use mathlib.Core.List.{List, [], ◌∷◌}
use text.Mathlib.Text.{◌==◌}
use mathlib.Core.Path.{◌≡◌}
use mathlib.Core.Logic.{◌↔◌}
use native.Mathlib.Omega.{arith}
use text.Mathlib.TextEquality.{eq_iff}
use harvester_installer.Prelude.Lists.{Among}
use harvester_installer.Prelude.Tests.{eqb, if◌then◌else◌, leb, ltb}

-- The code points of a text: its bytes, where it is ASCII.
abbrev pub codes : String → List ℕ
codes String.[] = []
codes (String.◌∷◌ c s) = code c ∷ codes s

abbrev pub is_digit : ℕ → Bool
is_digit c = leb b'0' c && leb c b'9'

-- The loop of `strconv.ParseUint` in base 10, with the largest value that fits.
unfoldable pub parse_uint_from : ℕ → ℕ → List ℕ → Option ℕ
parse_uint_from largest acc [] = some acc
parse_uint_from largest acc (c ∷ cs) =
    let next = acc * 10 + (c - b'0') in
    let rest = parse_uint_from largest next cs in
    if is_digit c && leb next largest then rest else none

-- `strconv.ParseUint(s, 10, w)` with `largest = 2 ^ w - 1`.
unfoldable pub parse_uint : ℕ → List ℕ → Option ℕ
unfolding parse_uint_from
parse_uint largest [] = none
parse_uint largest (c ∷ cs) = parse_uint_from largest 0 (c ∷ cs)

-- `target == s` for one of the texts.
unfoldable pub slice_contains : List String → String → Bool
slice_contains [] s = false
slice_contains (target ∷ rest) s = target == s || slice_contains rest s

pub slice_contains_iff :
    (targets : List String) (s : String) → slice_contains targets s ≡ true ↔ Among s targets
unfolding slice_contains
slice_contains_iff [] s = (λ h. cc, λ h. elim h [ ])
slice_contains_iff (t ∷ ts) s = (
  ground (arith, eq_iff t s, (slice_contains_iff ts s).0),
  ground (arith, eq_iff t s, (slice_contains_iff ts s).1),
)

abbrev pub concat_text : String → String → String
concat_text s t = String.◌++◌ s t

-- The order of `sort.Strings`, on code points.
unfoldable pub text_leb : List ℕ → List ℕ → Bool
text_leb [] ys = true
text_leb (x ∷ xs) [] = false
text_leb (x ∷ xs) (y ∷ ys) = ltb x y || (eqb x y && text_leb xs ys)

insert_sorted : String → List String → List String
insert_sorted s [] = s ∷ []
insert_sorted s (t ∷ ts) =
    let later = t ∷ insert_sorted s ts in if text_leb (codes s) (codes t) then s ∷ t ∷ ts else later

-- `sort.Strings`: equal texts are one text, so every sort gives the same list.
unfoldable pub sort_texts : List String → List String
unfolding insert_sorted text_leb
sort_texts [] = []
sort_texts (s ∷ ss) = insert_sorted s (sort_texts ss)

-- `strings.Join`
unfoldable pub join : String → List String → String
join sep [] = ""
join sep (s ∷ []) = s
join sep (s ∷ t ∷ ts) = concat_text s (concat_text sep (join sep (t ∷ ts)))
