-- ===== src/Util/CmdLine/Gather.antt =====
-- pkg/util/cmdline.go: what a path of the tree has after the loop.
use mathlib.Core.List.{append_assoc, append-nil}
use harvester_installer.Prelude.{
  Among, Bool, Bool-cases, List, Option, [], ap, arith, false, if◌then◌else◌, inl, inr, none, refl,
  some, sym, true, ◌&&◌, ◌++◌, ◌↔◌, ◌∙◌, ◌∷◌, ◌≡◌, ◌≢◌, ◌⊎◌,
}
use harvester_installer.Util.IfDetails.{Bytes, bytes_eqb}
use harvester_installer.Util.CmdLine.{CmdValue, KeyPath, add_value, path_of, text, texts, value_of}

abbrev pub Puts : Type 0
Puts = List (KeyPath × CmdValue)

unfoldable pub path_eqb : KeyPath → KeyPath → Bool
unfolding bytes_eqb
path_eqb [] [] = true
path_eqb [] (d ∷ ds) = false
path_eqb (c ∷ cs) [] = false
path_eqb (c ∷ cs) (d ∷ ds) = bytes_eqb c d && path_eqb cs ds

-- Whether the first path leads to the second.
unfoldable pub leads_to : KeyPath → KeyPath → Bool
unfolding bytes_eqb
leads_to [] ds = true
leads_to (c ∷ cs) [] = false
leads_to (c ∷ cs) (d ∷ ds) = bytes_eqb c d && leads_to cs ds

-- Neither path leads through the other.
abbrev pub AreApart : KeyPath → KeyPath → Type 0
AreApart p q = (p ≡ q) ⊎ ((leads_to p q ≡ false) × (leads_to q p ≡ false))

-- Paths of leaves: none is empty, and none leads through another.
abbrev pub AreLeaves : List KeyPath → Type 0
AreLeaves ps = (p q : KeyPath) → Among p ps → Among q ps → (p ≢ []) × AreApart p q

-- The value that was put last at a path.
unfoldable pub last_put : KeyPath → Puts → Option CmdValue
unfolding path_eqb
last_put p [] = none
last_put p ((q, v) ∷ puts) = if path_eqb q p then some v else last_put p puts

abbrev if_at : KeyPath → Option KeyPath → Bytes → List Bytes → List Bytes
if_at p none v vs = vs
if_at p (some q) v vs = if path_eqb q p then v ∷ vs else vs

-- The values of the items at a path, in their order.
unfoldable pub values_at : Bytes → KeyPath → List Bytes → List Bytes
values_at prefix p [] = []
values_at prefix p (item ∷ items) =
    if_at p (path_of prefix item) (value_of item) (values_at prefix p items)

abbrev pub add_path : Option KeyPath → List KeyPath → List KeyPath
add_path none ps = ps
add_path (some p) ps = p ∷ ps

-- The paths of the items.
abbrev pub paths_of : Bytes → List Bytes → List KeyPath
paths_of prefix [] = []
paths_of prefix (item ∷ items) = add_path (path_of prefix item) (paths_of prefix items)

-- What the loop puts: as the loop, on the puts.
unfoldable pub record_put : Puts → KeyPath → Option CmdValue → Puts
record_put puts p none = puts
record_put puts p (some v) = (p, v) ∷ puts

abbrev pub record_value : Puts → KeyPath → Bytes → Puts
record_value puts p v = record_put puts p (add_value (last_put p puts) v)

abbrev pub record_at : Puts → Option KeyPath → Bytes → Puts
record_at puts none v = puts
record_at puts (some p) v = record_value puts p v

unfoldable pub record_items : Bytes → Puts → List Bytes → Puts
record_items prefix puts [] = puts
record_items prefix puts (item ∷ items) =
    record_items prefix (record_at puts (path_of prefix item) (value_of item)) items

-- The new value where there is one, else the old.
abbrev or_old : Option CmdValue → Option CmdValue → Option CmdValue
or_old old none = old
or_old old (some w) = some w

-- What the values of a path make of what is there.
unfoldable pub extended : Option CmdValue → List Bytes → Option CmdValue
extended found [] = found
extended found (v ∷ vs) = extended (or_old found (add_value found v)) vs

-- No value, one text, or several.
abbrev pub gathered : List Bytes → Option CmdValue
gathered [] = none
gathered (v ∷ []) = some (text v)
gathered (v ∷ w ∷ vs) = some (texts (v ∷ w ∷ vs))

extended-texts : (ws vs : List Bytes) → extended (some (texts ws)) vs ≡ some (texts (ws ++ vs))
unfolding extended add_value
extended-texts ws [] = ap (λ t. some (texts t)) (sym (append-nil ws))
extended-texts ws (v ∷ vs) =
    extended-texts (ws ++ v ∷ []) vs ∙ ap (λ t. some (texts t)) (append_assoc ws (v ∷ []) vs)

pub extended-gathered : (vs : List Bytes) → extended none vs ≡ gathered vs
unfolding extended add_value
extended-gathered [] = refl
extended-gathered (v ∷ []) = refl
extended-gathered (v ∷ w ∷ vs) = extended-texts (v ∷ w ∷ []) vs

bytes_eqb_iff : (s t : Bytes) → bytes_eqb s t ≡ true ↔ (s ≡ t)
unfolding bytes_eqb
bytes_eqb_iff [] [] = (λ h. refl, λ h. refl)
bytes_eqb_iff [] (d ∷ ds) = (λ h. cc, λ h. cc)
bytes_eqb_iff (c ∷ cs) [] = (λ h. cc, λ h. cc)
bytes_eqb_iff (c ∷ cs) (d ∷ ds) =
    (ground (arith, (bytes_eqb_iff cs ds).0), ground (arith, (bytes_eqb_iff cs ds).1))

pub path_eqb_iff : (p q : KeyPath) → path_eqb p q ≡ true ↔ (p ≡ q)
unfolding path_eqb
path_eqb_iff [] [] = (λ h. refl, λ h. refl)
path_eqb_iff [] (d ∷ ds) = (λ h. cc, λ h. cc)
path_eqb_iff (c ∷ cs) [] = (λ h. cc, λ h. cc)
path_eqb_iff (c ∷ cs) (d ∷ ds) = (
  ground (arith, (bytes_eqb_iff c d).0, (path_eqb_iff cs ds).0),
  ground (arith, (bytes_eqb_iff c d).1, (path_eqb_iff cs ds).1),
)

last_put-record_put :
    (p q : KeyPath) (puts : Puts) (v : Option CmdValue)
    → last_put p (record_put puts q v)
      ≡ (if path_eqb q p then or_old (last_put p puts) v else last_put p puts)
unfolding last_put record_put
last_put-record_put p q puts none = ground arith
last_put-record_put p q puts (some v) = refl

last_put-record_value :
    (p q : KeyPath) (puts : Puts) (v : Bytes) (vs : List Bytes)
    → extended (last_put p (record_value puts q v)) vs
      ≡ extended (last_put p puts) (if path_eqb q p then v ∷ vs else vs)
unfolding extended
last_put-record_value p q puts v vs =
    let step = last_put-record_put p q puts (add_value (last_put q puts) v) in
    elim (Bool-cases (path_eqb q p)) [
      | inl h ↦ let same = (path_eqb_iff q p).0 h in rw (step, h, same) refl
      | inr h ↦ rw (step, h) refl
    ]

last_put-record_at :
    (p : KeyPath) (o : Option KeyPath) (puts : Puts) (v : Bytes) (vs : List Bytes)
    → extended (last_put p (record_at puts o v)) vs ≡ extended (last_put p puts) (if_at p o v vs)
last_put-record_at p none puts v vs = refl
last_put-record_at p (some q) puts v vs = last_put-record_value p q puts v vs

pub last_put-record_items :
    (prefix : Bytes) (p : KeyPath) (puts : Puts) (items : List Bytes)
    → last_put p (record_items prefix puts items)
      ≡ extended (last_put p puts) (values_at prefix p items)
unfolding record_items values_at extended
last_put-record_items prefix p puts [] = refl
last_put-record_items prefix p puts (item ∷ items) =
    let o : Option KeyPath = path_of prefix item in
    let v : Bytes = value_of item in
    last_put-record_items prefix p (record_at puts o v) items
    ∙ last_put-record_at p o puts v (values_at prefix p items)
