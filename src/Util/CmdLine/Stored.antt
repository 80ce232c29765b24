-- ===== src/Util/CmdLine/Stored.antt =====
-- pkg/util/cmdline.go: the tree after the loop, and the arguments that it refuses.
use harvester_installer.Prelude.{
  Among, Bool, List, Option, [], ap, err, inl, inr, map, none, refl, some, ◌>>=◌, ◌∙◌, ◌∷◌, ◌≡◌,
}
use harvester_installer.Util.IfDetails.{Bytes, not_a_string}
use harvester_installer.Util.CmdLine.{
  CmdValue, KeyPath, Tree, add_value, interfaces_path, parse_cmd_line, path_of, put_if,
  scheme_version_path, store, store_at, store_items, take_interfaces, take_version,
  to_network_interfaces, to_scheme_version, value_of,
}
use harvester_installer.Util.CmdLine.Gather.{
  AreLeaves, Puts, add_path, extended-gathered, gathered, last_put, last_put-record_items, paths_of,
  record_at, record_items, record_put, values_at,
}

module _ (tree : Tree) where
  open tree use {Data, new, get_value, put_value}

  -- The tree after some puts, the last one first.
  unfoldable pub build : Puts → Data
  build [] = new
  build ((p, v) ∷ puts) = put_value (build puts) v p

-- The tree of the package values has at a path of a leaf what was put there last, where only leaves
-- were put.
unfoldable pub GetsLastPut : Tree → Type 0
GetsLastPut tree =
    (p : KeyPath) (puts : Puts)
    → AreLeaves (p ∷ map (λ put. put.0) puts)
    → tree.get_value (build tree puts) p ≡ last_put p puts

-- The paths of which the puts have only some.
abbrev pub IsWithin : List KeyPath → List KeyPath → Type 0
IsWithin qs ps = (q : KeyPath) → Among q qs → Among q ps

abbrev pub put_paths : Puts → List KeyPath
put_paths puts = map (λ put. put.0) puts

IsWithin-record_put :
    (ps : List KeyPath) (puts : Puts) (p : KeyPath) (v : Option CmdValue)
    → IsWithin (p ∷ put_paths puts) ps
    → IsWithin (put_paths (record_put puts p v)) ps
unfolding record_put
IsWithin-record_put ps puts p none h q a = h q (inr a)
IsWithin-record_put ps puts p (some v) h q a = h q a

module _ (tree : Tree) (prefix : Bytes) (gets : GetsLastPut tree) (ps : List KeyPath)
    (leaves : AreLeaves ps) where
  put_if-build :
      (puts : Puts) (p : KeyPath) (o : Option CmdValue)
      → put_if tree (build tree puts) p o ≡ build tree (record_put puts p o)
  unfolding put_if build record_put
  put_if-build puts p none = refl
  put_if-build puts p (some v) = refl

  store_at-build :
      (puts : Puts) (o : Option KeyPath) (v : Bytes)
      → IsWithin (add_path o (put_paths puts)) ps
      → store_at tree (build tree puts) o v ≡ build tree (record_at puts o v)
  unfolding store_at store GetsLastPut
  store_at-build puts none v h = refl
  store_at-build puts (some p) v h =
      ap (λ found. put_if tree (build tree puts) p (add_value found v))
        (gets p puts (λ q r a b. leaves q r (h q a) (h r b)))
      ∙ put_if-build puts p (add_value (last_put p puts) v)

  put_paths-record_at :
      (puts : Puts) (o : Option KeyPath) (v : Bytes)
      → IsWithin (add_path o (put_paths puts)) ps
      → IsWithin (put_paths (record_at puts o v)) ps
  put_paths-record_at puts none v h = h
  put_paths-record_at puts (some p) v h =
      IsWithin-record_put ps puts p (add_value (last_put p puts) v) h

  add_path-IsWithin :
      (o : Option KeyPath) (qs rs : List KeyPath)
      → IsWithin (add_path o rs) ps
      → IsWithin qs ps
      → IsWithin (add_path o qs) ps
  add_path-IsWithin none qs rs h k = k
  add_path-IsWithin (some p) qs rs h k = λ q a. elim a [ inl e ↦ h q (inl e) | inr b ↦ k q b ]

  rest-IsWithin :
      (o : Option KeyPath) (rs : List KeyPath) → IsWithin (add_path o rs) ps → IsWithin rs ps
  rest-IsWithin none rs h = h
  rest-IsWithin (some p) rs h = λ q a. h q (inr a)

  -- The loop makes the tree of its puts, which are at the paths of the items.
  pub store_items-build :
      (puts : Puts) (items : List Bytes)
      → IsWithin (put_paths puts) ps
      → IsWithin (paths_of prefix items) ps
      → (store_items tree prefix (build tree puts) items
          ≡ build tree (record_items prefix puts items))
        × IsWithin (put_paths (record_items prefix puts items)) ps
  unfolding store_items record_items
  store_items-build puts [] h k = (refl, h)
  store_items-build puts (item ∷ items) h k =
      let o : Option KeyPath = path_of prefix item in
      let v : Bytes = value_of item in
      let rest : List KeyPath = paths_of prefix items in
      let here = add_path-IsWithin o (put_paths puts) rest k h in
      let (built, within) =
        store_items-build (record_at puts o v) items (put_paths-record_at puts o v here)
          (rest-IsWithin o rest k) in
      (ap (λ t. store_items tree prefix t items) (store_at-build puts o v here) ∙ built, within)

-- After the loop of ParseCmdLine, a path has no value where no item is at it, the text of its item
-- where there is one, and else the texts of its items in their order. The path and the paths of the
-- items are paths of leaves, and the tree holds at a leaf what was put last.
pub store_items-gathered :
    (tree : Tree) (prefix : Bytes)
    → GetsLastPut tree
    → (p : KeyPath) (items : List Bytes) → AreLeaves (p ∷ paths_of prefix items)
    → tree.get_value (store_items tree prefix tree.new items) p
      ≡ gathered (values_at prefix p items)
unfolding build last_put GetsLastPut
store_items-gathered tree prefix gets p items leaves =
    let ps : List KeyPath = p ∷ paths_of prefix items in
    let puts : Puts = record_items prefix [] items in
    let (built, within) =
      store_items-build tree prefix gets ps leaves [] items (λ q a. absurd a) (λ q a. inr a) in
    ap (λ t. tree.get_value t p) built
    ∙ gets p puts (λ q r a b.
      leaves q r (elim a [ inl e ↦ inl e | inr c ↦ within q c ])
        (elim b [ inl e ↦ inl e | inr c ↦ within r c ]))
    ∙ last_put-record_items prefix p [] items
    ∙ extended-gathered (values_at prefix p items)

-- ParseCmdLine ends in the panic of a failed type assertion where the command line has the version of
-- the scheme two or more times and no interfaces. The paths of the items are paths of leaves, and the
-- tree holds at a leaf what was put last.
pub parse_cmd_line-repeated_version :
    (tree : Tree)
    → GetsLastPut tree
    → (is_mac_address : Bytes → Bool) (find_all : Bytes → List Bytes) (cmdline prefix v w : Bytes)
      (vs : List Bytes)
    → AreLeaves (interfaces_path ∷ scheme_version_path ∷ paths_of prefix (find_all cmdline))
    → values_at prefix interfaces_path (find_all cmdline) ≡ []
    → values_at prefix scheme_version_path (find_all cmdline) ≡ v ∷ w ∷ vs
    → parse_cmd_line tree is_mac_address find_all cmdline prefix ≡ err not_a_string
unfolding parse_cmd_line to_network_interfaces to_scheme_version take_interfaces take_version
parse_cmd_line-repeated_version tree gets is_mac find_all cmdline prefix v w vs leaves none_there
      some_there =
    let items : List Bytes = find_all cmdline in
    let no_interfaces =
      store_items-gathered tree prefix gets interfaces_path items (λ q r a b.
        leaves q r (elim a [ inl e ↦ inl e | inr c ↦ inr (inr c) ])
          (elim b [ inl e ↦ inl e | inr c ↦ inr (inr c) ]))
      ∙ ap gathered none_there in
    let versions =
      store_items-gathered tree prefix gets scheme_version_path items
        (λ q r a b. leaves q r (inr a) (inr b))
      ∙ ap gathered some_there in
    let args : tree.Data = store_items tree prefix tree.new items in
    ap (λ o. take_interfaces tree is_mac args o >>= to_scheme_version tree) no_interfaces
    ∙ ap (take_version tree args) versions
