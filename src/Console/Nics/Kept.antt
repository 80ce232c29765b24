-- ===== src/Console/Nics/Kept.antt =====
-- pkg/console/network.go: which NICs are kept.
use harvester_installer.Prelude.{
  All, Among, Bool, Bool-cases, List, Result, Result-cases, String, [], err, false, if◌then◌else◌,
  inl, inr, ok, refl, true, ◌==◌, ◌>>=◌, ◌↔◌, ◌∷◌, ◌≡◌, ◌⊎◌,
}
use harvester_installer.Console.Nics.{
  Link, LinkTools, delete, filter_iscsi_interfaces, filter_nics_by_session, filtered, get_nics,
  hw_device_map, is_nic, is_used, is_vlan,
}

-- The last link of its hardware address in a list.
abbrev pub IsLastOf : Link → List Link → Type 0
IsLastOf l [] = ⊥
IsLastOf l (v ∷ vs) = IsLastOf l vs ⊎ ((l ≡ v) × All (λ w. (l.hw_addr == w.hw_addr) ≡ false) vs)

delete_iff :
    (hw_addr : String) (l : Link) (ls : List Link)
    → Among l (delete hw_addr ls) ↔ Among l ls × ((l.hw_addr == hw_addr) ≡ false)
unfolding delete
delete_iff hw_addr l [] = (λ a. absurd a, λ h. absurd h.0)
delete_iff hw_addr l (v ∷ vs) =
    let (to, back) = delete_iff hw_addr l vs in
    elim (Bool-cases (v.hw_addr == hw_addr)) [
      | inl e ↦ rw e (
        λ a. (inr (to a).0, (to a).1),
        λ h. elim h.0 [ inl same ↦ cc (h.1, e, same) | inr a ↦ back (a, h.1) ],
      )
      | inr e ↦ rw e (
        λ a. elim a [ inl same ↦ (inl same, cc (e, same)) | inr b ↦ (inr (to b).0, (to b).1) ],
        λ h. elim h.0 [ inl same ↦ inl same | inr a ↦ inr (back (a, h.1)) ],
      )
    ]

hw_device_map_iff :
    (l : Link) (devices nics : List Link)
    → Among l (hw_device_map devices nics)
      ↔ (IsLastOf l nics ⊎ (Among l devices × All (λ w. (l.hw_addr == w.hw_addr) ≡ false) nics))
unfolding hw_device_map
hw_device_map_iff l devices [] = (λ a. inr (a, tt), λ h. elim h [ inl a ↦ absurd a | inr a ↦ a.0 ])
hw_device_map_iff l devices (v ∷ vs) =
    let (to, back) = hw_device_map_iff l (v ∷ delete v.hw_addr devices) vs in
    let (gone, stays) = delete_iff v.hw_addr l devices in
    (
      λ a. elim (to a) [
        | inl last ↦ inl (inl last)
        | inr (inl same, later) ↦ inl (inr (same, later))
        | inr (inr b, later) ↦ inr ((gone b).0, ((gone b).1, later))
      ],
      λ h. elim h [
        | inl (inl last) ↦ back (inl last)
        | inl (inr (same, later)) ↦ back (inr (inl same, later))
        | inr (b, (apart, later)) ↦ back (inr (inr (stays (b, apart)), later))
      ],
    )

module _ (t : LinkTools) (sessions : List String) where
  -- No link of a list that a session uses has the hardware address.
  abbrev pub IsFreeOf : Link → List Link → Type 0
  IsFreeOf l = All (λ k. is_used t sessions k ≡ ok true → (l.hw_addr == k.hw_addr) ≡ false)

  -- Whether the next link takes a device away.
  next_iff :
      (used : Result String Bool) (l k : Link) (devices kept : List Link)
      (next : List Link → Result String (List Link)) (Rest : Type 0)
      → is_used t sessions k ≡ used
      → ((from : List Link) → next from ≡ ok kept → Among l kept ↔ Among l from × Rest)
      → (used >>= λ u. next (if u then delete k.hw_addr devices else devices)) ≡ ok kept
      → Among l kept
        ↔ Among l devices
          × ((is_used t sessions k ≡ ok true → (l.hw_addr == k.hw_addr) ≡ false) × Rest)
  next_iff (err e) l k devices kept next Rest same rest h = cc h
  next_iff (ok false) l k devices kept next Rest same rest h =
      let (to, back) = rest devices h in
      (λ a. ((to a).0, ((λ u. cc (same, u)), (to a).1)), λ b. back (b.0, b.1.1))
  next_iff (ok true) l k devices kept next Rest same rest h =
      let (to, back) = rest (delete k.hw_addr devices) h in
      let (gone, stays) = delete_iff k.hw_addr l devices in
      (
        λ a. let b = gone (to a).0 in (b.0, ((λ u. b.1), (to a).1)),
        λ b. back (stays (b.0, b.1.0 same), b.1.1),
      )

  filter_nics_by_session_iff :
      (l : Link) (devices links kept : List Link)
      → filter_nics_by_session t sessions devices links ≡ ok kept
      → Among l kept ↔ Among l devices × IsFreeOf l links
  unfolding filter_nics_by_session
  filter_nics_by_session_iff l devices [] kept h =
      let same : kept ≡ devices = cc h in rw same (λ a. (a, tt), λ b. b.0)
  filter_nics_by_session_iff l devices (k ∷ links) kept h =
      next_iff (is_used t sessions k) l k devices kept
        (λ from. filter_nics_by_session t sessions from links) (IsFreeOf l links) refl
        (λ from g. filter_nics_by_session_iff l from links kept g) h

-- Where an iSCSI session is found, the NICs that are offered are the NICs that are the last of all
-- with their hardware address, if no NIC and no VLAN that a session uses has this address.
pub get_nics_iff :
    (t : LinkTools) (links kept : List Link) (session : String) (sessions : List String)
    → t.link_list ≡ ok links
    → t.sessions ≡ ok (session ∷ sessions)
    → get_nics t ≡ ok kept
    → (l : Link)
    → Among l kept
      ↔ IsLastOf l (filtered is_nic links)
        × (IsFreeOf t (session ∷ sessions) l (filtered is_nic links)
            × IsFreeOf t (session ∷ sessions) l (filtered is_vlan links))
unfolding get_nics filter_iscsi_interfaces
get_nics_iff t links kept session sessions listed found h l =
    let all : List String = session ∷ sessions in
    let nics : List Link = filtered is_nic links in
    let vlans : List Link = filtered is_vlan links in
    let devices : List Link = hw_device_map [] nics in
    elim (Result-cases (filter_nics_by_session t all devices nics)) [
      | inl (e, failed) ↦ cc (rw (listed, found, failed) at h)
      | inr (first, done) ↦
          let h' = rw (listed, found, done) at h in
          let (to, back) = filter_nics_by_session_iff t all l first vlans kept h' in
          let (to_nic, back_nic) = filter_nics_by_session_iff t all l devices nics first done in
          let (to_map, back_map) = hw_device_map_iff l [] nics in
          (
            λ a.
                let b = to_nic (to a).0 in
                (elim (to_map b.0) [ inl last ↦ last | inr c ↦ absurd c.0 ], (b.1, (to a).1)),
            λ b. back (back_nic (back_map (inl b.0), b.1.0), b.1.1),
          )
    ]
