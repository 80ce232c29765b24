-- ===== src/Config/Kubelet.antt =====
-- `GetKubeletArgs` and `sanitized` of pkg/config/config.go. The label syntax of
-- Kubernetes and the copy that mergo makes are parameters.
use harvester_installer.Prelude.{
  All, Bool, List, Result, String, [], arith, concat_text, err, fail_if, if◌then◌else◌, is_empty,
  join, not, ok, refl, succeeds, true, ◌++◌, ◌==◌, ◌>>=◌, ◌>>◌, ◌↔◌, ◌∷◌, ◌≡◌,
}
use harvester_installer.Config.Types.{Dict, HarvesterConfig, role_witness, sanitize_mask}

pub record LabelRules : Type 0 where
  pub is_qualified_name : String → Bool
  pub is_valid_label_value : String → Bool

pub data LabelError : Type 0 where
  invalid_label_name : String → LabelError
  invalid_label_value : String → LabelError

module _ (rules : LabelRules) where
  -- The loop over the labels.
  unfoldable pub label_strs : Dict → Result LabelError (List String)
  label_strs [] = ok []
  label_strs ((label_name, label_value) ∷ labels) = do
    fail_if (not (rules.is_qualified_name label_name)) (invalid_label_name label_name)
    fail_if (not (rules.is_valid_label_value label_value)) (invalid_label_value label_value)
    rest ← label_strs labels
    ok (concat_text label_name (concat_text "=" label_value) ∷ rest)

  unfoldable pub get_kubelet_args : HarvesterConfig → Result LabelError (List String)
  unfolding join
  get_kubelet_args c = do
    strs ← label_strs c.os.labels
    let labels = if is_empty strs then [] else concat_text "node-labels=" (join "," strs) ∷ []
    let taints =
        if c.install.role == role_witness
        then "--register-with-taints=node-role.kubernetes.io/etcd=true:NoExecute" ∷ []
        else []
    ok ("max-pods=200" ∷ (labels ++ taints))

  abbrev pub IsLabel : String × String → Type 0
  IsLabel l = (rules.is_qualified_name l.0 ≡ true) × (rules.is_valid_label_value l.1 ≡ true)

  label_strs-succeeds : (labels : Dict) → (succeeds (label_strs labels) ≡ true) ↔ All IsLabel labels
  unfolding label_strs
  label_strs-succeeds [] = (λ h. tt, λ h. refl)
  label_strs-succeeds ((n, v) ∷ labels) = (
    ground (arith, (label_strs-succeeds labels).0),
    ground (arith, (label_strs-succeeds labels).1),
  )

  args-succeeds :
      (c : HarvesterConfig) (strs : Result LabelError (List String))
      → label_strs c.os.labels ≡ strs
      → succeeds (get_kubelet_args c) ≡ succeeds strs
  unfolding get_kubelet_args
  args-succeeds c (ok strs) h = rw h
  args-succeeds c (err e) h = rw h

  -- The arguments of the kubelet are computed exactly when every label has a qualified name and a
  -- valid value.
  pub get_kubelet_args-succeeds :
      (c : HarvesterConfig) → (succeeds (get_kubelet_args c) ≡ true) ↔ All IsLabel c.os.labels
  get_kubelet_args-succeeds c = rw (args-succeeds c _ refl) (label_strs-succeeds c.os.labels)

-- A deep copy by mergo, and its failure, are a parameter.
unfoldable pub sanitized :
    (HarvesterConfig → Result String HarvesterConfig)
    → HarvesterConfig
    → Result String HarvesterConfig
sanitized deep_copy c = do
  copied ← deep_copy c
  let o = copied.os
  let masked =
      if not (o.password == "")
      then record copied { os = record o { password = sanitize_mask } }
      else copied
  ok (if not (masked.token == "") then record masked { token = sanitize_mask } else masked)
