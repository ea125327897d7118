-- ===== src/Kube/Client/Objects.antt =====
-- A binding as an object of the Kubernetes API and back: pkg/kube/client.go.
use orion_belt.Prelude.{
  Option, arith, eq_refl, false, if◌then◌else◌, inl, inr, none, refl, some, text_cases, true, ℕ,
  ◌*◌, ◌/◌, ◌==◌, ◌≡◌,
}
use orion_belt.Kube.Client.{
  TimeText, annotation_expires_at, entry_text, expiry_entry, from_object, to_object, user_subject,
}
use orion_belt.Kube.Binding.{Binding, key, kind, same_second, same_spec}

-- RFC 3339 keeps whole seconds, and no time is written as the empty text.
pub record IsRfc3339 (times : TimeText) : Type 0 where
  pub whole_seconds : (t : ℕ) → times.parse (times.format t) ≡ some (t / 1000000000 * 1000000000)
  pub some_text : (t : ℕ) → (times.format t == "") ≡ false

-- An expiry to the second.
abbrev pub to_second : Option ℕ → Option ℕ
to_second none = none
to_second (some t) = some (t / 1000000000 * 1000000000)

module _ (times : TimeText) (law : IsRfc3339 times) where
  namespace_back :
      (b : Binding) → (if kind b == "ClusterRoleBinding" then "" else b.namespace) ≡ b.namespace
  namespace_back b = elim (text_cases b.namespace "") [ inl e ↦ rw e refl | inr e ↦ rw e refl ]

  expiry_back :
      (e : Option ℕ)
      → (let raw = entry_text annotation_expires_at (expiry_entry times e) in
          if raw == "" then none else times.parse raw)
        ≡ to_second e
  unfolding entry_text
  expiry_back none = refl
  expiry_back (some t) = rw (law.some_text t) (law.whole_seconds t)

  -- A binding that is written to the cluster reads back as it was, its expiry to the second.
  pub from_object-to_object :
      (b : Binding)
      → from_object times (to_object times b) ≡ record b { expires_at = to_second b.expires_at }
  unfolding from_object to_object entry_text user_subject
  from_object-to_object b = rw (namespace_back b, expiry_back b.expires_at) refl

  same_second_stored : (e : Option ℕ) → same_second (to_second e) e ≡ true
  same_second_stored none = refl
  same_second_stored (some t) = ground arith

  -- What is read back has the specification and the key of what was written.
  pub stored_same :
      (b : Binding)
      → (same_spec (from_object times (to_object times b)) b ≡ true)
        × (key (from_object times (to_object times b)) ≡ key b)
  unfolding same_spec key
  stored_same b = rw (from_object-to_object b) (
    rw (eq_refl b.cluster_role, eq_refl b.subject, eq_refl b.permission)
        (same_second_stored b.expires_at),
    refl,
  )
