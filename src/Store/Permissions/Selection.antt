-- ===== src/Store/Permissions/Selection.antt =====
-- The row that `FindActivePermission` selects.
use orion_belt.Prelude.{
  Any, Any-keep, Bool, Bool-cases, List, Option, [], here, if◌then◌else◌, inl, inr, keep, ltb, none,
  some, some-injective, there, true, ◌∷◌, ◌≡◌,
}
use orion_belt.Store.Permissions.{newest}
use orion_belt.Types.{Permission}

newest-Any : (xs : List Permission) (p : Permission) → newest xs ≡ some p → Any (λ q. q ≡ p) xs
unfolding newest
newest-Any [] p h = cc
newest-Any (x ∷ xs) p h = pick (newest xs) (newest-Any xs p) h
  where
    pick :
        (o : Option Permission)
        → (o ≡ some p → Any (λ q. q ≡ p) xs)
        → (elim o [
          | none ↦ some x
          | some q ↦ if ltb x.granted_at q.granted_at then some q else some x
        ])
          ≡ some p
        → Any (λ q. q ≡ p) (x ∷ xs)
    pick none rest k = here (some-injective x p k)
    pick (some q) rest k = elim (Bool-cases (ltb x.granted_at q.granted_at)) [
      | inl later ↦ there (rest (rw later at k))
      | inr first ↦ here (some-injective x p (rw first at k))
    ]

-- The grant that is found is a row of the table that meets the conditions of the query.
pub newest-keep :
    (test : Permission → Bool) (xs : List Permission) (p : Permission)
    → newest (keep test xs) ≡ some p
    → Any (λ q. (q ≡ p) × (test q ≡ true)) xs
newest-keep test xs p h = Any-keep test xs (newest-Any (keep test xs) p h)
