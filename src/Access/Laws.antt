-- ===== src/Access/Laws.antt =====
-- What a grant of one access type covers: pkg/common/access.go.
use orion_belt.Prelude.{String, arith, eq_iff, true, ◌↔◌, ◌≡◌, ◌⊎◌}
use orion_belt.Access.{access_type_both, access_type_covers, access_type_scp, access_type_ssh}

-- A grant covers exactly its own type, and "both" covers ssh and scp besides.
pub access_type_covers_iff :
    (g w : String)
    → (access_type_covers g w ≡ true)
      ↔ ((g ≡ w) ⊎ (g ≡ access_type_both) × ((w ≡ access_type_ssh) ⊎ (w ≡ access_type_scp)))
unfolding access_type_covers
access_type_covers_iff g w = (
  λ h. ground (arith, eq_iff g w, eq_iff g "both", eq_iff w "ssh", eq_iff w "scp"),
  λ h. ground (arith, eq_iff g w, eq_iff g "both", eq_iff w "ssh", eq_iff w "scp"),
)
