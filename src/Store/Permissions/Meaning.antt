-- ===== src/Store/Permissions/Meaning.antt =====
-- What the WHERE clauses on grants say of a row, and of the table.
use orion_belt.Prelude.{
  Any, Any-any, Any-map, List, Option, String, any-Any, arith, eq_iff, ltb→lt, lt→ltb, none, refl,
  some, true, ℕ, ◌<◌, ◌==◌, ◌↔◌, ◌≡◌, ◌⊎◌,
}
use orion_belt.Access.{access_type_covers}
use orion_belt.Types.{Permission}
use orion_belt.Store.Permissions.{grants, grants_as, has_text, type_matches, unexpired}

-- The type of a grant covers the wanted type.
abbrev pub CoversType : String → String → Type 0
CoversType have wanted = (have ≡ wanted) ⊎ ((have ≡ "both") × ((wanted ≡ "ssh") ⊎ (wanted ≡ "scp")))

-- The grant has not ended at `t`.
abbrev pub IsLive : Option ℕ → ℕ → Type 0
IsLive none t = Unit
IsLive (some e) t = t < e

abbrev pub Listed : String → List String → Type 0
Listed s = Any (λ x. x ≡ s)

-- The row is a grant of the wanted type to the user on the machine, and live at `t`.
pub record Grants (t : ℕ) (user_id machine_id access_type : String) (p : Permission) : Type 0 where
  pub user : p.user_id ≡ user_id
  pub machine : p.machine_id ≡ machine_id
  pub covers : CoversType p.access_type access_type
  pub live : IsLive p.expires_at t

-- The same, and the remote account is listed.
pub record GrantsAs (t : ℕ) (user_id machine_id access_type remote_user : String) (p : Permission)
    : Type 0 where
  pub grant : Grants t user_id machine_id access_type p
  pub account : Listed remote_user p.remote_users

pub type_matches_iff : (g w : String) → (type_matches g w ≡ true) ↔ CoversType g w
type_matches_iff g w = (
  λ h. ground (arith, eq_iff g w, eq_iff g "both", eq_iff w "ssh", eq_iff w "scp"),
  λ h. ground (arith, eq_iff g w, eq_iff g "both", eq_iff w "ssh", eq_iff w "scp"),
)

-- The gateway's own test of a type is the one of the SQL statements.
pub access_type_covers-type_matches : (g w : String) → access_type_covers g w ≡ type_matches g w
unfolding access_type_covers
access_type_covers-type_matches g w = ground arith

pub unexpired_iff : (e : Option ℕ) (t : ℕ) → (unexpired e t ≡ true) ↔ IsLive e t
unexpired_iff none t = (λ _. tt, λ _. refl)
unexpired_iff (some e) t = (ltb→lt t e, lt→ltb t e)

pub has_text_iff : (s : String) (xs : List String) → (has_text s xs ≡ true) ↔ Listed s xs
has_text_iff s xs = (
  λ h. Any-map (λ x. (eq_iff x s).0) (any-Any (λ x. x == s) xs h),
  λ h. Any-any (λ x. x == s) xs (Any-map (λ x. (eq_iff x s).1) h),
)

pub grants_iff :
    (t : ℕ) (u m a : String) (p : Permission) → (grants t u m a p ≡ true) ↔ Grants t u m a p
unfolding grants
grants_iff t u m a p =
    let covers = type_matches_iff p.access_type a in
    let live = unexpired_iff p.expires_at t in
    (
      λ h. record {
        user = ground (arith, eq_iff p.user_id u);
        machine = ground (arith, eq_iff p.machine_id m);
        covers = covers.0 (ground arith);
        live = live.0 (ground arith);
      },
      λ h. rw (
        (eq_iff p.user_id u).1 h.user,
        (eq_iff p.machine_id m).1 h.machine,
        covers.1 h.covers,
        live.1 h.live,
      ),
    )

pub grants_as_iff :
    (t : ℕ) (u m a r : String) (p : Permission)
    → (grants_as t u m a r p ≡ true) ↔ GrantsAs t u m a r p
unfolding grants_as
grants_as_iff t u m a r p = (
  λ h. record {
    grant = (grants_iff t u m a p).0 (ground arith);
    account = (has_text_iff r p.remote_users).0 (ground arith);
  },
  λ h. rw ((grants_iff t u m a p).1 h.grant, (has_text_iff r p.remote_users).1 h.account),
)
