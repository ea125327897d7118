-- ===== src/Live/Conn/Bounded.antt =====
-- The states that a connection's calls reach: pkg/server/resilience.go.
use orion_belt.Prelude.{
  List, String, [], ap, arith, eq_refl, false, if◌then◌else◌, inl, inr, keep, ltb, ltb→lt, none,
  not, refl, some, subst, suc, text_cases, true, ℕ, ◌+◌, ◌<◌, ◌==◌, ◌↔◌, ◌∷◌, ◌≡◌, ◌≤◌, ◌⊎◌,
}
use orion_belt.Live.Conn.{
  ClientConn, acquire, allowed, allowed_until, new_client_conn, release, remember,
}

-- The connection after some calls, with the number of tunnels that hold a slot. A key is remembered
-- where the access it stands for was allowed at that time.
pub data Reached (IsAllowed : String → ℕ → Type 0) (user username : String) (ttl limit : ℕ)
    : ℕ → ClientConn → Type 0 where
  opened : Reached IsAllowed user username ttl limit 0 (new_client_conn user username ttl limit)
  acquired :
      {n : ℕ} {c d : ClientConn}
      → Reached IsAllowed user username ttl limit n c
      → acquire c ≡ (true, d)
      → Reached IsAllowed user username ttl limit (suc n) d
  released :
      {n : ℕ} {c d : ClientConn}
      → Reached IsAllowed user username ttl limit (suc n) c
      → release c ≡ some d
      → Reached IsAllowed user username ttl limit n d
  confirmed :
      {n : ℕ} {c : ClientConn} (key : String) (now : ℕ)
      → IsAllowed key now
      → Reached IsAllowed user username ttl limit n c
      → Reached IsAllowed user username ttl limit n (remember c key now)

other_key :
    (key k : String) (m : List (String × ℕ))
    → (k == key) ≡ false
    → allowed_until key (keep (λ e. not (e.0 == k)) m) ≡ allowed_until key m
other_key key k [] h = refl
other_key key k ((j, t) ∷ m) h = elim (text_cases j k) [
  | inl e ↦ rw (e, eq_refl k, h) (other_key key k m h)
  | inr e ↦ rw e (ap (λ (x : ℕ). if j == key then t else x) (other_key key k m h))
]

module _ {IsAllowed : String → ℕ → Type 0} {user username : String} {ttl limit : ℕ} where
  pub Reached-fields :
      {n : ℕ} {c : ClientConn}
      → Reached IsAllowed user username ttl limit n c
      → (c.slots ≡ n) × (n ≤ limit) × (c.limit ≡ limit) × (c.grant_ttl ≡ ttl) × (c.user_id ≡ user)
  unfolding new_client_conn acquire release remember
  Reached-fields opened = (refl, ground arith, refl, refl, refl)
  Reached-fields (acquired r e) = let i = Reached-fields r in ground arith
  Reached-fields (released r e) = let i = Reached-fields r in ground arith
  Reached-fields (confirmed key now a r) = Reached-fields r

  -- However the calls of a connection interleave, no more tunnels hold a slot than its limit, a tunnel
  -- is refused exactly when as many hold one, and giving a slot back blocks only where none is held.
  pub Reached-acquire :
      {n : ℕ} {c : ClientConn}
      → Reached IsAllowed user username ttl limit n c
      → (n ≤ limit) × ((acquire c).0 ≡ ltb n limit) × ((release c ≡ none) ↔ (n ≡ 0))
  unfolding acquire release
  Reached-acquire r =
      let i = Reached-fields r in
      (i.1, ground (arith, i), (λ h. ground (arith, i), λ h. ground (arith, i)))

  allowed_keys :
      {n : ℕ} {c : ClientConn} (key : String)
      → Reached IsAllowed user username ttl limit n c
      → (allowed_until key c.grants ≡ 0)
        ⊎ ((t : ℕ) × IsAllowed key t × (allowed_until key c.grants ≡ t + ttl))
  unfolding new_client_conn acquire release remember
  allowed_keys key opened = inl refl
  allowed_keys {c = d} key (acquired {c = c} r e) =
      let same : d.grants ≡ c.grants = ground arith in rw same (allowed_keys key r)
  allowed_keys {c = d} key (released {c = c} r e) =
      let same : d.grants ≡ c.grants = ground arith in rw same (allowed_keys key r)
  allowed_keys key (confirmed {c = c} k now a r) =
      let ttl_same = (Reached-fields r).3 in
      elim (text_cases k key) [
        | inl e ↦ inr (now, subst (λ j. IsAllowed j now) e a, rw (e, eq_refl key, ttl_same) refl)
        | inr e ↦ rw (e, other_key key k c.grants e) (allowed_keys key r)
      ]

  -- A cached grant is honoured only within the connection's time limit after its access was allowed.
  pub Reached-allowed :
      {n : ℕ} {c : ClientConn} (key : String) (now : ℕ)
      → Reached IsAllowed user username ttl limit n c
      → allowed c key now ≡ true
      → (t : ℕ) × IsAllowed key t × (now < t + ttl)
  unfolding allowed
  Reached-allowed {c = c} key now r h =
      let before : now < allowed_until key c.grants = ltb→lt now (allowed_until key c.grants) h in
      elim (allowed_keys key r) [
        | inl z ↦ absurd (ground (arith, before))
        | inr (t, a, e) ↦ (t, a, rw e at before)
      ]
