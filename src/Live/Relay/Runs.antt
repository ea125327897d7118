-- ===== src/Live/Relay/Runs.antt =====
-- The states that the tunnels and the kubectl relays of one client's connection reach:
-- pkg/server/kube.go and pkg/server/tunnel.go.
use orion_belt.Prelude.{
  Bool, Bool-cases, Option, String, ap, arith, inl, inr, ltb, none, refl, some, subst, suc, sym,
  text_cases, text_ne, true, zero, ℕ, ◌&&◌, ◌+◌, ◌∙◌, ◌≡◌, ◌≢◌,
}
use text.Mathlib.TextLemmas.{append_cancel_right, append_inj, length-append}
use Prim.Native.String.{count}
use orion_belt.Live.Conn.Bounded.{
  Reached, Reached-acquire, Reached-fields, acquired, confirmed, opened, released,
}
use orion_belt.Access.{access_type_k8s, access_type_rdp, access_type_vnc, is_tunnel_access_type}
use orion_belt.Apperr.{Result-cases, err, ok, ◌+++◌}
use orion_belt.Live.Relay.{
  after_check, authorize_kube, connect_kube, kube_key, open_kube_relay, released_slot,
}
use orion_belt.World.{Env, World, step}
use orion_belt.Live.Conn.{ClientConn, acquire, allowed, new_client_conn, release, remember}
use orion_belt.Auth.{check_exact_access}
use orion_belt.Types.{Machine}
use orion_belt.Store.{get_machine_by_name}

-- What a tunnel's handler remembers: `machine.ID + "|" + protocol`.
abbrev pub tunnel_key : String → String → String
tunnel_key machine_id protocol = machine_id +++ "|" +++ protocol

same_end : (a b s t : String) → count s ≡ count t → a +++ s ≡ b +++ t → s ≡ t
same_end a b s t n e =
    let l : count a + count s ≡ count b + count t =
      sym (length-append a s) ∙ ap count e ∙ length-append b t in
    (append_inj e (omega arith)).1

-- A tunnel's key is no kubectl relay's.
tunnel_key-kube_key :
    (a m protocol : String)
    → is_tunnel_access_type protocol ≡ true
    → tunnel_key a protocol ≢ kube_key m
unfolding is_tunnel_access_type
tunnel_key-kube_key a m protocol h e = elim (text_cases protocol access_type_rdp) [
  | inl p ↦ absurd (
      text_ne ("|" +++ access_type_rdp) ("|" +++ access_type_k8s) refl
        (same_end a m ("|" +++ access_type_rdp) ("|" +++ access_type_k8s) refl (rw p at e)))
  | inr p ↦ elim (text_cases protocol access_type_vnc) [
    | inl q ↦ absurd (
        text_ne ("|" +++ access_type_vnc) ("|" +++ access_type_k8s) refl
          (same_end a m ("|" +++ access_type_vnc) ("|" +++ access_type_k8s) refl (rw q at e)))
    | inr q ↦ absurd (ground (arith, h, p, q))
  ]
]

kube_key_inj : (a b : String) → kube_key a ≡ kube_key b → a ≡ b
kube_key_inj a b e = append_cancel_right a b ("|" +++ access_type_k8s) e

module _ (env : Env) where
  -- The check of `u` for the cluster passed, in a world after which the clock read `t`.
  pub record IsPassed (u m : String) (t : ℕ) : Type 0 where
    pub before : World
    pub after : World
    pub passed : check_exact_access env u m access_type_k8s before ≡ (ok tt, after)
    pub at : t ≡ env.clock after.tick

  -- A key of a kubectl relay is remembered only when its check passed.
  abbrev pub IsChecked : String → String → ℕ → Type 0
  IsChecked u key t = (m : String) → key ≡ kube_key m → IsPassed u m t

  -- The connection after runs of the handlers: kubectl relays that are opened, or are not, and that
  -- end, and tunnels that take a slot, give it back, and remember their own keys.
  pub data Runs (user username : String) (ttl limit : ℕ) : ClientConn → Type 0 where
    connected : Runs user username ttl limit (new_client_conn user username ttl limit)
    relay_opened :
        {c : ClientConn} (agent_ready : String → Bool) (channels_open : Bool) (cluster : String)
        (w : World)
        → Runs user username ttl limit c
        → Runs user username ttl limit (open_kube_relay env agent_ready channels_open cluster c w).1
    slot_taken :
        {c : ClientConn}
        → Runs user username ttl limit c
        → Runs user username ttl limit (acquire c).1
    slot_given_back :
        {c : ClientConn}
        → Runs user username ttl limit c
        → Runs user username ttl limit (released_slot c)
    tunnel_allowed :
        {c : ClientConn} (machine_id protocol : String) (now : ℕ)
        → is_tunnel_access_type protocol ≡ true
        → Runs user username ttl limit c
        → Runs user username ttl limit (remember c (tunnel_key machine_id protocol) now)

  module _ (user username : String) (ttl limit : ℕ) where
    abbrev pub Known : ClientConn → Type 0
    Known c = (n : ℕ) × Reached (IsChecked user) user username ttl limit n c

    Known-acquire : (c : ClientConn) → Known c → Known (acquire c).1
    unfolding acquire
    Known-acquire c (n, r) = elim (Bool-cases (ltb c.slots c.limit)) [
      | inl e ↦ (suc n, acquired r (rw e refl))
      | inr e ↦ rw e (n, r)
    ]

    Known-given :
        (c : ClientConn) (n : ℕ) (o : Option ClientConn)
        → Reached (IsChecked user) user username ttl limit n c
        → release c ≡ o
        → Known (elim o [ none ↦ c | some d ↦ d ])
    Known-given c n none r e = (n, r)
    Known-given c zero (some d) r e = absurd (cc (e, (Reached-acquire r).2.1 refl))
    Known-given c (suc n) (some d) r e = (n, released r e)

    Known-released_slot : (c : ClientConn) → Known c → Known (released_slot c)
    Known-released_slot c (n, r) = Known-given c n (release c) r refl

    Known-connect_kube :
        (agent_ready : String → Bool) (channels_open : Bool) (m : String) (c : ClientConn)
        (w : World)
        → Known c
        → Known (connect_kube env agent_ready channels_open m c w).1
    unfolding connect_kube
    Known-connect_kube ready channels_open m c w k = elim (Bool-cases (ready m && channels_open)) [
      | inl e ↦ rw e k
      | inr e ↦ rw e (Known-released_slot c k)
    ]

    Known-after_check :
        (agent_ready : String → Bool) (channels_open : Bool) (m : String) (c : ClientConn)
        (w : World)
        → Known c
        → Known
            (after_check env agent_ready channels_open m c
              (check_exact_access env user m access_type_k8s w)).1
    unfolding after_check
    Known-after_check ready channels_open m c w (n, r) =
        let check = check_exact_access env user m access_type_k8s w in
        let key = kube_key m in
        let now = env.clock check.1.tick in
        elim (Result-cases check.0) [
          | inl (e, f) ↦ rw f (Known-released_slot c (n, r))
          | inr (x, f) ↦
              let passed : IsChecked user key now = λ j same. record {
                before = w;
                after = check.1;
                passed =
                    subst (λ i. check_exact_access env user i access_type_k8s w ≡ (ok tt, check.1))
                      (kube_key_inj m j same) (ground (arith, f));
                at = refl;
              } in
              rw f (
                Known-connect_kube ready channels_open m (remember c key now) (step check.1)
                  (n, confirmed key now passed r))
        ]

    Known-authorize_kube :
        (agent_ready : String → Bool) (channels_open : Bool) (m : Machine) (c : ClientConn)
        (w : World)
        → Known c
        → Known (authorize_kube env agent_ready channels_open m c w).1
    unfolding authorize_kube
    Known-authorize_kube ready channels_open m c w (n, r) =
        let known : Known c = (n, r) in
        let same : c.user_id ≡ user = (Reached-fields r).4 in
        elim (Bool-cases (allowed c (kube_key m.id) (env.clock w.tick))) [
          | inl e ↦ rw e (Known-connect_kube ready channels_open m.id c (step w) known)
          | inr e ↦ rw e (
              subst
                (λ u.
                  Known
                    (after_check env ready channels_open m.id c
                      (check_exact_access env u m.id access_type_k8s (step w))).1)
                (sym same) (Known-after_check ready channels_open m.id c (step w) known))
        ]

    Known-open_kube_relay :
        (agent_ready : String → Bool) (channels_open : Bool) (cluster : String) (c : ClientConn)
        (w : World)
        → Known c
        → Known (open_kube_relay env agent_ready channels_open cluster c w).1
    unfolding open_kube_relay
    Known-open_kube_relay ready channels_open cluster c w k =
        let held = Known-acquire c k in
        let lookup = get_machine_by_name env cluster w in
        elim (Bool-cases (acquire c).0) [
          | inr full ↦ rw full held
          | inl taken ↦ elim (Result-cases lookup.0) [
            | inl (e, f) ↦
                let answer : lookup ≡ (err e, lookup.1) = ground (arith, f) in
                rw (taken, answer) (Known-released_slot (acquire c).1 held)
            | inr (m, f) ↦
                let answer : lookup ≡ (ok m, lookup.1) = ground (arith, f) in
                rw (taken, answer)
                  (Known-authorize_kube ready channels_open m (acquire c).1 lookup.1 held)
          ]
        ]

    -- The handlers' runs are calls that the connection's slots and keys are made for: a key of a
    -- kubectl relay is remembered only where its check passed.
    pub Runs-Known : (c : ClientConn) → Runs user username ttl limit c → Known c
    Runs-Known c connected = (0, opened)
    Runs-Known c (relay_opened {c = b} ready channels_open cluster w r) =
        Known-open_kube_relay ready channels_open cluster b w (Runs-Known b r)
    Runs-Known c (slot_taken {c = b} r) = Known-acquire b (Runs-Known b r)
    Runs-Known c (slot_given_back {c = b} r) = Known-released_slot b (Runs-Known b r)
    Runs-Known c (tunnel_allowed {c = b} m protocol now h r) =
        let (n, reached) = Runs-Known b r in
        (
          n,
          confirmed (tunnel_key m protocol) now
              (λ j same. absurd (tunnel_key-kube_key m j protocol h same)) reached,
        )
