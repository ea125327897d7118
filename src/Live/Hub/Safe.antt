-- ===== src/Live/Hub/Safe.antt =====
-- The states that the hub's calls reach: pkg/recording/hub.go.
use orion_belt.Prelude.{
  Bool-cases, List, String, [], ap, arith, eq_refl, eqb, false, inl, inr, keep, length, not, refl,
  some, subst, sym, text_cases, text_ne, true, ℕ, ◌==◌, ◌∙◌, ◌∷◌, ◌≡◌, ◌≤◌, ◌⊎◌,
}
use orion_belt.Live.Hub.{
  Call, SessionHub, apply, broadcast, close_channel, close_session, finish, has_channel,
  new_session_hub, output, receive, run_calls, set_channel, set_subs, subscribe, take_chunk,
  unsubscribe, unwatch, watch,
}
use orion_belt.Live.Hub.Open.{
  IsOpen, close_all-others, eqb_eq, keep-Single, other_kept, send_all-Kept,
}

in_set_subs :
    (c : ℕ) (id i : String) (cs : List ℕ) (subs : String → List ℕ)
    → has_channel c (set_subs id cs subs i) ≡ true
    → ((i ≡ id) × (has_channel c cs ≡ true))
      ⊎ (((i == id) ≡ false) × (has_channel c (subs i) ≡ true))
in_set_subs c id i cs subs h = elim (text_cases i id) [
  | inl e ↦ inl (e, rw (e, eq_refl id) at h)
  | inr e ↦ inr (e, rw e at h)
]

new-IsOpen : IsOpen new_session_hub
unfolding new_session_hub
new-IsOpen = record {
  opened = λ id c h. refl;
  made = λ id c h. absurd (cc h);
  once = λ i j c h k. absurd (cc h);
  single = λ id. tt;
  bounded = λ c. ground arith;
}

broadcast-IsOpen :
    (h : SessionHub) (id : String) (chunk : List ℕ)
    → IsOpen h
    → (k : SessionHub) × (broadcast h id chunk ≡ some k) × IsOpen k
unfolding broadcast
broadcast-IsOpen h id [] o = (h, refl, o)
broadcast-IsOpen h id (b ∷ bs) o =
    let (channels, e, kept) = send_all-Kept (b ∷ bs) (h.subs id) h.channels (o.opened id) in
    (
      record h { channels = channels },
      rw (broadcast, e) refl,
      record {
        opened = λ i c m. (kept c).0 ∙ o.opened i c m;
        made = o.made;
        once = o.once;
        single = o.single;
        bounded = λ c. (kept c).1 (o.bounded c);
      },
    )

close_session-IsOpen :
    (h : SessionHub) (id : String)
    → IsOpen h
    → (k : SessionHub) × (close_session h id ≡ some k) × IsOpen k
unfolding close_session
close_session-IsOpen h id o =
    let (channels, e, queues, rest) =
      close_all-others (h.subs id) h.channels (o.single id) (o.opened id) in
    let old : (i : String) (c : ℕ)
        → has_channel c (set_subs id [] h.subs i) ≡ true
        → ((i == id) ≡ false) × (has_channel c (h.subs i) ≡ true) =
      λ i c m. elim (in_set_subs c id i [] h.subs m) [ inl q ↦ absurd (cc (q.1)) | inr q ↦ q ] in
    (
      record h { subs = set_subs id [] h.subs; channels = channels },
      rw (close_session, e) refl,
      record {
        opened = λ i c m.
            let (other, was) = old i c m in
            rest c (elim (Bool-cases (has_channel c (h.subs id))) [
              | inl q ↦ absurd (text_ne i id other (o.once i id c was q))
              | inr q ↦ q
            ])
            ∙ o.opened i c was;
        made = λ i c m. o.made i c (old i c m).1;
        once = λ i j c m n. o.once i j c (old i c m).1 (old j c n).1;
        single = λ i. elim (text_cases i id) [
          | inl q ↦ rw (q, eq_refl id) tt
          | inr q ↦ rw q (o.single i)
        ];
        bounded = λ c. rw (queues c) (o.bounded c);
      },
    )

subscribe-IsOpen : (h : SessionHub) (id : String) → IsOpen h → IsOpen (subscribe h id).1
unfolding subscribe
subscribe-IsOpen h id o =
    let fresh : (i : String) → has_channel h.next (h.subs i) ≡ false = λ i.
      elim (Bool-cases (has_channel h.next (h.subs i))) [
        | inl q ↦ let l = o.made i h.next q in absurd (ground (arith, l))
        | inr q ↦ q
      ] in
    let old : (i : String) (c : ℕ)
        → has_channel c (set_subs id (h.next ∷ h.subs id) h.subs i) ≡ true
        → ((i ≡ id) × (eqb c h.next ≡ true))
          ⊎ ((eqb c h.next ≡ false) × (has_channel c (h.subs i) ≡ true)) =
      λ i c m. elim (Bool-cases (eqb c h.next)) [
        | inl q ↦ elim (in_set_subs c id i (h.next ∷ h.subs id) h.subs m) [
          | inl r ↦ inl (r.0, q)
          | inr r ↦
              absurd
                (cc (sym r.1 ∙ (ap (λ x. has_channel x (h.subs i)) (eqb_eq c h.next q) ∙ fresh i)))
        ]
        | inr q ↦ inr (
          q,
          elim (in_set_subs c id i (h.next ∷ h.subs id) h.subs m) [
            | inl r ↦ let back : eqb h.next c ≡ false = ground (arith, q) in rw r.0 (rw back at r.1)
            | inr r ↦ r.1
          ],
        )
      ] in
    record {
      opened =
          λ i c m. elim (old i c m) [ inl q ↦ rw q.1 refl | inr q ↦ rw q.0 (o.opened i c q.1) ];
      made = λ i c m. elim (old i c m) [
        | inl q ↦ ground (arith, q.1)
        | inr q ↦ let l = o.made i c q.1 in ground (arith, l)
      ];
      once = λ i j c m n. elim (old i c m) [
        | inl q ↦ elim (old j c n) [ inl r ↦ q.0 ∙ sym r.0 | inr r ↦ absurd (cc (sym q.1 ∙ r.0)) ]
        | inr q ↦ elim (old j c n) [
          | inl r ↦ absurd (cc (sym r.1 ∙ q.0))
          | inr r ↦ o.once i j c q.1 r.1
        ]
      ];
      single = λ i. elim (text_cases i id) [
        | inl q ↦ rw (q, eq_refl id) (fresh id, o.single id)
        | inr q ↦ rw q (o.single i)
      ];
      bounded = λ c. elim (Bool-cases (eqb c h.next)) [
        | inl q ↦ rw q (ground arith)
        | inr q ↦ rw q (o.bounded c)
      ];
    }

queue_cases :
    (q : List (List ℕ)) → (q ≡ []) ⊎ ((x : List ℕ) × (rest : List (List ℕ)) × (q ≡ x ∷ rest))
queue_cases [] = inl refl
queue_cases (x ∷ rest) = inr (x, rest, refl)

receive-IsOpen : (h : SessionHub) (c : ℕ) → IsOpen h → IsOpen (receive h c)
unfolding receive
receive-IsOpen h c o = elim (queue_cases (h.channels c).queue) [
  | inl e ↦ rw (receive, e) o
  | inr (x, rest, e) ↦
      let fewer : length rest ≤ 64 = let l = o.bounded c in ground (arith, e, l) in
      rw (receive, e)
        (record {
          opened = λ i d m. elim (Bool-cases (eqb d c)) [
            | inl q ↦ rw (q, sym (eqb_eq d c q)) (o.opened i d m)
            | inr q ↦ rw q (o.opened i d m)
          ];
          made = o.made;
          once = o.once;
          single = o.single;
          bounded =
              λ d. elim (Bool-cases (eqb d c)) [ inl q ↦ rw q fewer | inr q ↦ rw q (o.bounded d) ];
        })
]

unsubscribe-IsOpen :
    (h : SessionHub) (id : String) (c : ℕ)
    → IsOpen h
    → (k : SessionHub) × (unsubscribe h id c ≡ some k) × IsOpen k
unfolding unsubscribe close_channel
unsubscribe-IsOpen h id c o = elim (Bool-cases (has_channel c (h.subs id))) [
  | inr e ↦ (h, rw (unsubscribe, e) refl, o)
  | inl e ↦
      let left = keep (λ i. not (eqb i c)) (h.subs id) in
      let old : (i : String) (d : ℕ)
          → has_channel d (set_subs id left h.subs i) ≡ true
          → (eqb d c ≡ false) × (has_channel d (h.subs i) ≡ true) =
        λ i d m. elim (in_set_subs d id i left h.subs m) [
          | inl q ↦ let r = other_kept d c (h.subs id) q.1 in (r.1, rw q.0 r.0)
          | inr q ↦ (
            elim (Bool-cases (eqb d c)) [
              | inl r ↦ absurd (
                  text_ne i id q.0 (
                    o.once i id c (subst (λ x. has_channel x (h.subs i) ≡ true) (eqb_eq d c r) q.1)
                      e))
              | inr r ↦ r
            ],
            q.1,
          )
        ] in
      (
        record h {
          subs = set_subs id left h.subs;
          channels = set_channel c (record (h.channels c) { closed = true }) h.channels;
        },
        rw (unsubscribe, close_channel, e, o.opened id c e) refl,
        record {
          opened = λ i d m. rw (old i d m).0 (o.opened i d (old i d m).1);
          made = λ i d m. o.made i d (old i d m).1;
          once = λ i j d m n. o.once i j d (old i d m).1 (old j d n).1;
          single = λ i. elim (text_cases i id) [
            | inl q ↦ rw (q, eq_refl id) (keep-Single c (h.subs id) (o.single id))
            | inr q ↦ rw q (o.single i)
          ];
          bounded = λ d. elim (Bool-cases (eqb d c)) [
            | inl q ↦ rw q (o.bounded c)
            | inr q ↦ rw q (o.bounded d)
          ];
        },
      )
]

apply-IsOpen :
    (call : Call) (h : SessionHub)
    → IsOpen h
    → (k : SessionHub) × (apply call h ≡ some k) × IsOpen k
unfolding apply
apply-IsOpen (watch id) h o = ((subscribe h id).1, refl, subscribe-IsOpen h id o)
apply-IsOpen (unwatch id c) h o = unsubscribe-IsOpen h id c o
apply-IsOpen (output id chunk) h o = broadcast-IsOpen h id chunk o
apply-IsOpen (finish id) h o = close_session-IsOpen h id o
apply-IsOpen (take_chunk c) h o = (receive h c, refl, receive-IsOpen h c o)

run_calls_from :
    (calls : List Call) (h : SessionHub)
    → IsOpen h
    → (k : SessionHub) × (run_calls calls h ≡ some k) × IsOpen k
unfolding run_calls
run_calls_from [] h o = (h, refl, o)
run_calls_from (c ∷ cs) h o =
    let (k, e, p) = apply-IsOpen c h o in
    let (m, f, q) = run_calls_from cs k p in (m, ground (arith, e, f), q)

-- Whatever calls a hub gets, in whatever order, none panics: every channel that it sends to or closes
-- is open, and no channel ever holds more than 64 chunks.
pub run_calls-IsOpen :
    (calls : List Call) → (k : SessionHub) × (run_calls calls new_session_hub ≡ some k) × IsOpen k
run_calls-IsOpen calls = run_calls_from calls new_session_hub new-IsOpen
