-- ===== src/Live/Hub/Open.antt =====
-- Which channels the hub sends to and closes: pkg/recording/hub.go.
use orion_belt.Prelude.{
  Bool-cases, List, String, [], ap, arith, eqb, false, inl, inr, keep, length, ltb, ltb→lt, not,
  refl, some, suc, sym, true, ℕ, ◌++◌, ◌<◌, ◌∙◌, ◌∷◌, ◌≡◌, ◌≤◌,
}
use orion_belt.Live.Hub.{
  Channel, SessionHub, channel_size, close_all, close_channel, has_channel, send, send_all,
  set_channel,
}

abbrev pub Single : List ℕ → Type 0
Single [] = Unit
Single (c ∷ cs) = (has_channel c cs ≡ false) × Single cs

-- Each watched channel is open and was made by the hub, belongs to one session and is listed once, and
-- no channel holds more than its size.
pub record IsOpen (h : SessionHub) : Type 0 where
  pub opened :
      (id : String) (c : ℕ) → has_channel c (h.subs id) ≡ true → (h.channels c).closed ≡ false
  pub made : (id : String) (c : ℕ) → has_channel c (h.subs id) ≡ true → c < h.next
  pub once :
      (i j : String) (c : ℕ)
      → has_channel c (h.subs i) ≡ true
      → has_channel c (h.subs j) ≡ true
      → i ≡ j
  pub single : (id : String) → Single (h.subs id)
  pub bounded : (c : ℕ) → length (h.channels c).queue ≤ channel_size

pub eqb_self : (c : ℕ) → eqb c c ≡ true
eqb_self c = ground arith

pub eqb_eq : (a b : ℕ) → eqb a b ≡ true → a ≡ b
eqb_eq a b h = ground arith

length-append_one : (q : List (List ℕ)) (x : List ℕ) → length (q ++ x ∷ []) ≡ suc (length q)
length-append_one [] x = refl
length-append_one (y ∷ q) x = ap suc (length-append_one q x)

-- What sending changes: no channel is closed by it, and none grows past its size.
abbrev pub Kept : (ℕ → Channel) → (ℕ → Channel) → Type 0
Kept channels k =
    (i : ℕ)
    → ((k i).closed ≡ (channels i).closed)
      × (length (channels i).queue ≤ 64 → length (k i).queue ≤ 64)

send-Kept :
    (chunk : List ℕ) (c : ℕ) (channels : ℕ → Channel)
    → (channels c).closed ≡ false
    → (k : ℕ → Channel) × (send chunk c channels ≡ some k) × Kept channels k
unfolding send
send-Kept chunk c channels o = elim (Bool-cases (ltb (length (channels c).queue) channel_size)) [
  | inr e ↦ (channels, rw (o, e) refl, λ i. (refl, λ l. l))
  | inl e ↦ (
    set_channel c (record (channels c) { queue = (channels c).queue ++ chunk ∷ [] }) channels,
    rw (o, e) refl,
    λ i. elim (Bool-cases (eqb i c)) [
      | inl f ↦
          let g : i ≡ c = eqb_eq i c f in
          rw (f, g, length-append_one (channels c).queue chunk) (refl, λ l. ltb→lt _ _ e)
      | inr f ↦ rw f (refl, λ l. l)
    ],
  )
]

pub send_all-Kept :
    (chunk : List ℕ) (cs : List ℕ) (channels : ℕ → Channel)
    → ((c : ℕ) → has_channel c cs ≡ true → (channels c).closed ≡ false)
    → (k : ℕ → Channel) × (send_all chunk cs channels ≡ some k) × Kept channels k
unfolding send_all
send_all-Kept chunk [] channels o = (channels, refl, λ i. (refl, λ l. l))
send_all-Kept chunk (c ∷ cs) channels o =
    let (k, e, kept) = send-Kept chunk c channels (o c (rw (eqb_self c) refl)) in
    let (m, f, more) = send_all-Kept chunk cs k (λ d h.
      (kept d).0 ∙ o d (elim (Bool-cases (eqb c d)) [ inl g ↦ rw g refl | inr g ↦ rw g h ])) in
    (m, ground (arith, e, f), λ i. ((more i).0 ∙ (kept i).0, λ l. (more i).1 ((kept i).1 l)))

opening :
    (c : ℕ) (cs : List ℕ) (channels k : ℕ → Channel)
    → (channels c).closed ≡ false
    → close_all cs (set_channel c (record (channels c) { closed = true }) channels) ≡ some k
    → close_all (c ∷ cs) channels ≡ some k
unfolding close_all close_channel
opening c cs channels k o f = rw (close_all, close_channel, o) f

pub close_all-others :
    (cs : List ℕ) (channels : ℕ → Channel)
    → Single cs
    → ((c : ℕ) → has_channel c cs ≡ true → (channels c).closed ≡ false)
    → (k : ℕ → Channel) × (close_all cs channels ≡ some k)
      × ((i : ℕ) → (k i).queue ≡ (channels i).queue)
      × ((i : ℕ) → has_channel i cs ≡ false → (k i).closed ≡ (channels i).closed)
unfolding close_all close_channel
close_all-others [] channels s o = (channels, refl, λ i. refl, λ i h. refl)
close_all-others (c ∷ cs) channels s o =
    let shut = set_channel c (record (channels c) { closed = true }) channels in
    let same : (d : ℕ) → has_channel d cs ≡ true → eqb d c ≡ false = λ d h.
      elim (Bool-cases (eqb d c)) [
        | inr g ↦ g
        | inl g ↦ absurd (cc (sym h ∙ (ap (λ x. has_channel x cs) (eqb_eq d c g) ∙ s.0)))
      ] in
    let (k, f, queues, rest) = close_all-others cs shut s.1 (λ d h.
      rw (same d h) (o d (elim (Bool-cases (eqb c d)) [ inl g ↦ rw g refl | inr g ↦ rw g h ]))) in
    (
      k,
      opening c cs channels k (o c (rw (eqb_self c) refl)) f,
      λ i.
          queues i
          ∙ (elim (Bool-cases (eqb i c)) [ inl g ↦ rw (g, eqb_eq i c g) refl | inr g ↦ rw g refl ]),
      λ i h. elim (Bool-cases (eqb c i)) [
        | inl g ↦ absurd (cc (rw g at h))
        | inr g ↦
            let back : eqb i c ≡ false = ground (arith, g) in rest i (rw g at h) ∙ rw back refl
      ],
    )

pub other_kept :
    (c d : ℕ) (cs : List ℕ)
    → has_channel c (keep (λ i. not (eqb i d)) cs) ≡ true
    → (has_channel c cs ≡ true) × (eqb c d ≡ false)
other_kept c d [] h = absurd (cc h)
other_kept c d (x ∷ xs) h = elim (Bool-cases (eqb x d)) [
  | inl e ↦ let r = other_kept c d xs (rw e at h) in (rw r.0 (ground arith), r.1)
  | inr e ↦ elim (Bool-cases (eqb x c)) [
    | inl f ↦ (rw f refl, ground (arith, e, f))
    | inr f ↦ let r = other_kept c d xs (rw (e, f) at h) in (rw f r.0, r.1)
  ]
]

keep-absent :
    (c d : ℕ) (cs : List ℕ)
    → has_channel c cs ≡ false
    → has_channel c (keep (λ i. not (eqb i d)) cs) ≡ false
keep-absent c d [] h = refl
keep-absent c d (x ∷ xs) h = elim (Bool-cases (eqb x d)) [
  | inl e ↦ rw e (keep-absent c d xs (ground (arith, h)))
  | inr e ↦ rw (e, keep-absent c d xs (ground (arith, h))) (ground (arith, h))
]

pub keep-Single : (d : ℕ) (cs : List ℕ) → Single cs → Single (keep (λ i. not (eqb i d)) cs)
keep-Single d [] s = tt
keep-Single d (x ∷ xs) s = elim (Bool-cases (eqb x d)) [
  | inl e ↦ rw e (keep-Single d xs s.1)
  | inr e ↦ rw e (keep-absent x d xs s.0, keep-Single d xs s.1)
]
