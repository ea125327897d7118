-- ===== src/Challenge/Store.antt =====
-- The challenge store: pkg/api/challenge.go. Bytes are numbers below 256.
use orion_belt.Prelude.{
  Bool, List, Option, String, [], any, code, eqb, false, if◌then◌else◌, keep, leb, length, ltb,
  ltb_ℤ, negsuc, none, not, pos, some, suc, true, zero, ℕ, ℤ, ◌%◌, ◌&&◌, ◌*◌, ◌++◌, ◌+◌, ◌-◌, ◌/◌,
  ◌^◌, ◌∷◌,
}
use orion_belt.Apperr.{◌+++◌}

-- The libraries that the store calls: base64 without padding, and the HMAC under the store's key.
pub record Codec : Type 0 where
  pub encode : List ℕ → String
  pub decode : String → Option (List ℕ)
  pub mac : List ℕ → String → List ℕ → List ℕ

pub record ChallengeStore : Type 0 where
  pub key : List ℕ
  -- nonce and expiry, in nanoseconds
  pub redeemed : List (List ℕ × ℤ)

pub data ChallengeError : Type 0 where
  challenge_invalid : ChallengeError
  too_many_pending : ChallengeError

abbrev pub challenge_ttl : ℕ
challenge_ttl = 60 * 1000000000

abbrev pub max_redeemed_challenges : ℕ
max_redeemed_challenges = 100000

abbrev pub same_bytes : List ℕ → List ℕ → Bool
same_bytes [] [] = true
same_bytes [] (y ∷ ys) = false
same_bytes (x ∷ xs) [] = false
same_bytes (x ∷ xs) (y ∷ ys) = eqb x y && same_bytes xs ys

abbrev pub take_bytes : ℕ → List ℕ → List ℕ
take_bytes zero xs = []
take_bytes (suc n) [] = []
take_bytes (suc n) (x ∷ xs) = x ∷ take_bytes n xs

abbrev pub drop_bytes : ℕ → List ℕ → List ℕ
drop_bytes zero xs = xs
drop_bytes (suc n) [] = []
drop_bytes (suc n) (x ∷ xs) = drop_bytes n xs

-- `binary.BigEndian.Uint64`
abbrev pub big_endian : ℕ → List ℕ → ℕ
big_endian acc [] = acc
big_endian acc (x ∷ xs) = big_endian (acc * 256 + x) xs

-- `binary.BigEndian.PutUint64`
abbrev pub put_big_endian : ℕ → ℕ → List ℕ
put_big_endian zero n = []
put_big_endian (suc k) n = (n / 256 ^ k) % 256 ∷ put_big_endian k n

-- `int64` of a `uint64`
abbrev pub to_int64 : ℕ → ℤ
to_int64 n = if ltb n (2 ^ 63) then pos n else negsuc (2 ^ 64 - suc n)

abbrev pub nanoseconds : ℤ → ℤ
nanoseconds (pos n) = pos (n * 1000000000)
nanoseconds (negsuc n) = negsuc (n * 1000000000 + 999999999)

abbrev pub cut_dot : String → Option (String × String)
cut_dot String.[] = none
cut_dot (String.◌∷◌ c s) =
    let rest = cut_dot s in
    if eqb (code c) 46
    then some ("", s)
    else elim rest [ none ↦ none | some r ↦ some (String.◌∷◌ c r.0, r.1) ]

abbrev pub is_redeemed : List (List ℕ × ℤ) → List ℕ → Bool
is_redeemed rs nonce = any (λ r. same_bytes r.0 nonce) rs

-- `gcLocked`
unfoldable pub gc_locked : ℕ → List (List ℕ × ℤ) → List (List ℕ × ℤ)
gc_locked now rs = keep (λ r. ltb_ℤ (pos now) r.1) rs

-- The part of `verify` under the lock.
unfoldable pub redeem : ChallengeStore → ℕ → List ℕ → ℤ → Option ChallengeError × ChallengeStore
unfolding gc_locked
redeem s now nonce expires =
    if is_redeemed s.redeemed nonce
    then (some challenge_invalid, s)
    else let rs =
        if leb max_redeemed_challenges (length s.redeemed)
        then gc_locked now s.redeemed
        else s.redeemed in
      let s' : ChallengeStore = record { key = s.key; redeemed = rs } in
      if leb max_redeemed_challenges (length rs)
      then (some too_many_pending, s')
      else (none, record { key = s.key; redeemed = (nonce, expires) ∷ rs })

-- `verify` from the test of the expiry on.
unfoldable pub redeem_live :
    ChallengeStore → ℕ → List ℕ → ℤ → Option ChallengeError × ChallengeStore
unfolding redeem
redeem_live s now nonce expires =
    if not (ltb_ℤ (pos now) expires)
    then (some challenge_invalid, s)
    else redeem s now nonce expires

unfoldable pub expiry_of : List ℕ → ℤ
expiry_of payload = nanoseconds (to_int64 (big_endian 0 (drop_bytes 16 payload)))

module _ (codec : Codec) where
  -- `Issue`: `nonce` is what `rand.Read` returned, none where it failed.
  unfoldable pub issue : ChallengeStore → ℕ → Option (List ℕ) → String → Option String
  issue s now none username = none
  issue s now (some nonce) username =
      let payload = nonce ++ put_big_endian 8 ((now + challenge_ttl) / 1000000000) in
      some (codec.encode payload +++ "." +++ codec.encode (codec.mac s.key username payload))

  abbrev checked : List ℕ → String → Option (List ℕ) → Option (List ℕ) → Option (List ℕ)
  checked key username none got = none
  checked key username (some payload) none = none
  checked key username (some payload) (some got) =
      if eqb (length payload) 24 && same_bytes got (codec.mac key username payload)
      then some payload
      else none

  -- The payload of a challenge that a store with the key issued for the user.
  unfoldable pub authentic : List ℕ → String → String → Option (List ℕ)
  authentic key username value = elim (cut_dot value) [
    | none ↦ none
    | some (payload_text, mac_text) ↦
        checked key username (codec.decode payload_text) (codec.decode mac_text)
  ]

  -- `verify`: its error, none where the challenge is accepted, and the store after it.
  unfoldable pub verify :
      ChallengeStore → ℕ → String → String → Option ChallengeError × ChallengeStore
  unfolding authentic redeem_live expiry_of
  verify s now username value = elim (authentic s.key username value) [
    | none ↦ (some challenge_invalid, s)
    | some payload ↦ redeem_live s now (take_bytes 16 payload) (expiry_of payload)
  ]
