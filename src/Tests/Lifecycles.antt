-- ===== src/Tests/Lifecycles.antt =====
-- Challenges, drains, sessions and Kubernetes bindings at concrete inputs.
use orion_belt.Challenge.Once.{same, verify_once}
use orion_belt.Prelude.{
  List, String, [], arith, false, inl, inr, none, refl, some, sym, true, ℕ, ◌∙◌, ◌∷◌, ◌≡◌, ◌≢◌,
}
use orion_belt.Challenge.Store.{ChallengeStore, Codec, verify}
use orion_belt.Live.Sessions.{Tracker, begin_session, new_tracker}
use orion_belt.Live.Work.{Work, begin_work, drain, drain_timeout, drain_wakes, has_number, undrain}
use orion_belt.Live.Work.Draining.{
  WorkCall, begins, drain-closes, drain_replaced, ends, run_calls, undrain-drain_timeout,
}
use orion_belt.Kube.Members.{In}
use orion_belt.Kube.Binding.{Binding, expired, key}

abbrev payload : List ℕ
payload =
    1 ∷ 2 ∷ 3 ∷ 4 ∷ 5 ∷ 6 ∷ 7 ∷ 8 ∷ 9 ∷ 10 ∷ 11 ∷ 12 ∷ 13 ∷ 14 ∷ 15 ∷ 16 ∷ 0 ∷ 0 ∷ 0 ∷ 0 ∷ 0 ∷ 0 ∷ 0
    ∷ 60 ∷ []

abbrev codec : Codec
codec = record { encode = λ xs. ""; decode = λ s. some payload; mac = λ k u p. payload }

abbrev challenges : ChallengeStore
challenges = record { key = []; redeemed = [] }

abbrev redeemed_once : ChallengeStore
redeemed_once = (verify codec challenges 5 "alice" "a.b").1

verify_once_example : (verify codec redeemed_once 9 "alice" "a.b").0 ≢ none
unfolding verify
verify_once_example =
    verify_once codec challenges redeemed_once 5 5 9 "alice" "a.b" refl same (ground arith)

abbrev busy : Work
busy = record {
  draining = false;
  next = 2;
  active = 1 ∷ 0 ∷ [];
  idle = none;
  drains = 0;
  idle_closed = [];
  done_closed = [];
}

abbrev work_calls : List WorkCall
work_calls = ends 0 ∷ begins ∷ ends 1 ∷ []

drain-closes_example :
    has_number (drain_wakes 0 (run_calls work_calls (drain busy).1)).done_closed 0 ≡ true
unfolding drain
drain-closes_example = drain-closes busy work_calls refl refl

drain_replaced_example :
    let later = run_calls work_calls (drain (drain busy).1).1 in
    (drain_wakes 0 later ≡ later) × ((drain_timeout 0 later).0 ≡ later.active)
unfolding drain
drain_replaced_example = drain_replaced busy work_calls refl refl refl

undrain-drain_timeout_example :
    has_number (drain_timeout 0 (begin_work (undrain (drain busy).1)).1).0 2 ≡ true
unfolding drain
undrain-drain_timeout_example = undrain-drain_timeout busy refl refl

abbrev one_session : Tracker
one_session = (begin_session new_tracker "s1").1

abbrev binding : String → Binding
binding role = record {
  name = "orion-1";
  namespace = "payments";
  cluster_role = role;
  subject = "orion:alice";
  user = "alice";
  permission = "p1";
  expires_at = some 500;
}

one_binding :
    (b c : Binding)
    → In b (binding "edit" ∷ [])
    → In c (binding "edit" ∷ [])
    → expired 100 b ≡ false
    → expired 100 c ≡ false
    → key b ≡ key c
    → b ≡ c
one_binding b c (inl i) (inl j) k l e = sym i ∙ j
one_binding b c (inr i) j k l e = absurd i
one_binding b c i (inr j) k l e = absurd j
