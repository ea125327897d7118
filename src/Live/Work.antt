-- ===== src/Live/Work.antt =====
-- The work of an agent and its draining: pkg/agent/manage.go.
pub mod Draining
use orion_belt.Prelude.{
  Bool, List, Option, [], any, eqb, false, if◌then◌else◌, keep, length, none, not, some, suc, true,
  ℕ, ◌&&◌, ◌||◌, ◌∷◌,
}

-- The drains of an agent are numbered. A drain makes two channels: `done`, which it returns, and
-- `idle`, which the work closes when it ends; the two lists have the drains whose channel is closed.
-- The entries of `active` are ids.
pub record Work : Type 0 where
  pub draining : Bool
  pub next : ℕ
  pub active : List ℕ
  pub idle : Option ℕ
  pub drains : ℕ
  pub idle_closed : List ℕ
  pub done_closed : List ℕ

abbrev pub new_work : Work
new_work = record {
  draining = false;
  next = 0;
  active = [];
  idle = none;
  drains = 0;
  idle_closed = [];
  done_closed = [];
}

abbrev pub drop_id : ℕ → List ℕ → List ℕ
drop_id id ids = keep (λ x. not (eqb x id)) ids

abbrev pub is_idle : List ℕ → Bool
is_idle [] = true
is_idle (x ∷ xs) = false

-- `begin`: the id of the work, none where the agent drains.
unfoldable pub begin_work : Work → Option ℕ × Work
begin_work w =
    if w.draining
    then (none, w)
    else (some w.next, record w { next = suc w.next; active = w.next ∷ w.active })

-- The function that `begin` returns.
unfoldable pub end_work : ℕ → Work → Work
end_work id w =
    let left = drop_id id w.active in
    elim w.idle [
      | none ↦ record w { active = left }
      | some c ↦
          if w.draining && is_idle left
          then record w { active = left; idle = none; idle_closed = c ∷ w.idle_closed }
          else record w { active = left }
    ]

abbrev pub has_number : List ℕ → ℕ → Bool
has_number xs c = any (λ x. eqb x c) xs

-- `drain`: the number of the drain, whose `done` is returned, closed at once where nothing runs.
unfoldable pub drain : Work → ℕ × Work
drain w =
    if is_idle w.active
    then (
      w.drains,
      record w { draining = true; drains = suc w.drains; done_closed = w.drains ∷ w.done_closed },
    )
    else (w.drains, record w { draining = true; idle = some w.drains; drains = suc w.drains })

-- The goroutine of a drain, when its `idle` is closed: it closes `done`. It waits otherwise, and has
-- ended once `done` is closed.
unfoldable pub drain_wakes : ℕ → Work → Work
drain_wakes d w =
    if has_number w.idle_closed d && not (has_number w.done_closed d)
    then record w { done_closed = d ∷ w.done_closed }
    else w

-- The goroutine of a drain, when its timeout comes first: the work that it closes, and `done`.
-- Nothing is left to do where its wait is over.
unfoldable pub drain_timeout : ℕ → Work → List ℕ × Work
drain_timeout d w =
    if has_number w.idle_closed d || has_number w.done_closed d
    then ([], w)
    else (w.active, record w { done_closed = d ∷ w.done_closed })

unfoldable pub undrain : Work → Work
undrain w = record w { draining = false; idle = none }

unfoldable pub work_status : Work → Bool × ℕ
work_status w = (w.draining, length w.active)
