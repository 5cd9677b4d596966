-- ===== src/Service/Balances/Moves.antt =====
-- What one attempt of the running lookups of `get_address_token_balances` of service.py changes.
use algorandscout.Client.Config.{Config}
use algorandscout.Client.Transport.{Outcome, again, finished, outcome, send, sleep}
use algorandscout.Prelude.{
  List, Option, [], ap, arith, length, none, refl, suc, zero, ℕ, ◌+◌, ◌<◌, ◌∷◌, ◌≡◌, ◌≤◌,
}
use algorandscout.Python.{Platform, Result, Value, ok, raise}
use algorandscout.Service.Balances.{
  Lookup, Phase, act, asset_path, asset_url, ended, go_on, holds, is_queued, over, queued, running,
  trying, turn, waiting,
}
use algorandscout.Service.Balances.Assets.{settled}
use algorandscout.World.{World, continue, pure, ◌>>=◌}

-- The attempts that a lookup may still make.
abbrev pub left_of : Phase → ℕ
left_of queued = 3
left_of (trying left n) = suc left
left_of (over found) = 0

abbrev pub attempts_left : List Lookup → ℕ
attempts_left [] = 0
attempts_left ((id, p) ∷ l) = left_of p + attempts_left l

abbrev pub ids_of : List Lookup → List Value
ids_of [] = []
ids_of ((id, p) ∷ l) = id ∷ ids_of l

abbrev pub After : {A : Type 0} → (A → Type 0) → Result A → Type 0
After Q (ok a) = Q a
After Q (raise e) = Unit

-- An attempt was used up, none entered, and the ids are the same.
abbrev pub Fewer : List Lookup → List Lookup → Type 0
Fewer jobs jobs' =
    (attempts_left jobs' < attempts_left jobs)
    × (running jobs' ≤ running jobs)
    × (waiting jobs' ≡ waiting jobs)
    × (ids_of jobs' ≡ ids_of jobs)

-- One request was sent, and an attempt used up.
abbrev pub Moved : List Lookup → World → Result (List Lookup) × World → Type 0
Moved jobs w (r, w') =
    (w'.upstream ≡ w.upstream) × (length w'.sent ≡ suc (length w.sent)) × After (Fewer jobs) r

-- A lookup in front of those among which one moves.
∷-Moved :
    (j : Lookup) (l : List Lookup) (w : World) (r : Result (List Lookup) × World)
    → Moved l w r
    → Moved (j ∷ l) w (continue (λ rest. pure (j ∷ rest)) r)
unfolding pure
∷-Moved (id, p) l w (raise e, w') (up, one, h) = (up, one, tt)
∷-Moved (id, p) l w (ok rest, w') (up, one, (a, b, e, s)) =
    (up, one, (omega arith, omega arith, omega arith, ap (◌∷◌ id) s))

-- A lookup that moves.
head-Moved :
    (id : Value) (left n : ℕ) (l : List Lookup) (w : World) (r : Result Phase × World)
    → (r.1.upstream ≡ w.upstream)
    → (length r.1.sent ≡ suc (length w.sent))
    → After (λ p. (left_of p < suc left) × (holds p ≤ 1) × (is_queued p ≡ 0)) r.0
    → Moved ((id, trying left n) ∷ l) w (continue (λ p. pure ((id, p) ∷ l)) r)
unfolding pure
head-Moved id left n l w (raise e, w') up one h = (up, one, tt)
head-Moved id left n l w (ok p, w') up one (a, b, e) =
    (up, one, (omega arith, omega arith, omega arith, refl))

settled-After :
    (r : Result (Option Value)) (left : ℕ)
    → After (λ p. (left_of p < suc left) × (holds p ≤ 1) × (is_queued p ≡ 0)) (ended r)
settled-After (ok v) left = (omega arith, omega arith, refl)
settled-After (raise e) left = tt

go_on-Moved :
    (P : Platform) (c : Config) (id : Value) (o : Outcome) (left n : ℕ) (l : List Lookup)
    → (w w' : World) → (w'.upstream ≡ w.upstream)
    → (length w'.sent ≡ suc (length w.sent))
    → Moved ((id, trying left n) ∷ l) w (continue (λ p. pure ((id, p) ∷ l)) (go_on P c o left n w'))
unfolding go_on sleep
go_on-Moved P c id (finished r) left n l w w' up one =
    head-Moved id left n l w (ended (settled r), w') up one (settled-After (settled r) left)
go_on-Moved P c id (again e pause) zero n l w w' up one =
    head-Moved id zero n l w (ok (over none), w') up one (omega arith, omega arith, refl)
go_on-Moved P c id (again e pause) (suc left) n l w w' up one =
    head-Moved id (suc left) n l w (ok (trying left (n + 1)), sleep n pause w') up one
      (omega arith, omega arith, refl)

module _ (P : Platform) (c : Config) where
  turn-Moved :
      (id : Value) (left n : ℕ) (l : List Lookup) (w : World)
      → Moved
          ((id, trying left n) ∷ l)
          w
          (continue (λ p. pure ((id, p) ∷ l)) (turn P c id left n w))
  unfolding turn send
  turn-Moved id left n l w =
      go_on-Moved P c id
        (outcome P (asset_path P c id) (asset_url P c id)
          (w.upstream (length w.sent) (asset_url P c id)))
        left n l w (send (asset_url P c id) w).1 refl refl

  pub act-Moved :
      (k : ℕ) (jobs : List Lookup) (w : World) → k < running jobs → Moved jobs w (act P c k jobs w)
  unfolding act ◌>>=◌
  act-Moved k [] w h = elim h [ ]
  act-Moved zero ((id, trying left n) ∷ l) w h = turn-Moved id left n l w
  act-Moved (suc k) ((id, trying left n) ∷ l) w h = ∷-Moved _ l w _ (act-Moved k l w (omega arith))
  act-Moved zero ((id, queued) ∷ l) w h = ∷-Moved _ l w _ (act-Moved zero l w (omega arith))
  act-Moved zero ((id, over v) ∷ l) w h = ∷-Moved _ l w _ (act-Moved zero l w (omega arith))
  act-Moved (suc k) ((id, queued) ∷ l) w h = ∷-Moved _ l w _ (act-Moved (suc k) l w (omega arith))
  act-Moved (suc k) ((id, over v) ∷ l) w h = ∷-Moved _ l w _ (act-Moved (suc k) l w (omega arith))
