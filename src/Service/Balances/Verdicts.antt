-- ===== src/Service/Balances/Verdicts.antt =====
-- What the lookups of `get_address_token_balances` of service.py return, in any order of attempts.
use algorandscout.Client.Config.{Config}
use algorandscout.Client.Transport.{
  Outcome, Outcome-cases, again, attempts, finished, max_retries, outcome, send, sleep,
}
use algorandscout.Prelude.{
  All, List, Option, Text, [], ap, inl, inr, length, none, refl, suc, sym, zero, ℕ, ◌+◌, ◌-◌, ◌∙◌,
  ◌∷◌, ◌≡◌, ◌⊎◌,
}
use algorandscout.Python.{AlgorandError, Exception, Float, Platform, Result, Value, ok, raise}
use algorandscout.Service.{answer}
use algorandscout.Service.Balances.{
  Lookup, act, asset_path, asset_url, ended, go_on, over, queued, resolve_one, trying, turn,
}
use algorandscout.Service.Balances.Assets.{settled}
use algorandscout.Service.Balances.Moves.{ids_of}
use algorandscout.World.{Attempt, World, continue, pure, ◌>>=◌}

-- Some element has the property.
abbrev pub Any : {A : Type 0} → (A → Type 0) → List A → Type 0
Any Q [] = ⊥
Any Q (x ∷ l) = Q x ⊎ Any Q l

-- The upstream answers by what it is asked, and not by when.
abbrev pub AnswersByUrl : (Text → Attempt) → World → Type 0
AnswersByUrl answer w = (n : ℕ) (url : Text) → w.upstream n url ≡ answer url

unfoldable of_outcome : Outcome → Result (Option Value)
of_outcome (finished r) = settled r
of_outcome (again e pause) = ok none

abbrev pub Told : {A : Type 0} → (A → Type 0) → (Exception → Type 0) → Result A → Type 0
Told Q R (ok a) = Q a
Told Q R (raise e) = R e

module _ (P : Platform) (c : Config) (answer : Text → Attempt) where
  unfoldable pub verdict : Value → Result (Option Value)
  unfolding of_outcome
  verdict id =
      of_outcome (outcome P (asset_path P c id) (asset_url P c id) (answer (asset_url P c id)))

  attempts-finished :
      (left n : ℕ) (path url : Text) (w : World) (r : Result Value)
      → outcome P path url (w.upstream (length w.sent) url) ≡ finished r
      → (attempts P left n path url w).0 ≡ r
  unfolding attempts send outcome
  attempts-finished zero n path url w r e = rw e refl
  attempts-finished (suc left) n path url w r e = rw e refl

  attempts-again :
      (left n : ℕ) (path url : Text) (w : World) (x : AlgorandError) (pause : Option Float)
      → AnswersByUrl answer w
      → outcome P path url (answer url) ≡ again x pause
      → settled (attempts P left n path url w).0 ≡ ok none
  unfolding attempts send sleep settled outcome
  attempts-again zero n path url w x pause h e =
      let e' = ap (outcome P path url) (h (length w.sent) url) ∙ e in rw e' refl
  attempts-again (suc left) n path url w x pause h e =
      let e' = ap (outcome P path url) (h (length w.sent) url) ∙ e in
      rw e' (attempts-again left (n + 1) path url _ x pause h e)

  attempts-of_outcome :
      (left n : ℕ) (path url : Text) (w : World)
      → AnswersByUrl answer w
      → settled (attempts P left n path url w).0 ≡ of_outcome (outcome P path url (answer url))
  unfolding attempts send sleep of_outcome
  attempts-of_outcome left n path url w h = elim (Outcome-cases (outcome P path url (answer url))) [
    | inl (r, e) ↦ rw (attempts-finished left n path url w r (met h e), e) refl
    | inr (x, pause, e) ↦ rw e (attempts-again left n path url w x pause h e)
  ]
    where
      met :
          {o : Outcome}
          → AnswersByUrl answer w
          → outcome P path url (answer url) ≡ o
          → outcome P path url (w.upstream (length w.sent) url) ≡ o
      met h e = ap (outcome P path url) (h (length w.sent) url) ∙ e

  pub resolve_one-verdict :
      (id : Value) (w : World) → AnswersByUrl answer w → (resolve_one P c id w).0 ≡ verdict id
  unfolding resolve_one verdict
  resolve_one-verdict id w h = attempts-of_outcome (max_retries - 1) 1 _ _ w h

  -- What has returned is what the upstream's answer leads to.
  abbrev pub Fits : Lookup → Type 0
  Fits (id, queued) = Unit
  Fits (id, trying left n) = Unit
  Fits (id, over found) = verdict id ≡ ok found

  abbrev pub Fitting : List Lookup → Result (List Lookup) × World → Type 0
  Fitting jobs (r, w') =
      AnswersByUrl answer w'
      × Told (All Fits) (λ e. Any (λ id. verdict id ≡ raise e) (ids_of jobs)) r

  ∷-Fitting :
      (j : Lookup) (l : List Lookup) (r : Result (List Lookup) × World)
      → Fits j
      → Fitting l r
      → Fitting (j ∷ l) (continue (λ rest. pure (j ∷ rest)) r)
  unfolding pure
  ∷-Fitting (id, p) l (ok rest, w') q (h, k) = (h, (q, k))
  ∷-Fitting (id, p) l (raise e, w') q (h, k) = (h, inr k)

  settled-Fitting :
      (id : Value) (r : Result (Option Value)) (left n : ℕ) (l : List Lookup) (w : World)
      → verdict id ≡ r
      → AnswersByUrl answer w
      → All Fits l
      → Fitting ((id, trying left n) ∷ l) (continue (λ p. pure ((id, p) ∷ l)) (ended r, w))
  unfolding pure
  settled-Fitting id (ok v) left n l w e h k = (h, (e, k))
  settled-Fitting id (raise x) left n l w e h k = (h, inl e)

  go_on-Fitting :
      (id : Value) (o : Outcome) (left n : ℕ) (l : List Lookup) (w : World)
      → verdict id ≡ of_outcome o
      → AnswersByUrl answer w
      → All Fits l
      → Fitting
          ((id, trying left n) ∷ l)
          (continue (λ p. pure ((id, p) ∷ l)) (go_on P c o left n w))
  unfolding go_on of_outcome sleep pure
  go_on-Fitting id (finished r) left n l w e h k = settled-Fitting id (settled r) left n l w e h k
  go_on-Fitting id (again x pause) zero n l w e h k = (h, (e, k))
  go_on-Fitting id (again x pause) (suc left) n l w e h k = (h, (tt, k))

  turn-Fitting :
      (id : Value) (left n : ℕ) (l : List Lookup) (w : World)
      → AnswersByUrl answer w
      → All Fits l
      → Fitting
          ((id, trying left n) ∷ l)
          (continue (λ p. pure ((id, p) ∷ l)) (turn P c id left n w))
  unfolding turn send verdict
  turn-Fitting id left n l w h k =
      let url = asset_url P c id in
      go_on-Fitting id (outcome P (asset_path P c id) url (w.upstream (length w.sent) url)) left n l
        (send url w).1
        (ap (λ a. of_outcome (outcome P (asset_path P c id) url a)) (sym (h (length w.sent) url))) h
        k

  pub act-Fitting :
      (k : ℕ) (jobs : List Lookup) (w : World)
      → AnswersByUrl answer w
      → All Fits jobs
      → Fitting jobs (act P c k jobs w)
  unfolding act ◌>>=◌ pure
  act-Fitting k [] w h a = (h, tt)
  act-Fitting zero ((id, trying left n) ∷ l) w h (q, a) = turn-Fitting id left n l w h a
  act-Fitting (suc k) ((id, trying left n) ∷ l) w h (q, a) =
      ∷-Fitting _ l _ q (act-Fitting k l w h a)
  act-Fitting zero ((id, queued) ∷ l) w h (q, a) = ∷-Fitting _ l _ q (act-Fitting zero l w h a)
  act-Fitting zero ((id, over v) ∷ l) w h (q, a) = ∷-Fitting _ l _ q (act-Fitting zero l w h a)
  act-Fitting (suc k) ((id, queued) ∷ l) w h (q, a) =
      ∷-Fitting _ l _ q (act-Fitting (suc k) l w h a)
  act-Fitting (suc k) ((id, over v) ∷ l) w h (q, a) =
      ∷-Fitting _ l _ q (act-Fitting (suc k) l w h a)
