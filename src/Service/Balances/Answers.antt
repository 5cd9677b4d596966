-- ===== src/Service/Balances/Answers.antt =====
-- The answer of `get_address_token_balances` of service.py, for every order of its lookups.
use mathlib.Core.Path.{subst}
use algorandscout.Client.Reads
use algorandscout.Client.Config.{Config}
use algorandscout.Client.Transport.{Outcome-cases, attempts, get_json, outcome, send, sleep}
use algorandscout.Prelude.{
  Bool, List, Text, [], ap, arith, false, inl, inr, length, refl, suc, sym, true, zero, ℕ, ◌*◌, ◌+◌,
  ◌∙◌, ◌∷◌, ◌≡◌, ◌⊎◌,
}
use algorandscout.Python.{
  >>=-eq-ok, Exception, Fields, Platform, Result, Value, as_dict, as_list, get, list, ok, or_else,
  raise, text, traverse,
}
use algorandscout.Service.{answer}
use algorandscout.Service.Balances.{
  Lookup, gather, get_address_token_balances, resolve_all, resolve_one, started,
}
use algorandscout.Service.Balances.Assets.{asset_ids}
use algorandscout.Service.Balances.Orders.{IsSerial, alone, gather-resolve_one, returned}
use algorandscout.Service.Balances.Verdicts.{AnswersByUrl, Any}
use algorandscout.Validation.{validate_address}
use algorandscout.World.{Attempt, Net, World, continue, lift, pure, ◌>>=◌}

-- Two runs that return the same, or that both raise.
abbrev pub AreAlike : {A : Type 0} → Result A → Result A → Type 0
AreAlike r r' = (r ≡ r') ⊎ ((e : Exception) × (e' : Exception) × (r ≡ raise e) × (r' ≡ raise e'))

traverse-Any :
    (P : Platform) (c : Config) (w : World) (ids : List Value) (jobs : List Lookup) (e : Exception)
    → traverse (alone P c w) ids ≡ ok jobs
    → Any (λ id. (resolve_one P c id w).0 ≡ raise e) ids
    → ⊥
traverse-Any P c w [] jobs e h a = a
traverse-Any P c w (id ∷ ids) jobs e h (inl q) =
    let (j, first, rest) = >>=-eq-ok (alone P c w id) _ h in
    let raised : alone P c w id ≡ raise e = ap (returned id) q in cc
traverse-Any P c w (id ∷ ids) jobs e h (inr a) =
    let (j, first, rest) = >>=-eq-ok (alone P c w id) _ h in
    let (l, others, last) = >>=-eq-ok (traverse (alone P c w) ids) _ rest in
    traverse-Any P c w ids l e others a

serial-AreAlike :
    (P : Platform) (c : Config) (w : World) (ids : List Value) (r r' : Result (List Lookup))
    → IsSerial P c w ids r
    → IsSerial P c w ids r'
    → AreAlike r r'
serial-AreAlike P c w ids (ok jobs) (ok jobs') h k = inl (sym h ∙ k)
serial-AreAlike P c w ids (ok jobs) (raise e) h k = absurd (traverse-Any P c w ids jobs e h k)
serial-AreAlike P c w ids (raise e) (ok jobs) h k = absurd (traverse-Any P c w ids jobs e k h)
serial-AreAlike P c w ids (raise e) (raise e') h k = inr (e, e', refl, refl)

-- What follows on agreeing runs, if it does not depend on the state.
continue-AreAlike :
    {A B : Type 0} (f : A → Net B) (r r' : Result A × World)
    → AreAlike r.0 r'.0
    → ((a : A) (w w' : World) → AreAlike (f a w).0 (f a w').0)
    → AreAlike (continue f r).0 (continue f r').0
continue-AreAlike f (ok a, w) (ok b, w') (inl h) k =
    let same : a ≡ b = cc in subst (λ x. AreAlike (f a w).0 (f x w').0) same (k a w w')
continue-AreAlike f (ok a, w) (raise e, w') (inl h) k = cc
continue-AreAlike f (raise e, w) (ok a, w') (inl h) k = cc
continue-AreAlike f (raise e, w) (raise e', w') h k = inr (e, e', refl, refl)
continue-AreAlike f (ok a, w) (r, w') (inr (e, e', h, k')) k = cc
continue-AreAlike f (raise e, w) (ok a, w') (inr (e', e'', h, k')) k = cc

-- What follows on one run.
same-AreAlike :
    {A B : Type 0} (f f' : A → Net B) (r : Result A × World)
    → ((a : A) → AreAlike (f a r.1).0 (f' a r.1).0)
    → AreAlike (continue f r).0 (continue f' r).0
same-AreAlike f f' (ok a, w) k = k a
same-AreAlike f f' (raise e, w) k = inl refl

attempts-upstream :
    (P : Platform) (left n : ℕ) (path url : Text) (w : World)
    → (attempts P left n path url w).1.upstream ≡ w.upstream
unfolding attempts send sleep outcome
attempts-upstream P zero n path url w = ground arith
attempts-upstream P (suc left) n path url w =
    elim (Outcome-cases (outcome P path url (w.upstream (length w.sent) url))) [
      | inl (r, e) ↦ rw e refl
      | inr (x, pause, e) ↦ rw e (attempts-upstream P left (n + 1) path url _)
    ]

module _ (P : Platform) (c : Config) (answer : Text → Attempt) (pick pick' : ℕ → ℕ)
    (set_order : List Value → List Value) where
  gather-AreAlike :
      (ids : List Value) (w : World)
      → AnswersByUrl answer w
      → AreAlike
          (gather P c (3 * length ids) pick (started ids) w).0
          (gather P c (3 * length ids) pick' (started ids) w).0
  gather-AreAlike ids w h =
      serial-AreAlike P c w ids _ _ (gather-resolve_one P c answer pick ids w h)
        (gather-resolve_one P c answer pick' ids w h)

  resolve_all-AreAlike :
      (b : Bool) (d : Fields) (w : World)
      → AnswersByUrl answer w
      → AreAlike (resolve_all P c pick set_order b d w).0 (resolve_all P c pick' set_order b d w).0
  unfolding resolve_all ◌>>=◌ lift pure
  resolve_all-AreAlike false d w h = inl refl
  resolve_all-AreAlike true d w h =
      same-AreAlike _ _ (as_list (or_else (get d "assets") (list [])), w)
        (λ holdings.
          same-AreAlike _ _ (asset_ids [] holdings, w)
            (λ ids.
              continue-AreAlike _ _ _ (gather-AreAlike (set_order ids) w h)
                (λ jobs v v'. inl refl)))

  account_assets-upstream :
      (address : Text) (limit next_token : Value) (w : World)
      → AnswersByUrl answer w
      → AnswersByUrl answer (Reads.account_assets P c address limit next_token w).1
  unfolding Reads.account_assets Reads.indexer get_json
  account_assets-upstream address limit next_token w h n url =
      ap (λ u. u n url) (attempts-upstream P _ _ _ _ w) ∙ h n url

-- If the upstream's answer depends on the URL alone, a page of token balances does not depend on the
-- order in which the concurrent lookups meet their replies: for any two orders the route returns the
-- same, or it raises in both.
pub get_address_token_balances-AreAlike :
    (P : Platform) (c : Config) (answer : Text → Attempt) (pick pick' : ℕ → ℕ)
    → (set_order : List Value → List Value) (address : Text) (limit next_token : Value)
    → (resolve : Bool) (w : World) → AnswersByUrl answer w
    → AreAlike
        (get_address_token_balances P c pick set_order address limit next_token resolve w).0
        (get_address_token_balances P c pick' set_order address limit next_token resolve w).0
unfolding get_address_token_balances ◌>>=◌ lift
get_address_token_balances-AreAlike P c answer pick pick' set_order address limit next_token resolve
      w h =
    same-AreAlike _ _ (validate_address P (text address), w)
      (λ valid. same-AreAlike _ _ (Reads.account_assets P c address limit next_token w) (λ payload.
        same-AreAlike _ _ (as_dict payload, (Reads.account_assets P c address limit next_token w).1)
          (λ d.
            continue-AreAlike _ _ _
              (resolve_all-AreAlike P c answer pick pick' set_order resolve d _ (
                account_assets-upstream P c answer pick pick' set_order address limit next_token w
                  h))
              (λ params v v'. inl refl))))
