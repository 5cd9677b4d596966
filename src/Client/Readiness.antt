-- ===== src/Client/Readiness.antt =====
-- What `health` of client.py reports.
use mathlib.Core.Path.{subst}
use algorandscout.Client.Reads
use algorandscout.Client.Config.{Config}
use algorandscout.Client.Reads.{caught, errors_of}
use algorandscout.Prelude.{
  Option, Text, [], arith, codes, false, inl, inr, none, not, refl, some, true, ◌≡◌, ◌⊎◌,
}
use algorandscout.Python.{
  Fields, Platform, Result, Value, algorand_error, as_dict, bool, get, obj, ok, raise, truthy,
}
use algorandscout.World.{Net, World, continue, lift, pure, ◌>>=◌}
use algorandscout.World.Upstream.{IsUpstreamError}

-- The read returned.
abbrev pub HasReturned : {A : Type 0} → Result A → Type 0
HasReturned (ok a) = Unit
HasReturned (raise e) = ⊥

-- What `healthy` says, of the outcomes of the two reads.
abbrev pub IsReport : Result Value → Result Value → Value → Type 0
IsReport node idx healthy =
    ((healthy ≡ bool true) × HasReturned node × HasReturned idx)
    ⊎ ((healthy ≡ bool false) × (IsUpstreamError node ⊎ IsUpstreamError idx))

-- Whatever a run from here returns has the property.
Ends : {A : Type 0} → (A → Type 0) → Net A → World → Type 0
Ends {A = A} Q m w = (b : A) → (m w).0 ≡ ok b → Q b

continue-Ends :
    {A B : Type 0} (Q : B → Type 0) (f : A → Net B) (r : Result A × World)
    → ((a : A) → r.0 ≡ ok a → Ends Q (f a) r.1)
    → (b : B) → (continue f r).0 ≡ ok b
    → Q b
unfolding Ends
continue-Ends Q f (ok a, w) k b h = k a refl b h
continue-Ends Q f (raise e, w) k b h = cc

>>=-Ends :
    {A B : Type 0} (Q : B → Type 0) (m : Net A) (f : A → Net B) (w : World)
    → ((a : A) → (m w).0 ≡ ok a → Ends Q (f a) (m w).1)
    → Ends Q (m >>= f) w
unfolding ◌>>=◌ Ends
>>=-Ends Q m f w k = continue-Ends Q f (m w) k

pure-Ends : {A : Type 0} (Q : A → Type 0) (a : A) (w : World) → Q a → Ends Q (pure a) w
unfolding pure Ends
pure-Ends Q a w q b h = let same : a ≡ b = cc in subst Q same q

-- Whether a caught read left an error text.
abbrev IsCaught : Result Value → Option Text → Type 0
IsCaught r none = HasReturned r
IsCaught r (some message) = IsUpstreamError r

caught-IsCaught :
    (r : Result Value × World) (v : Value) (error : Option Text)
    → (caught r).0 ≡ ok (v, error)
    → IsCaught r.0 error
unfolding caught
caught-IsCaught (ok u, w) v error h =
    let same : none ≡ error = cc in subst (IsCaught (ok u)) same tt
caught-IsCaught (raise (algorand_error e), w) v error h =
    let same : some e.message ≡ error = cc in subst (IsCaught (raise (algorand_error e))) same tt
caught-IsCaught (raise e, w) v error h = cc

reported :
    (node idx : Result Value) (a b : Option Text)
    → IsCaught node a
    → IsCaught idx b
    → IsReport node idx (bool (not (truthy (obj (errors_of a b)))))
unfolding errors_of
reported node idx none none h k = inl (refl, h, k)
reported node idx (some a) none h k = inr (refl, inl h)
reported node idx none (some b) h k = inr (refl, inr k)
reported node idx (some a) (some b) h k = inr (refl, inl h)

caught_world : (r : Result Value × World) → (caught r).1 ≡ r.1
unfolding caught
caught_world (ok v, w) = refl
caught_world (raise e, w) = ground arith

-- A health report says that all is well, and then the node and the indexer have both answered; or
-- it says that it is not, and then the read of at least one of them ended in an upstream error.
pub health-IsReport :
    (P : Platform) (c : Config) (w : World) (d : Fields)
    → (Reads.health P c w).0 ≡ ok d
    → IsReport
        (Reads.status P c w).0
        (Reads.indexer P c (codes "/health") [] (Reads.status P c w).1).0
        (get d "healthy")
unfolding Reads.health Reads.attempted Ends
health-IsReport P c w =
    let read_node = Reads.attempted (Reads.status P c) in
    let read_idx = Reads.attempted (Reads.indexer P c (codes "/health") []) in
    >>=-Ends _ read_node _ w (λ p e. >>=-Ends _ read_idx _ _ (λ q e'.
      >>=-Ends _ (lift (as_dict p.0)) _ _ (λ n e3. >>=-Ends _ (lift (as_dict q.0)) _ _ (λ i e4.
        pure-Ends _ _ _ (
          reported _ _ p.1 q.1 (caught-IsCaught (Reads.status P c w) p.0 p.1 e) (
            subst (λ v. IsCaught (Reads.indexer P c (codes "/health") [] v).0 q.1)
              (caught_world (Reads.status P c w))
              (caught-IsCaught
                (Reads.indexer P c (codes "/health") [] (caught (Reads.status P c w)).1) q.0 q.1
                e')))))))
