-- ===== src/World/Upstream.antt =====
-- Steps that raise no exception of the upstream.
use algorandscout.Python.{Result, algorand_error, ok, raise}
use algorandscout.World.{Net, World, continue, pure, ◌>>=◌}

-- An exception of the upstream.
abbrev pub IsUpstreamError : {A : Type 0} → Result A → Type 0
IsUpstreamError (raise (algorand_error e)) = Unit
IsUpstreamError _ = ⊥

pub continue_lem :
    {A B : Type 0} (f : A → Net B) (r : Result A × World)
    → (¬ IsUpstreamError r.0)
    → ((a : A) (w : World) → ¬ IsUpstreamError (f a w).0)
    → ¬ IsUpstreamError (continue f r).0
continue_lem f (ok a, w) h k = k a w
continue_lem f (raise (algorand_error e), w) h k = λ u. h tt
continue_lem f (raise e, w) h k = λ u. u

pub >>=_lem :
    {A B : Type 0} (m : Net A) (f : A → Net B) (w : World)
    → (¬ IsUpstreamError (m w).0)
    → ((a : A) (w : World) → ¬ IsUpstreamError (f a w).0)
    → ¬ IsUpstreamError ((m >>= f) w).0
unfolding ◌>>=◌
>>=_lem m f w h k = continue_lem f (m w) h k

pub pure_lem : {A : Type 0} (a : A) (w : World) → ¬ IsUpstreamError (pure a w).0
unfolding pure
pure_lem a w h = h
