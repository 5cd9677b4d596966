-- ===== src/Client/Health.antt =====
-- `health` of client.py when the upstreams fail.
use algorandscout.Client.Config.{Config}
use algorandscout.Client.Reads.{attempted, caught, health, indexer, status}
use algorandscout.Prelude.{[], codes}
use algorandscout.Python.{Platform, Result, Value, algorand_error, as_dict, obj, ok, raise}
use algorandscout.World.{Net, World, lift}
use algorandscout.World.Upstream.{>>=_lem, IsUpstreamError, pure_lem}

caught_lem : (r : Result Value × World) → ¬ IsUpstreamError (caught r).0
unfolding caught
caught_lem (ok v, w) h = h
caught_lem (raise (algorand_error e), w) h = h
caught_lem (raise e, w) h = h

attempted_lem : (read : Net Value) (w : World) → ¬ IsUpstreamError (attempted read w).0
unfolding attempted
attempted_lem read w = caught_lem (read w)

as_dict_lem : (v : Value) (w : World) → ¬ IsUpstreamError (lift (as_dict v) w).0
unfolding lift
as_dict_lem (obj d) w h = h
as_dict_lem v w h = h

-- `health` itself never fails because an upstream does: whatever the requests to the node and to the
-- indexer meet, it returns, or raises something that is no error of an upstream.
pub health-IsUpstreamError :
    (P : Platform) (c : Config) (w : World) → ¬ IsUpstreamError (health P c w).0
unfolding health
health-IsUpstreamError P c w = >>=_lem _ _ w (attempted_lem (status P c) w) (λ node w'.
    >>=_lem _ _ w' (attempted_lem (indexer P c (codes "/health") []) w') (λ idx w''.
      >>=_lem _ _ w'' (as_dict_lem node.0 w'')
        (λ n w3. >>=_lem _ _ w3 (as_dict_lem idx.0 w3) (λ i w4. pure_lem _ w4))))
