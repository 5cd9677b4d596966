-- ===== src/Witnesses/Caching.antt =====
-- Witnesses on the cache.
use algorandscout.Cache.{
  Cache, Op, apply, get, get_at, get_entry, new, run, seconds, set, set_at, set_entry, ttl,
}
use algorandscout.Cache.Freshness.{get-last_write, last_write}
use algorandscout.Cache.Invariant.{IsValid, new-IsValid, run-IsValid, set-IsValid}
use algorandscout.Cache.Ordered.{assign, delete, evict, find, key_eq, move_to_end}
use algorandscout.Cache.Recency.{get-run_used}
use algorandscout.Prelude.{
  List, [], arith, codes, none, refl, some, sym, ℕ, ◌-◌, ◌∙◌, ◌∷◌, ◌≡◌, ◌≢◌, ◌≤◌,
}
use algorandscout.Python.{Result, Value, dict, nat, null, ok, raise, value_error}

abbrev old_block : Value
old_block = dict (("round", nat 5) ∷ [])

abbrev some_ops : List Op
some_ops = set_at 0 "block" (codes "5") old_block ∷ get_at 1 "block" (codes "6") ∷ []

run-IsValid_example : IsValid (run some_ops (new 1))
run-IsValid_example = run-IsValid some_ops 1

block_ttl : ttl "block" ≡ some (seconds 3600)
unfolding ttl
block_ttl = refl

served : (get (seconds 60) (run some_ops (new 1)) "block" (codes "5")).1 ≡ old_block
unfolding get ttl get_entry run apply set set_entry find delete assign move_to_end evict key_eq
served = refl

is_there : (get (seconds 60) (run some_ops (new 1)) "block" (codes "5")).1 ≢ null
is_there h = let same = sym served ∙ h in cc

get-last_write_example :
    (t : ℕ) × (s : ℕ) × (ttl "block" ≡ some t)
    × (seconds 60 - s ≤ t)
    × (last_write ("block", codes "5") some_ops none
        ≡ some (s, (get (seconds 60) (run some_ops (new 1)) "block" (codes "5")).1))
get-last_write_example = get-last_write some_ops 1 (seconds 60) "block" (codes "5") is_there

abbrev filled : Cache
filled = set 1 (new 2) "block" (codes "5") old_block

filled-IsValid : IsValid filled
filled-IsValid = set-IsValid 1 (new 2) "block" (codes "5") (new-IsValid 2) old_block

filled_found : find ("block", codes "5") filled.entries ≡ some (1, old_block)
unfolding set set_entry ttl find assign move_to_end evict delete key_eq
filled_found = refl

get-run_used_example :
    (get 3 (run [] (get 2 filled "block" (codes "5")).0) "block" (codes "5")).1 ≡ old_block
unfolding set ttl set_entry
get-run_used_example =
    get-run_used filled "block" (codes "5") old_block 1 2 3 [] filled-IsValid block_ttl filled_found
      (omega arith) tt (omega arith) (omega arith)

abbrev upstream_block : Cache → Result Value × Cache
upstream_block c = (ok old_block, c)

abbrev broken_upstream : Cache → Result Value × Cache
broken_upstream c = (raise value_error, c)

abbrev after_fetch : Cache
after_fetch = set 1 (get 0 (new 1) "block" (codes "5")).0 "block" (codes "5") old_block
