-- ===== src/Witnesses/Interleaved.antt =====
-- Witnesses on interleaved calls of `get_or_fetch`.
use algorandscout.Cache.{get, get_entry, set, set_entry, ttl}
use algorandscout.Cache.Ordered.{assign, delete, evict, find, key_eq, move_to_end}
use algorandscout.Cache.Tasks.{
  CachedRead, Reach, System, fetched, finish, finishes, hit, idle, initial, looked_up, next, start,
  start_all, starts,
}
use algorandscout.Cache.Tasks.Counted.{IsProper, Reach-tally, asked, looked, looks, served, tally}
use algorandscout.Cache.Tasks.Repeats.{start_all-IsNew}
use algorandscout.Cache.Tasks.Served.{IsServed, Reach-IsServed}
use algorandscout.Prelude.{All, [], arith, codes, length, refl, ◌+◌, ◌∷◌, ◌≡◌}
use algorandscout.Python.{Value, dict, nat, ok}

abbrev first : CachedRead
first = record { began = 1; kind = "block"; key = codes "5" }

abbrev second : CachedRead
second = record { began = 2; kind = "block"; key = codes "5" }

abbrev third : CachedRead
third = record { began = 4; kind = "block"; key = codes "5" }

abbrev fetched_block : Value
fetched_block = dict (("round", nat 5) ∷ [])

abbrev both_wait : System
both_wait = start second (start first (idle 8))

abbrev one_waits : System
one_waits = finish first 3 (ok fetched_block) (second ∷ []) both_wait

abbrev one_hit : System
one_hit = start third one_waits

both_pending : both_wait.pending ≡ second ∷ first ∷ []
unfolding start looked_up get ttl get_entry find
both_pending = refl

both_began : both_wait.now ≡ 2
unfolding start looked_up get ttl get_entry find
both_began = refl

one_now : one_waits.now ≡ 3
unfolding finish
one_now = refl

first_began : (start first (idle 8)).now ≡ 1
unfolding start looked_up get ttl get_entry find
first_began = refl

both_wait-Reach : Reach 8 both_wait
both_wait-Reach =
    next (next initial (starts first (omega arith))) (starts second (omega (arith, first_began)))

one_waits-Reach : Reach 8 one_waits
one_waits-Reach =
    next both_wait-Reach (
      finishes (second ∷ []) [] first 3 (ok fetched_block) both_pending (omega (arith, both_began)))

one_hit-Reach : Reach 8 one_hit
one_hit-Reach = next one_waits-Reach (starts third (omega (arith, one_now)))

-- The third call is answered from the cache while the second still waits.
third_answer :
    (one_hit.answers ≡ hit third fetched_block ∷ fetched first 3 fetched_block ∷ [])
    × (one_hit.pending ≡ second ∷ [])
unfolding start looked_up finish get ttl get_entry find set set_entry assign move_to_end evict
    delete key_eq
third_answer = (refl, refl)

Reach-IsServed_example : All (IsServed one_hit.log) one_hit.answers
Reach-IsServed_example = Reach-IsServed one_hit-Reach

Reach-tally_example :
    (one_hit.fetches ≡ length one_hit.pending + tally asked one_hit.answers)
    × (one_hit.cache.hits + one_hit.cache.misses
        ≡ tally looks one_hit.pending + tally looked one_hit.answers)
    × (IsProper one_hit.log → one_hit.cache.hits ≡ tally served one_hit.answers)
Reach-tally_example = Reach-tally one_hit-Reach

start_all-IsNew_example :
    ((start_all (first ∷ second ∷ []) (idle 8)).fetches ≡ 2)
    × ((start_all (first ∷ second ∷ []) (idle 8)).pending ≡ second ∷ first ∷ [])
    × ((start_all (first ∷ second ∷ []) (idle 8)).answers ≡ [])
start_all-IsNew_example =
    start_all-IsNew (first ∷ second ∷ []) initial (omega arith, (omega arith, tt))
      (unfold find in (refl, (refl, tt)))
