-- ===== src/Cache/Tasks/Counted.antt =====
-- What interleaved calls of `get_or_fetch` count: calls of `fetch`, and the hits and misses of
-- `CacheStats`.
use algorandscout.Cache.{Cache, apply, clear, get, get_at, set, ttl}
use algorandscout.Cache.Counters.{apply-counters, lookups}
use algorandscout.Cache.Ordered.{Entries, find}
use algorandscout.Cache.Steps.{
  get_cacheable, get_entry_cases, get_uncacheable, set_cacheable, set_entry_lem, set_uncacheable,
}
use algorandscout.Cache.Tasks.{
  Answer, CachedRead, Reach, Step, System, clears, failed, fetched, finish, finishes, hit, initial,
  looked_up, next, start, starts,
}
use algorandscout.Cache.Tasks.Served.{Inv, Memᴰ-All, Memᴰ-find, Reach-Inv}
use algorandscout.Prelude.{
  All, Bool-cases, List, Option-cases, String, Text, [], arith, false, if◌then◌else◌, inl, inr,
  length, none, refl, some, ℕ, ◌++◌, ◌+◌, ◌∷◌, ◌≡◌,
}
use algorandscout.Python.{Result, Value, is_null, ok, raise}

unfoldable pub tally : {A : Type 0} → (A → ℕ) → List A → ℕ
tally w [] = 0
tally w (x ∷ l) = w x + tally w l

-- 1 if the call's `get` is counted: its kind is cacheable.
unfoldable pub looks : CachedRead → ℕ
looks call = elim (ttl call.kind) [ none ↦ 0 | some _ ↦ 1 ]

unfoldable pub looked : Answer → ℕ
looked (hit call x) = looks call
looked (fetched call later x) = looks call
looked (failed call e) = looks call

-- 1 if the call had to fetch.
unfoldable pub asked : Answer → ℕ
asked (hit call x) = 0
asked (fetched call later x) = 1
asked (failed call e) = 1

unfoldable pub served : Answer → ℕ
served (hit call x) = 1
served (fetched call later x) = 0
served (failed call e) = 0

-- No fetch has returned `None`.
abbrev pub IsProper : Entries → Type 0
IsProper l = All (λ e. is_null e.1.1 ≡ false) l

tally-remove :
    {A : Type 0} (w : A → ℕ) (xs ys : List A) (x : A)
    → tally w (xs ++ x ∷ ys) ≡ w x + tally w (xs ++ ys)
unfolding tally
tally-remove w [] ys x = refl
tally-remove w (y ∷ xs) ys x = omega (arith, tally-remove w xs ys x)

length-remove :
    {A : Type 0} (xs ys : List A) (x : A) → length (xs ++ x ∷ ys) ≡ 1 + length (xs ++ ys)
length-remove [] ys x = omega arith
length-remove (y ∷ xs) ys x = omega (arith, length-remove xs ys x)

record Counted (s : System) : Type 0 where
  fetching : s.fetches ≡ length s.pending + tally asked s.answers
  looking : s.cache.hits + s.cache.misses ≡ tally looks s.pending + tally looked s.answers
  hitting : IsProper s.log → s.cache.hits ≡ tally served s.answers

get-counts :
    (call : CachedRead) (c : Cache)
    → (let d = (get call.began c call.kind call.key).0 in
        d.hits + d.misses ≡ c.hits + c.misses + looks call)
unfolding looks lookups apply
get-counts call c = omega (arith, (apply-counters (get_at call.began call.kind call.key) c).0)

set-counts :
    (now : ℕ) (c : Cache) (kind : String) (key : Text) (x : Value)
    → (let d = set now c kind key x in (d.hits ≡ c.hits) × (d.misses ≡ c.misses))
set-counts now c kind key x = elim (Option-cases (ttl kind)) [
  | inl e ↦ rw (set_uncacheable now c kind key x e) (refl, refl)
  | inr (t, e) ↦ rw (set_cacheable now c kind key x e, set_entry_lem) (refl, refl)
]

get-hits :
    (now : ℕ) (c : Cache) (kind : String) (key : Text)
    → ((e : ℕ × Value) → find (kind, key) c.entries ≡ some e → is_null e.1 ≡ false)
    → (get now c kind key).0.hits ≡ c.hits + (if is_null (get now c kind key).1 then 0 else 1)
get-hits now c kind key proper = elim (Option-cases (ttl kind)) [
  | inl e ↦ rw (get_uncacheable now c kind key e) (omega arith)
  | inr (t, e) ↦ rw (get_cacheable now c kind key e) (elim (get_entry_cases t now c (kind, key)) [
    | inl (missing, g) ↦ rw g (omega arith)
    | inr (inl (x, found, old, g)) ↦ rw g (omega arith)
    | inr (inr (x, found, fresh, g)) ↦ rw (g, proper x found) refl
  ])
]

module _ (call : CachedRead) (s : System) (inv : Inv s) (counts : Counted s) where
  proper_entries :
      IsProper s.log
      → (e : ℕ × Value) → find (call.kind, call.key) s.cache.entries ≡ some e
      → is_null e.1 ≡ false
  proper_entries proper e found =
      Memᴰ-All (λ e. is_null e.1.1 ≡ false)
        (Memᴰ-find (call.kind, call.key) e s.log (inv.remembers (call.kind, call.key) e found))
        proper

  start-Counted : Counted (start call s)
  unfolding start looked_up tally asked looked served
  start-Counted =
      let more = get-counts call s.cache in
      let hits = get-hits call.began s.cache call.kind call.key in
      elim (Bool-cases (is_null (get call.began s.cache call.kind call.key).1)) [
        | inl e ↦ rw e (record {
          fetching = omega (arith, counts.fetching);
          looking = omega (arith, counts.looking);
          hitting = λ proper.
              omega (arith, rw e at (hits (proper_entries proper)), counts.hitting proper);
        })
        | inr e ↦ rw e (record {
          fetching = omega (arith, counts.fetching);
          looking = omega (arith, counts.looking);
          hitting = λ proper.
              omega (arith, rw e at (hits (proper_entries proper)), counts.hitting proper);
        })
      ]

module _ (xs ys : List CachedRead) (call : CachedRead) (now : ℕ) (s : System) (counts : Counted s)
    (e : s.pending ≡ xs ++ call ∷ ys) where
  finish-Counted : (r : Result Value) → Counted (finish call now r (xs ++ ys) s)
  unfolding finish tally asked looked served
  finish-Counted (ok x) =
      let (hits, misses) = set-counts now s.cache call.kind call.key x in
      record {
        fetching = omega (arith, rw e at counts.fetching, length-remove xs ys call);
        looking = omega (arith, rw e at counts.looking, tally-remove looks xs ys call);
        hitting = λ proper. omega (arith, counts.hitting proper.1);
      }
  finish-Counted (raise x) = record {
    fetching = omega (arith, rw e at counts.fetching, length-remove xs ys call);
    looking = omega (arith, rw e at counts.looking, tally-remove looks xs ys call);
    hitting = λ proper. omega (arith, counts.hitting proper);
  }

Step-Counted : {s s' : System} → Step s s' → Inv s → Counted s → Counted s'
Step-Counted {s} (starts call h) inv counts = start-Counted call s inv counts
Step-Counted {s} (finishes xs ys call now r e h) inv counts =
    finish-Counted xs ys call now s counts e r
Step-Counted {s} clears inv counts = record {
  fetching = counts.fetching;
  looking = unfold clear in counts.looking;
  hitting = unfold clear in counts.hitting;
}

Reach-Counted : {n : ℕ} {s : System} → Reach n s → Counted s
unfolding tally
Reach-Counted initial = record {
  fetching = omega arith;
  looking = omega arith;
  hitting = λ proper. refl;
}
Reach-Counted (next r st) = Step-Counted st (Reach-Inv r) (Reach-Counted r)

-- However the calls of `get_or_fetch` interleave: `fetch` has been called once for each call that
-- waits and for each that was not answered from the cache; hits and misses together count the calls
-- for a cacheable kind; and as long as no fetch has returned `None`, the hits count the calls that
-- were answered from the cache.
pub Reach-tally :
    {n : ℕ} {s : System}
    → Reach n s
    → (s.fetches ≡ length s.pending + tally asked s.answers)
      × (s.cache.hits + s.cache.misses ≡ tally looks s.pending + tally looked s.answers)
      × (IsProper s.log → s.cache.hits ≡ tally served s.answers)
Reach-tally r = let counts = Reach-Counted r in (counts.fetching, counts.looking, counts.hitting)
