-- ===== src/Cache/Tasks/Served.antt =====
-- What interleaved calls of `get_or_fetch` answer.
use mathlib.Core.List.{Memᴰ}
use mathlib.Core.Path.{subst}
use algorandscout.Cache.{apply, clear, clear_all, get, ttl}
use algorandscout.Cache.Freshness.{Remembers, get-Remembers, get-value, set-Remembers}
use algorandscout.Cache.Invariant.{IsValid, apply-IsValid, get-IsValid, new-IsValid, set-IsValid}
use algorandscout.Cache.Ordered.{Entries, Entry, Key, find, key_eq, key_eq_iff}
use algorandscout.Cache.Tasks.{
  Answer, CachedRead, Reach, Step, System, clears, failed, fetched, finish, finishes, hit, initial,
  looked_up, next, start, starts,
}
use algorandscout.Prelude.{
  All, All-map, Bool-cases, List, [], ap, arith, inl, inr, refl, some, sym, ℕ, ◌++◌, ◌+◌, ◌∷◌, ◌≡◌,
  ◌≢◌, ◌≤◌,
}
use algorandscout.Python.{Result, Value, is_null, null, ok, raise}

-- What an answer may be, after the fetches of `l`: a hit returns what a fetch of its key had
-- returned and stored before the call began, no longer ago than the time to live; else the call's
-- own fetch returned it.
unfoldable pub IsServed : Entries → Answer → Type 0
IsServed l (hit call x) =
    (t : ℕ) × (stored : ℕ) × (ttl call.kind ≡ some t)
    × (stored ≤ call.began)
    × (call.began ≤ stored + t)
    × Memᴰ ((call.kind, call.key), (stored, x)) l
IsServed l (fetched call later x) =
    (call.began ≤ later) × Memᴰ ((call.kind, call.key), (later, x)) l
IsServed l (failed call e) = Unit

pub record Inv (s : System) : Type 0 where
  valid : IsValid s.cache
  pub remembers : Remembers s.cache (λ j. find j s.log)
  past : All (λ e. e.1.0 ≤ s.now) s.log
  waiting : All (λ call. call.began ≤ s.now) s.pending
  served : All (IsServed s.log) s.answers

pub Memᴰ-find : (k : Key) (e : ℕ × Value) (l : Entries) → find k l ≡ some e → Memᴰ (k, e) l
unfolding find
Memᴰ-find k e [] h = cc
Memᴰ-find k e ((j, d) ∷ l) h = elim (Bool-cases (key_eq j k)) [
  | inl same ↦ Memᴰ.head (cc ((key_eq_iff j k).0 same, h))
  | inr other ↦ Memᴰ.tail (Memᴰ-find k e l (ground arith))
]

pub Memᴰ-All : (P : Entry → Type 0) {e : Entry} {l : Entries} → Memᴰ e l → All P l → P e
Memᴰ-All P (Memᴰ.head same) (p, h) = subst P (sym same) p
Memᴰ-All P (Memᴰ.tail m) (p, h) = Memᴰ-All P m h

IsServed-later : (e : Entry) (l : Entries) (a : Answer) → IsServed l a → IsServed (e ∷ l) a
unfolding IsServed
IsServed-later e l (hit call x) (t, stored, h, old, young, m) =
    (t, stored, h, old, young, Memᴰ.tail m)
IsServed-later e l (fetched call later x) (h, m) = (h, Memᴰ.tail m)
IsServed-later e l (failed call x) h = tt

module _ (call : CachedRead) (s : System) (inv : Inv s) (h : s.now ≤ call.began) where
  latest :
      (get call.began s.cache call.kind call.key).1 ≢ null
      → (t : ℕ) × (stored : ℕ) × (ttl call.kind ≡ some t)
        × (stored ≤ call.began)
        × (call.began ≤ stored + t)
        × (find (call.kind, call.key) s.log
            ≡ some (stored, (get call.began s.cache call.kind call.key).1))
  latest some_x =
      let (t, stored, e, fresh, found) = get-value s.cache call.began call.kind call.key some_x in
      let logged = inv.remembers (call.kind, call.key) _ found in
      let past =
        Memᴰ-All (λ e. e.1.0 ≤ s.now) (Memᴰ-find (call.kind, call.key) _ s.log logged) inv.past in
      (t, stored, e, omega arith, omega arith, logged)

  hit-IsServed :
      (get call.began s.cache call.kind call.key).1 ≢ null
      → IsServed s.log (hit call (get call.began s.cache call.kind call.key).1)
  unfolding IsServed
  hit-IsServed some_x =
      let (t, stored, e, old, young, logged) = latest some_x in
      (t, stored, e, old, young, Memᴰ-find (call.kind, call.key) _ s.log logged)

start-Inv : (call : CachedRead) (s : System) → Inv s → s.now ≤ call.began → Inv (start call s)
unfolding start looked_up
start-Inv call s inv h =
    let got = get-Remembers s.cache _ inv.valid inv.remembers call.began call.kind call.key in
    let v = get-IsValid call.began s.cache call.kind call.key inv.valid in
    let past = All-map _ (λ e. e.1.0 ≤ call.began) s.log (λ e old. omega arith) inv.past in
    let waits =
      All-map _ (λ c. c.began ≤ call.began) s.pending (λ c old. omega arith) inv.waiting in
    elim (Bool-cases (is_null (get call.began s.cache call.kind call.key).1)) [
      | inl e ↦ rw e (record {
        valid = v;
        remembers = got;
        past = past;
        waiting = (omega arith, waits);
        served = inv.served;
      })
      | inr e ↦ rw e (record {
        valid = v;
        remembers = got;
        past = past;
        waiting = waits;
        served = (hit-IsServed call s inv h (λ z. cc (e, ap is_null z)), inv.served);
      })
    ]

waiting-rest :
    (now : ℕ) (xs ys : List CachedRead) (call : CachedRead)
    → All (λ c. c.began ≤ now) (xs ++ call ∷ ys)
    → (call.began ≤ now) × All (λ c. c.began ≤ now) (xs ++ ys)
waiting-rest now [] ys call h = h
waiting-rest now (x ∷ xs) ys call (p, h) =
    let (q, rest) = waiting-rest now xs ys call h in (q, (p, rest))

module _ (xs ys : List CachedRead) (call : CachedRead) (now : ℕ) (s : System) (inv : Inv s)
    (e : s.pending ≡ xs ++ call ∷ ys) (h : s.now ≤ now) where
  since : All (λ c. c.began ≤ now) (xs ++ call ∷ ys)
  since = rw (← e) (All-map _ (λ c. c.began ≤ now) s.pending (λ c old. omega arith) inv.waiting)

  past_still : All (λ e. e.1.0 ≤ now) s.log
  past_still = All-map _ (λ e. e.1.0 ≤ now) s.log (λ e old. omega arith) inv.past

  finish-Inv : (r : Result Value) → Inv (finish call now r (xs ++ ys) s)
  unfolding finish
  finish-Inv (ok x) = record {
    valid = set-IsValid now s.cache call.kind call.key inv.valid x;
    remembers =
        unfold find in set-Remembers s.cache _ inv.valid inv.remembers now call.kind call.key x;
    past = (omega arith, past_still);
    waiting = (waiting-rest now xs ys call since).1;
    served = (
      unfold IsServed in ((waiting-rest now xs ys call since).0, Memᴰ.head refl),
      All-map _ _ s.answers (IsServed-later _ s.log) inv.served,
    );
  }
  finish-Inv (raise e) = record {
    valid = inv.valid;
    remembers = inv.remembers;
    past = past_still;
    waiting = (waiting-rest now xs ys call since).1;
    served = (unfold IsServed in tt, inv.served);
  }

Step-Inv : {s s' : System} → Step s s' → Inv s → Inv s'
Step-Inv {s} (starts call h) inv = start-Inv call s inv h
Step-Inv {s} (finishes xs ys call now r e h) inv = finish-Inv xs ys call now s inv e h r
Step-Inv {s} clears inv = record {
  valid = unfold apply in apply-IsValid clear_all s.cache inv.valid;
  remembers = unfold clear find in λ j e h. absurd (ground arith);
  past = inv.past;
  waiting = inv.waiting;
  served = inv.served;
}

pub Reach-Inv : {n : ℕ} {s : System} → Reach n s → Inv s
Reach-Inv {n} initial = record {
  valid = new-IsValid n;
  remembers = unfold find in λ j e h. absurd (ground arith);
  past = tt;
  waiting = tt;
  served = tt;
}
Reach-Inv (next r st) = Step-Inv st (Reach-Inv r)

-- However the calls interleave: a call that is answered from the cache gets what the latest fetch of
-- its key to end, of any call, had returned, stored before the call began and no longer ago than the
-- time to live of its kind.
pub get-latest :
    {n : ℕ} {s : System} (call : CachedRead)
    → Reach n s
    → s.now ≤ call.began
    → (get call.began s.cache call.kind call.key).1 ≢ null
    → (t : ℕ) × (stored : ℕ) × (ttl call.kind ≡ some t)
      × (stored ≤ call.began)
      × (call.began ≤ stored + t)
      × (find (call.kind, call.key) s.log
          ≡ some (stored, (get call.began s.cache call.kind call.key).1))
get-latest {s} call r h some_x = latest call s (Reach-Inv r) h some_x

-- However the calls of `get_or_fetch` interleave, and whatever each `fetch` returns or raises: every
-- answer from the cache is one that a fetch of the same kind and key had returned, stored before the
-- call began and no longer ago than the time to live of its kind; every other value that is
-- returned is what the call's own fetch returned after it began.
pub Reach-IsServed : {n : ℕ} {s : System} → Reach n s → All (IsServed s.log) s.answers
Reach-IsServed r = (Reach-Inv r).served
