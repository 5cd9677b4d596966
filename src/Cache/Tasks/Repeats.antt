-- ===== src/Cache/Tasks/Repeats.antt =====
-- Calls of `get_or_fetch` that begin before the fetches of earlier ones have ended.
use mathlib.Core.List.{reverse, reverse-cons}
use algorandscout.Cache.{get, new}
use algorandscout.Cache.Freshness.{get-value}
use algorandscout.Cache.Ordered.{Entries, find}
use algorandscout.Cache.Tasks.{CachedRead, Reach, System, looked_up, next, start, start_all, starts}
use algorandscout.Cache.Tasks.Served.{Inv, Reach-Inv}
use algorandscout.Prelude.{
  All, Bool-cases, List, [], ap, append_assoc, arith, inl, inr, length, none, refl, sym, ℕ, ◌++◌,
  ◌+◌, ◌∙◌, ◌∷◌, ◌≡◌, ◌≤◌,
}
use algorandscout.Python.{is_null}

-- The calls' clock readings do not go back, and none is before `now`.
abbrev pub IsOrdered : ℕ → List CachedRead → Type 0
IsOrdered now [] = Unit
IsOrdered now (call ∷ calls) = (now ≤ call.began) × IsOrdered call.began calls

-- No fetch of the call's key has ended with a value.
abbrev pub IsNew : Entries → CachedRead → Type 0
IsNew l call = find (call.kind, call.key) l ≡ none

start-IsNew :
    (call : CachedRead) (s : System)
    → Inv s
    → IsNew s.log call
    → start call s ≡ record s {
      cache = (get call.began s.cache call.kind call.key).0;
      now = call.began;
      pending = call ∷ s.pending;
      fetches = s.fetches + 1;
    }
unfolding start looked_up
start-IsNew call s inv unseen =
    elim (Bool-cases (is_null (get call.began s.cache call.kind call.key).1)) [
      | inl e ↦ rw e refl
      | inr e ↦
          let (t, stored, h, fresh, found) =
            get-value s.cache call.began call.kind call.key (λ z. cc (e, ap is_null z)) in
          absurd (cc (unseen, inv.remembers (call.kind, call.key) _ found))
    ]

-- Calls that begin before any fetch of their keys has ended each call `fetch` themselves, also when
-- several of them ask for the same key: none waits for another's fetch, and all of them are pending.
pub start_all-IsNew :
    {n : ℕ} (calls : List CachedRead) {s : System}
    → Reach n s
    → IsOrdered s.now calls
    → All (IsNew s.log) calls
    → ((start_all calls s).fetches ≡ s.fetches + length calls)
      × ((start_all calls s).pending ≡ reverse calls ++ s.pending)
      × ((start_all calls s).answers ≡ s.answers)
unfolding start_all
start_all-IsNew [] r ordered new = (omega arith, refl, refl)
start_all-IsNew (call ∷ calls) {s} r (h, ordered) (unseen, others) =
    let e = start-IsNew call s (Reach-Inv r) unseen in
    let (a, b, c) = start_all-IsNew calls (next r (starts call h)) (rw e ordered) (rw e others) in
    (
      omega (arith, a, ap (λ t. t.fetches) e),
      b
          ∙ rw (e, reverse-cons call calls)
              (sym (append_assoc (reverse calls) (call ∷ []) s.pending)),
      c ∙ ap (λ t. t.answers) e,
    )
