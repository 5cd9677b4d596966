-- ===== src/Client/Sessions/Ownership.antt =====
-- Whose sessions an `AlgorandClient` of client.py closes.
use algorandscout.Client.Sessions.{
  Lives, Sessions, begins, close, close_held, closed_by_other, closes, ensure_session, ensures,
  is_given, is_unusable, new_client, opened, other_closes, other_opens,
}
use algorandscout.Prelude.{
  Bool, Bool-cases, Option, ap, arith, false, inl, inr, none, not, refl, some, true, ℕ, ◌&&◌, ◌<◌,
  ◌==◌, ◌∙◌, ◌≡◌,
}

-- What the client made it holds while it is open, and what it owns it made.
pub record IsTidy (s : Sessions) : Type 0 where
  pub holds_open :
      (i : ℕ)
      → s.made i ≡ true
      → s.closed i ≡ false
      → (s.session ≡ some i) × (s.owns_session ≡ true)
  pub owns_made : (i : ℕ) → s.session ≡ some i → s.owns_session ≡ true → s.made i ≡ true
  pub made_below : (i : ℕ) → s.made i ≡ true → i < s.next
  pub held_below : (i : ℕ) → s.session ≡ some i → i < s.next

new_client-IsTidy :
    (next : ℕ) (closed : ℕ → Bool) (session : Option ℕ)
    → ((i : ℕ) → session ≡ some i → i < next)
    → IsTidy (new_client next closed session)
unfolding new_client
new_client-IsTidy next closed none h = record {
  holds_open = λ i m c. cc;
  owns_made = λ i e o. cc;
  made_below = λ i m. cc;
  held_below = λ i e. cc;
}
new_client-IsTidy next closed (some j) h = record {
  holds_open = λ i m c. cc;
  owns_made = λ i e o. cc;
  made_below = λ i m. cc;
  held_below = h;
}

ensure_session-IsTidy : (s : Sessions) → IsTidy s → IsTidy (ensure_session s)
unfolding ensure_session
ensure_session-IsTidy s t = elim (Bool-cases (is_unusable s)) [
  | inr usable ↦ rw usable t
  | inl unusable ↦ rw unusable (record {
    holds_open = λ i m c. elim (Bool-cases (i == s.next)) [
      | inl same ↦ (ground arith, refl)
      | inr other ↦
          let (held, owns) = t.holds_open i (rw other at m) (rw other at c) in ground arith
    ];
    owns_made = λ i e o. ground arith;
    made_below = λ i m. elim (Bool-cases (i == s.next)) [
      | inl same ↦ ground arith
      | inr other ↦ let small = t.made_below i (rw other at m) in omega arith
    ];
    held_below = λ i e. ground arith;
  })
]

close_held-IsTidy :
    (h : Option ℕ) (s : Sessions) → s.session ≡ h → IsTidy s → IsTidy (close_held h s)
unfolding close_held
close_held-IsTidy none s e t = t
close_held-IsTidy (some j) s e t = elim (Bool-cases (s.owns_session && not (s.closed j))) [
  | inr no_it ↦ rw no_it t
  | inl yes_it ↦ rw yes_it (record {
    holds_open = λ i m c. t.holds_open i m (ground arith);
    owns_made = t.owns_made;
    made_below = t.made_below;
    held_below = t.held_below;
  })
]

close_held-made :
    (h : Option ℕ) (s : Sessions) (i : ℕ)
    → s.session ≡ h
    → IsTidy s
    → s.made i ≡ true
    → (close_held h s).closed i ≡ true
unfolding close_held
close_held-made none s i e t m = elim (Bool-cases (s.closed i)) [
  | inl shut ↦ shut
  | inr open_it ↦ let (held, owns) = t.holds_open i m open_it in cc
]
close_held-made (some j) s i e t m = elim (Bool-cases (s.closed i)) [
  | inl shut ↦ ground arith
  | inr open_it ↦
      let (held, owns) = t.holds_open i m open_it in
      let same : j ≡ i = ground arith in
      let shut : s.closed j ≡ false = ap s.closed same ∙ open_it in ground arith
]

close_held-other :
    (h : Option ℕ) (s : Sessions) (i : ℕ)
    → s.session ≡ h
    → IsTidy s
    → s.made i ≡ false
    → (close_held h s).closed i ≡ s.closed i
unfolding close_held
close_held-other none s i e t m = refl
close_held-other (some j) s i e t m = elim (Bool-cases (s.owns_session && not (s.closed j))) [
  | inr no_it ↦ rw no_it refl
  | inl yes_it ↦ let ours = t.owns_made j e (ground arith) in rw yes_it (ground arith)
]

opened-IsTidy : (s : Sessions) → IsTidy s → IsTidy (opened s)
opened-IsTidy s t = record {
  holds_open = λ i m c. let small = t.made_below i m in t.holds_open i m (ground arith);
  owns_made = t.owns_made;
  made_below = λ i m. let small = t.made_below i m in omega arith;
  held_below = λ i e. let small = t.held_below i e in omega arith;
}

closed_by_other-IsTidy :
    (s : Sessions) (j : ℕ) → s.made j ≡ false → IsTidy s → IsTidy (closed_by_other j s)
closed_by_other-IsTidy s j m t = record {
  holds_open = λ i m' c. t.holds_open i m' (ground arith);
  owns_made = t.owns_made;
  made_below = t.made_below;
  held_below = t.held_below;
}

Lives-IsTidy : (s : Sessions) → Lives s → IsTidy s
unfolding close
Lives-IsTidy _ (begins next closed) = new_client-IsTidy next closed none (λ i e. cc)
Lives-IsTidy _ (is_given next i closed h) =
    new_client-IsTidy next closed (some i) (λ j e. ground arith)
Lives-IsTidy _ (ensures s l) = ensure_session-IsTidy s (Lives-IsTidy s l)
Lives-IsTidy _ (closes s l) = close_held-IsTidy s.session s refl (Lives-IsTidy s l)
Lives-IsTidy _ (other_opens s l) = opened-IsTidy s (Lives-IsTidy s l)
Lives-IsTidy _ (other_closes s i h l) = closed_by_other-IsTidy s i h (Lives-IsTidy s l)

-- Whatever happened to a client before, `close` leaves open no session that the client made, and
-- leaves every session that it did not make as it was; and two sessions that it made are never open
-- at once.
pub close-ownership :
    (s : Sessions)
    → Lives s
    → ((i : ℕ) → s.made i ≡ true → (close s).closed i ≡ true)
      × ((i : ℕ) → s.made i ≡ false → (close s).closed i ≡ s.closed i)
      × ((i j : ℕ)
          → s.made i ≡ true
          → s.made j ≡ true
          → s.closed i ≡ false
          → s.closed j ≡ false
          → i ≡ j)
unfolding close
close-ownership s l =
    let t = Lives-IsTidy s l in
    (
      λ i m. close_held-made s.session s i refl t m,
      λ i m. close_held-other s.session s i refl t m,
      λ i j m n open_i open_j.
          let (held_i, _) = t.holds_open i m open_i in
          let (held_j, _) = t.holds_open j n open_j in ground arith,
    )
