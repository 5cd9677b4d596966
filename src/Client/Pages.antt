-- ===== src/Client/Pages.antt =====
-- `paginate` of client.py: which pages it yields, and how it ends.
use algorandscout.Client.Reads
use algorandscout.Capabilities.{chain}
use algorandscout.Prelude.{
  Bool, Bool-cases, List, [], arith, false, if◌then◌else◌, inl, inr, length, refl, suc, true, zero,
  ℕ, ◌<◌, ◌∷◌, ◌≡◌, ◌≤◌, ◌⊎◌,
}
use algorandscout.Python.{Result, Value, as_dict, get, null, obj, ok, raise, truthy}
use algorandscout.World.{Net, World}

-- The cursor that a page carries.
abbrev pub cursor_of : Value → Value
cursor_of (obj d) = get d "next-token"
cursor_of _ = null

-- Every page but the last has a cursor for the next one; the last has one if it is left open.
abbrev pub Linked : Bool → List Value → Type 0
Linked open_cursor [] = Unit
Linked open_cursor (p ∷ []) = truthy (cursor_of p) ≡ open_cursor
Linked open_cursor (p ∷ q ∷ l) = (truthy (cursor_of p) ≡ true) × Linked open_cursor (q ∷ l)

-- The cursor behind these pages, and the last one of them.
abbrev pub cursor_after : Value → List Value → Value
cursor_after token [] = token
cursor_after token (p ∷ l) = cursor_after (cursor_of p) l

abbrev pub last_page : List Value → Value
last_page [] = null
last_page (p ∷ []) = p
last_page (p ∷ q ∷ l) = last_page (q ∷ l)

module _ (fetch : Value → Net Value) where
  -- These pages are what `fetch` returned, one after the other, each for the cursor of the page
  -- before it.
  abbrev pub Chain : Value → World → List Value → World → Type 0
  Chain token w [] u = w ≡ u
  Chain token w (p ∷ l) u = (v : World) × (fetch token w ≡ (ok p, v)) × Chain (cursor_of p) v l u

  -- How a walk ends behind its pages, of which there are at most `n`: at the bound, behind a page
  -- without a cursor, in the next read, or at a page that is no dictionary.
  abbrev pub Ends : ℕ → Value → List Value → World → Result Bool → World → Type 0
  Ends n token l u (ok true) v = (length l ≡ n) × Linked true l × (v ≡ u)
  Ends n token l u (ok false) v = (0 < length l) × (length l ≤ n) × Linked false l × (v ≡ u)
  Ends n token l u (raise e) v =
      ((length l < n) × Linked true l × (fetch (cursor_after token l) u ≡ (raise e, v)))
      ⊎ ((0 < length l)
          × (length l ≤ n)
          × Linked false l
          × (as_dict (last_page l) ≡ raise e)
          × (v ≡ u))

  abbrev pub IsPaged : ℕ → Value → World → Reads.Walk × World → Type 0
  IsPaged n token w (walk, v) =
      (u : World) × Chain token w walk.pages u × Ends n token walk.pages u walk.ended v

  Ends-yielded :
      (n : ℕ) (token p : Value) (l : List Value) (u v : World) (r : Result Bool)
      → truthy (cursor_of p) ≡ true
      → Ends n (cursor_of p) l u r v
      → Ends (suc n) token (p ∷ l) u r v
  Ends-yielded n token p [] u v (ok true) h (a, b, c) = (omega arith, h, c)
  Ends-yielded n token p (q ∷ l) u v (ok true) h (a, b, c) = (omega arith, (h, b), c)
  Ends-yielded n token p [] u v (ok false) h (a, b, c, d) = absurd (omega arith)
  Ends-yielded n token p (q ∷ l) u v (ok false) h (a, b, c, d) =
      (omega arith, omega arith, (h, c), d)
  Ends-yielded n token p [] u v (raise e) h (inl (a, b, c)) = inl (omega arith, h, c)
  Ends-yielded n token p [] u v (raise e) h (inr (a, b, c, d, z)) = absurd (omega arith)
  Ends-yielded n token p (q ∷ l) u v (raise e) h (inl (a, b, c)) = inl (omega arith, (h, b), c)
  Ends-yielded n token p (q ∷ l) u v (raise e) h (inr (a, b, c, d, z)) =
      inr (omega arith, omega arith, (h, c), d, z)

  more_pages :
      (n : ℕ) (token p : Value) (w v : World) (r : Reads.Walk × World)
      → fetch token w ≡ (ok p, v)
      → truthy (cursor_of p) ≡ true
      → IsPaged n (cursor_of p) v r
      → IsPaged (suc n) token w (Reads.yielded p r)
  unfolding Reads.yielded
  more_pages n token p w v (walk, x) h k (u, chain, ends) =
      (u, (v, h, chain), Ends-yielded n token p walk.pages u x walk.ended k ends)

  -- The rest of a walk, given what the first read returned or raised.
  abbrev followed : ℕ → Result Value × World → Reads.Walk × World
  followed n (r, v) = elim r [
    | raise e ↦ (record { pages = []; ended = raise e }, v)
    | ok payload ↦ Reads.yielded payload (elim (as_dict payload) [
      | raise e ↦ (record { pages = []; ended = raise e }, v)
      | ok d ↦
          if truthy (get d "next-token")
          then Reads.paginate n fetch (get d "next-token") v
          else (record { pages = []; ended = ok false }, v)
    ])
  ]

  fetched_page :
      (n : ℕ) (token : Value) (w : World) (r : Result Value × World)
      → ((token : Value) (w : World) → IsPaged n token w (Reads.paginate n fetch token w))
      → fetch token w ≡ r
      → IsPaged (suc n) token w (followed n r)
  unfolding Reads.yielded
  fetched_page n token w (raise e, v) k h = (w, refl, inl (omega arith, tt, h))
  fetched_page n token w (ok (obj d), v) k h = elim (Bool-cases (truthy (get d "next-token"))) [
    | inl some_token ↦ rw some_token (
        more_pages n token (obj d) w v (Reads.paginate n fetch (get d "next-token") v) h some_token
          (k (get d "next-token") v))
    | inr no_token ↦ rw no_token (v, (v, h, refl), (omega arith, omega arith, no_token, refl))
  ]
  fetched_page n token w (ok p, v) k h =
      (v, (v, h, refl), inr (omega arith, omega arith, refl, refl, refl))

  -- The pages that `paginate` yields, at most `max_pages`, are what its reads returned, each for the
  -- cursor of the page before it, and each but the last has a cursor. The walk ends in one of four
  -- ways: after `max_pages` pages, the last of them with a cursor, it is reported as stopped at the
  -- bound; behind a page without a cursor it just ends; or it raises, what the read of the next page
  -- raised or because the last page is not a dictionary. In each case no further read is made, and
  -- the pages in front of an exception have been yielded.
  pub paginate-IsPaged :
      (max_pages : ℕ) (token : Value) (w : World)
      → IsPaged max_pages token w (Reads.paginate max_pages fetch token w)
  unfolding Reads.paginate
  paginate-IsPaged zero token w = (w, refl, (refl, tt, refl))
  paginate-IsPaged (suc n) token w =
      fetched_page n token w (fetch token w) (paginate-IsPaged n) refl
