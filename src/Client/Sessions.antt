-- ===== src/Client/Sessions.antt =====
-- Which `aiohttp` session an `AlgorandClient` of client.py holds, and who closes it. A session is a
-- number: its identity. What aiohttp does with one is outside.
pub mod Ownership
use algorandscout.Prelude.{
  Bool, Option, false, if◌then◌else◌, none, not, some, true, ℕ, ◌&&◌, ◌+◌, ◌<◌, ◌==◌, ◌≡◌,
}

-- The sessions of the process, those below `next`: which ones this client made, and which are
-- closed; and the client's `_session` and `_owns_session`.
pub record Sessions : Type 0 where
  pub next : ℕ
  pub made : ℕ → Bool
  pub closed : ℕ → Bool
  pub session : Option ℕ
  pub owns_session : Bool

abbrev pub mark : ℕ → Bool → (ℕ → Bool) → ℕ → Bool
mark i b f j = if j == i then b else f j

-- `AlgorandClient.__init__`, given a session or none, in a process that has made some.
unfoldable pub new_client : ℕ → (ℕ → Bool) → Option ℕ → Sessions
new_client next closed session = record {
  next = next;
  made = λ i. false;
  closed = closed;
  session = session;
  owns_session = elim session [ none ↦ true | some i ↦ false ];
}

-- `self._session is None or self._session.closed`
abbrev pub is_unusable : Sessions → Bool
is_unusable s = elim s.session [ none ↦ true | some i ↦ s.closed i ]

-- `_ensure_session`, which returns what it leaves in `_session`; `__aenter__` calls nothing else.
unfoldable pub ensure_session : Sessions → Sessions
ensure_session s =
    if is_unusable s
    then record s {
      next = s.next + 1;
      made = mark s.next true s.made;
      closed = mark s.next false s.closed;
      session = some s.next;
      owns_session = true;
    }
    else s

-- `close` with what `_session` holds.
unfoldable pub close_held : Option ℕ → Sessions → Sessions
close_held none s = s
close_held (some i) s =
    if s.owns_session && not (s.closed i) then record s { closed = mark i true s.closed } else s

-- `close`, which is also `__aexit__`.
unfoldable pub close : Sessions → Sessions
unfolding close_held
close s = close_held s.session s

-- Another part of the process makes a session, or closes one.
abbrev pub opened : Sessions → Sessions
opened s = record s { next = s.next + 1; closed = mark s.next false s.closed }

abbrev pub closed_by_other : ℕ → Sessions → Sessions
closed_by_other i s = record s { closed = mark i true s.closed }

-- What happens to a client: its own methods in any order, other sessions made in the process, and
-- sessions that it did not make closed by whoever did.
pub data Lives : Sessions → Type 0 where
  begins : (next : ℕ) (closed : ℕ → Bool) → Lives (new_client next closed none)
  is_given : (next i : ℕ) (closed : ℕ → Bool) → i < next → Lives (new_client next closed (some i))
  ensures : (s : Sessions) → Lives s → Lives (ensure_session s)
  closes : (s : Sessions) → Lives s → Lives (close s)
  other_opens : (s : Sessions) → Lives s → Lives (opened s)
  other_closes : (s : Sessions) (i : ℕ) → s.made i ≡ false → Lives s → Lives (closed_by_other i s)
