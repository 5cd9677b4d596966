-- ===== src/Witnesses/Running.antt =====
-- Witnesses on the lookups, the sessions, the routes and what is remembered between requests.
use algorandscout.Client.Reads
use algorandscout.Cache.{Op, get_at, run, seconds, set_at, ttl}
use algorandscout.Cache.Invariant.{new-IsValid}
use algorandscout.Cache.Ordered.{key_eq}
use algorandscout.Cache.Recency.{IsOther}
use algorandscout.Client.Pages.{IsPaged, paginate-IsPaged}
use algorandscout.Client.Sessions.{
  Lives, Sessions, close, closed_by_other, ensure_session, ensures, is_given, new_client,
  other_closes,
}
use algorandscout.Client.Sessions.Ownership.{close-ownership}
use algorandscout.Metrics.{Request}
use algorandscout.Metrics.Histogram.{Describes, of_route}
use algorandscout.Prelude.{
  All, List, Text, [], arith, codes, false, length, none, refl, some, true, ℕ, ◌*◌, ◌+◌, ◌∷◌, ◌≡◌,
  ◌≤◌, ◌⊎◌,
}
use algorandscout.Prelude.Int.{pos}
use algorandscout.Python.{Value, dict, list, nat, null, ok, text}
use algorandscout.Service.{cached, store}
use algorandscout.Service.Balances.{gather, get_address_token_balances, running, started, waiting}
use algorandscout.Service.Balances.Answers.{AreAlike, get_address_token_balances-AreAlike}
use algorandscout.Service.Balances.Endings.{IsEnded, gather-ends, gather-slots}
use algorandscout.Service.Balances.Orders.{IsSerial, gather-resolve_one}
use algorandscout.Service.Cached.{cached-store}
use algorandscout.Service.Routes.{Call, call_address, call_livez, call_unmatched, serve}
use algorandscout.Service.Routes.Observed.{Logged, serve-Describes}
use algorandscout.Witnesses.{address_of_zeros, ascii, at_start, testnet}
use algorandscout.World.{Attempt, Net, World, pure, reply}

-- Nine assets, one more than there are places.
abbrev nine_assets : List Value
nine_assets = nat 1 ∷ nat 2 ∷ nat 3 ∷ nat 4 ∷ nat 5 ∷ nat 6 ∷ nat 7 ∷ nat 8 ∷ nat 9 ∷ []

-- An upstream that has no asset.
abbrev missing : Text → Attempt
missing url = reply 404 (codes "no asset") none (ok (dict []))

abbrev without_assets : World
without_assets = record at_start { upstream = λ n url. missing url }

abbrev last_first : ℕ → ℕ
last_first n = 7

at_first :
    (gather ascii testnet 0 last_first (started nine_assets) without_assets).0
    ≡ ok (started nine_assets)
unfolding gather pure
at_first = refl

gather-slots_example :
    (running (started nine_assets) ≤ 8)
    × ((running (started nine_assets) ≡ 8) ⊎ (waiting (started nine_assets) ≡ 0))
gather-slots_example =
    gather-slots ascii testnet last_first 0 nine_assets without_assets (started nine_assets)
      at_first

gather-ends_example :
    (length
        (gather ascii testnet
          (3 * length nine_assets)
          last_first
          (started nine_assets)
          without_assets).1.sent
      ≤ length without_assets.sent + 3 * length nine_assets)
    × IsEnded nine_assets
        (gather ascii testnet
          (3 * length nine_assets)
          last_first
          (started nine_assets)
          without_assets).0
gather-ends_example = gather-ends ascii testnet last_first nine_assets without_assets

gather-resolve_one_example :
    IsSerial ascii testnet without_assets nine_assets
      (gather ascii testnet
        (3 * length nine_assets)
        last_first
        (started nine_assets)
        without_assets).0
gather-resolve_one_example =
    gather-resolve_one ascii testnet missing last_first nine_assets without_assets (λ n url. refl)

-- An upstream whose one answer holds two assets for an account, and an asset's parameters.
abbrev two_assets : Text → Attempt
two_assets url = reply 200 (codes "{}") none (
    ok (
      dict (
        ("assets", list (dict (("asset-id", nat 5) ∷ []) ∷ dict (("asset-id", nat 6) ∷ []) ∷ []))
        ∷ ("asset", dict (("params", dict (("decimals", nat 2) ∷ [])) ∷ []))
        ∷ [])))

abbrev with_assets : World
with_assets = record at_start { upstream = λ n url. two_assets url }

get_address_token_balances_example :
    AreAlike
      (get_address_token_balances ascii testnet last_first
        (λ ids. ids)
        address_of_zeros
        (nat 20)
        null
        true
        with_assets).0
      (get_address_token_balances ascii testnet
        (λ n. n)
        (λ ids. ids)
        address_of_zeros
        (nat 20)
        null
        true
        with_assets).0
get_address_token_balances_example =
    get_address_token_balances-AreAlike ascii testnet two_assets last_first (λ n. n) (λ ids. ids)
      address_of_zeros (nat 20) null true with_assets (λ n url. refl)

-- A client that was given an open session, lost it and made its own.
abbrev given : Sessions
given = new_client 1 (λ i. false) (some 0)

abbrev renewed : Sessions
renewed = ensure_session (closed_by_other 0 given)

renewed-Lives : Lives renewed
renewed-Lives =
    ensures (closed_by_other 0 given)
      (other_closes given 0 (unfold new_client in refl) (is_given 1 0 (λ i. false) (omega arith)))

close-ownership_example :
    ((i : ℕ) → renewed.made i ≡ true → (close renewed).closed i ≡ true)
    × ((i : ℕ) → renewed.made i ≡ false → (close renewed).closed i ≡ renewed.closed i)
    × ((i j : ℕ)
        → renewed.made i ≡ true
        → renewed.made j ≡ true
        → renewed.closed i ≡ false
        → renewed.closed j ≡ false
        → i ≡ j)
close-ownership_example = close-ownership renewed renewed-Lives

-- A page that says there is another one.
abbrev endless : Value → Net Value
endless token = pure (dict (("next-token", text (codes "x")) ∷ []))

paginate-IsPaged_example :
    IsPaged endless 20 null at_start (Reads.paginate 20 endless null at_start)
paginate-IsPaged_example = paginate-IsPaged endless 20 null at_start

abbrev calls : List Call
calls =
    call_address (codes "short") false
    ∷ call_livez
    ∷ call_unmatched (record { status_code = 404; content = null })
    ∷ []

serve-Describes_example :
    (qs : List Request) × Logged ascii testnet 1000 last_first (λ l. l) at_start calls qs
    × ((route : Text)
        → Describes
            (serve ascii testnet 1000 last_first (λ l. l) calls at_start).metrics
            route
            (of_route route qs))
serve-Describes_example = serve-Describes ascii testnet 1000 last_first (λ l. l) at_start calls refl

abbrev an_asset : Value
an_asset = dict (("asset", dict (("index", nat 5) ∷ [])) ∷ [])

abbrev other_uses : List Op
other_uses = get_at 1 "block" (codes "6") ∷ set_at 2 "asset" (codes "7") an_asset ∷ []

asset_ttl : ttl "asset" ≡ some (seconds 300)
unfolding ttl
asset_ttl = refl

others : All (IsOther ("asset", codes "5")) other_uses
unfolding key_eq
others = (refl, (refl, tt))

-- The service a while after an asset was stored.
abbrev later : World
later = record at_start {
  cache = run other_uses (store "asset" (codes "5") an_asset at_start).1.cache;
  readings = 9;
}

cached-store_example :
    ((cached "asset" (codes "5") (Reads.asset ascii testnet (pos 5)) later).0 ≡ ok an_asset)
    × ((cached "asset" (codes "5") (Reads.asset ascii testnet (pos 5)) later).1.sent ≡ later.sent)
cached-store_example =
    cached-store "asset" (codes "5") an_asset (Reads.asset ascii testnet (pos 5)) at_start later
      other_uses (new-IsValid 2048) asset_ttl refl others (omega arith) refl (omega arith)
