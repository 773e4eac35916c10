-- ===== src/Simulator/Stock.antt =====
-- The stock over a run of the server: internal/simulator/simulator.go with
-- internal/throttle/throttle_driver.go.
use goqueuesim.Common.{
  ℕ, suc, ◌+◌, ◌≤◌, ◌<◌, ◌^◌, ◌≡◌, refl, ◌∙◌, ◌⊎◌, inl, inr, Bool, true, false, some, List, [], ◌∷◌,
  arith, Bool-cases, ℤ, pos, negsuc, ◌+ℤ◌, ◌≤ℤ◌, sub_ℕ, ◌==ℤ◌, All,
}
use goqueuesim.Common.Map.{Map, int_key, lookup, insert, lookup-insert}
use goqueuesim.Common.Panic.{ok}
use goqueuesim.Common.Word.{IsI32}
use goqueuesim.Common.Float.{Float64}
use goqueuesim.Client.{Client, ThrottleState, initial, queued, in_checkout, exited}
use goqueuesim.Client
use goqueuesim.Network.{MockRequest}
use goqueuesim.Queue.{Queue, QueueLaws}
use goqueuesim.Driver.{Instants, Answer, try_transition}
use goqueuesim.Driver.Transition.{HasPassed, HasStayed}
use goqueuesim.Driver.Calls.{try_transition-cases}
use goqueuesim.Simulator.{System, fetch_client_by_id, respond, serve, serve_all}

abbrev pub one_if : Bool → ℕ
one_if true = 1
one_if false = 0

-- The clients of the repository that ever reached checkout.
unfoldable pub checked_out : Map ℤ Client → ℕ
checked_out [] = 0
checked_out ((id, c) ∷ repo) = one_if c.hit_checkout_step + checked_out repo

-- A client that is not yet in checkout has not reached it before.
abbrev pub IsHonest : Client → Type 0
IsHonest c = (c.hit_checkout_step ≡ false) ⊎ ((c.state ≡ in_checkout) ⊎ (c.state ≡ exited))

abbrev pub AreHonest : Map ℤ Client → Type 0
AreHonest = All (λ e. IsHonest e.1)

pub checked_out-insert :
    (id : ℤ) (c c' : Client) (repo : Map ℤ Client)
    → lookup id repo ≡ some c
    → checked_out (insert id c' repo) + one_if c.hit_checkout_step
      ≡ checked_out repo + one_if c'.hit_checkout_step
unfolding checked_out lookup insert
checked_out-insert id c c' [] e = cc
checked_out-insert id c c' ((j, d) ∷ repo) e = ground (arith, checked_out-insert id c c' repo)

pub lookup-IsHonest :
    (id : ℤ) (c : Client) (repo : Map ℤ Client)
    → lookup id repo ≡ some c
    → AreHonest repo
    → IsHonest c
unfolding lookup
lookup-IsHonest id c [] e h = cc
lookup-IsHonest id c ((j, d) ∷ repo) e h = ground (arith, lookup-IsHonest id c repo)

pub insert-AreHonest :
    (id : ℤ) (c : Client) (repo : Map ℤ Client)
    → IsHonest c
    → AreHonest repo
    → AreHonest (insert id c repo)
unfolding insert
insert-AreHonest id c [] h hs = (h, tt)
insert-AreHonest id c ((j, d) ∷ repo) h hs = ground (arith, insert-AreHonest id c repo)

-- Of a stock of `total` items each client that reached checkout took one, and at most one client
-- more than there were items.
pub record IsBalanced {S : Type 0} (total : ℕ) (sys : System S) : Type 0 where
  pub balance : sys.driver.inventory.count ≡ sub_ℕ total (checked_out sys.client_repo)
  pub sold : checked_out sys.client_repo ≤ total + 1
  pub honest : AreHonest sys.client_repo

pub stock_small :
    (total sold : ℕ) (a : ℤ)
    → total < 2 ^ 31
    → sold ≤ total + 1
    → a ≡ sub_ℕ total sold
    → IsI32 (a +ℤ negsuc 0)
unfolding ◌+ℤ◌
stock_small total sold a small le e = ground arith

pub passed_balance :
    (total sold : ℕ) (a b : ℤ)
    → a ≡ sub_ℕ total sold
    → pos 0 ≤ℤ a
    → b ≡ a +ℤ negsuc 0
    → (b ≡ sub_ℕ total (suc sold)) × (suc sold ≤ total + 1)
unfolding ◌+ℤ◌
passed_balance total sold a b e h d = (ground arith, ground arith)

module _ {S : Type 0} (total : ℕ) (key : ℤ) (sys : System S) (c : Client) (r : Answer S)
    (there : lookup key sys.client_repo ≡ some c) (sound : IsBalanced total sys) where
  new-IsHonest :
      (HasPassed sys.driver (Client.lock c) r) ⊎ (HasStayed sys.driver (Client.lock c) r)
      → IsHonest (Client.unlock r.client)
  unfolding Client.lock Client.unlock
  new-IsHonest h = ground (arith, lookup-IsHonest key c sys.client_repo there sound.honest)

  after : Map ℤ Client
  after = insert key (Client.unlock r.client) sys.client_repo

  passed_adds_one :
      HasPassed sys.driver (Client.lock c) r → checked_out after ≡ suc (checked_out sys.client_repo)
  unfolding after Client.lock Client.unlock
  passed_adds_one h = ground (
    arith,
    lookup-IsHonest key c sys.client_repo there sound.honest,
    checked_out-insert key c (Client.unlock r.client) sys.client_repo there,
  )

  stayed_adds_none :
      HasStayed sys.driver (Client.lock c) r → checked_out after ≡ checked_out sys.client_repo
  unfolding after Client.lock Client.unlock
  stayed_adds_none h =
      ground (arith, checked_out-insert key c (Client.unlock r.client) sys.client_repo there)

  pub respond-IsBalanced :
      (HasPassed sys.driver (Client.lock c) r) ⊎ (HasStayed sys.driver (Client.lock c) r)
      → IsBalanced total (respond key r sys)
  unfolding respond after
  respond-IsBalanced (inl h) =
      let (balance, sold) =
        passed_balance total (checked_out sys.client_repo) sys.driver.inventory.count
          r.driver.inventory.count sound.balance h.in_stock h.one_taken in
      record {
        balance = rw (passed_adds_one h) balance;
        sold = rw (passed_adds_one h) sold;
        honest =
            insert-AreHonest key (Client.unlock r.client) sys.client_repo (new-IsHonest (inl h))
              sound.honest;
      }
  respond-IsBalanced (inr h) = record {
    balance = rw (stayed_adds_none h) (h.none_taken ∙ sound.balance);
    sold = rw (stayed_adds_none h) sound.sold;
    honest =
        insert-AreHonest key (Client.unlock r.client) sys.client_repo (new-IsHonest (inr h))
          sound.honest;
  }

-- Every request names a client of the repository.
abbrev pub AreKnown : {S : Type 0} → System S → List (Instants × MockRequest) → Type 0
AreKnown sys = All (λ e. (c : Client) × (lookup e.1.client_data.id sys.client_repo ≡ some c))

-- A request keeps the repository's clients.
pub known_after :
    (id key : ℤ) (c' : Client) (repo : Map ℤ Client)
    → ((c : Client) × (lookup id repo ≡ some c))
    → (c : Client) × (lookup id (insert key c' repo) ≡ some c)
known_after id key c' repo (c, e) = elim (Bool-cases (key ==ℤ id)) [
  | inl same ↦ (c', lookup-insert key id c' repo ∙ rw same)
  | inr other ↦ (c, lookup-insert key id c' repo ∙ rw other e)
]

AreKnown-respond :
    {S : Type 0} (key : ℤ) (r : Answer S) (sys : System S) (reqs : List (Instants × MockRequest))
    → AreKnown sys reqs
    → AreKnown (respond key r sys) reqs
unfolding respond
AreKnown-respond key r sys [] h = tt
AreKnown-respond key r sys ((t, req) ∷ reqs) h = (
  known_after req.client_data.id key (Client.unlock r.client) sys.client_repo h.0,
  AreKnown-respond key r sys reqs h.1,
)

module _ {fl : Float64} {S : Type 0} (q : Queue fl S) (laws : QueueLaws q) where
  pub serve_known :
      (t : Instants) (req : MockRequest) (sys : System S) (c : Client) (r : Answer S)
      → lookup req.client_data.id sys.client_repo ≡ some c
      → try_transition q 2 t sys.driver (Client.lock c) ≡ some r
      → serve q t req sys ≡ ok (respond req.client_data.id r sys)
  unfolding serve fetch_client_by_id
  serve_known t req sys c r e a = ground arith

  -- Whatever the queue, a run of requests by known clients does not panic, and it keeps the balance:
  -- what is gone from the stock is exactly the number of clients that reached checkout, which is at
  -- most one more than the stock held.
  pub serve_all-IsBalanced :
      (total : ℕ) (reqs : List (Instants × MockRequest)) (sys : System S)
      → total < 2 ^ 31
      → AreKnown sys reqs
      → IsBalanced total sys
      → (sys' : System S) × (serve_all q reqs sys ≡ ok sys') × IsBalanced total sys'
  unfolding serve_all
  serve_all-IsBalanced total [] sys small known sound = (sys, refl, sound)
  serve_all-IsBalanced total ((t, req) ∷ reqs) sys small ((c, there), known) sound =
      let (r, answered, cases) = try_transition-cases q laws 0 t sys.driver (Client.lock c) (
        stock_small total (checked_out sys.client_repo) sys.driver.inventory.count small sound.sold
          sound.balance) in
      let next = respond req.client_data.id r sys in
      let (sys', ran, sound') =
        serve_all-IsBalanced total reqs next small
          (AreKnown-respond req.client_data.id r sys reqs known)
          (respond-IsBalanced total req.client_data.id sys c r there sound cases) in
      (sys', rw (serve_known t req sys c r there answered) ran, sound')
