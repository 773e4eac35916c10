-- ===== src/Simulator/Start.antt =====
-- The state in which the server starts: startClients of internal/simulator/simulator.go.
use goqueuesim.Common.{ℕ, ◌≡◌, refl, ◌∙◌, inl, false, List, [], ◌∷◌, All, arith, ℤ, pos, sub_ℕ}
use goqueuesim.Common.Map.{Map, int_key, insert}
use goqueuesim.Client.{Client}
use goqueuesim.Simulator.{System, write_client, start_clients}
use goqueuesim.Simulator.Stock.{checked_out, AreHonest, IsBalanced}

-- No client of the repository has reached checkout.
abbrev AreFresh : Map ℤ Client → Type 0
AreFresh = All (λ e. e.1.hit_checkout_step ≡ false)

insert-AreFresh :
    (id : ℤ) (c : Client) (repo : Map ℤ Client)
    → c.hit_checkout_step ≡ false
    → AreFresh repo
    → AreFresh (insert id c repo)
unfolding insert
insert-AreFresh id c [] h hs = (h, tt)
insert-AreFresh id c ((j, d) ∷ repo) h hs = ground (arith, insert-AreFresh id c repo)

checked_out_none : (repo : Map ℤ Client) → AreFresh repo → checked_out repo ≡ 0
unfolding checked_out
checked_out_none [] h = refl
checked_out_none ((id, c) ∷ repo) h = ground (arith, checked_out_none repo)

fresh-AreHonest : (repo : Map ℤ Client) → AreFresh repo → AreHonest repo
fresh-AreHonest [] h = tt
fresh-AreHonest ((id, c) ∷ repo) h = (inl h.0, fresh-AreHonest repo h.1)

start_driver :
    {S : Type 0} (cs : List Client) (sys : System S) → (start_clients cs sys).driver ≡ sys.driver
unfolding start_clients
start_driver [] sys = refl
start_driver (c ∷ cs) sys = start_driver cs _

start-AreFresh :
    {S : Type 0} (cs : List Client) (sys : System S)
    → All (λ c. c.hit_checkout_step ≡ false) cs
    → AreFresh sys.client_repo
    → AreFresh (start_clients cs sys).client_repo
unfolding start_clients write_client
start-AreFresh [] sys h r = r
start-AreFresh (c ∷ cs) sys h r =
    start-AreFresh cs _ h.1 (insert-AreFresh c.id c sys.client_repo h.0 r)

none_sold : (n : ℕ) → pos n ≡ sub_ℕ n 0
none_sold n = ground arith

-- Clients that have not reached checkout, started over an empty repository with a stock of `total`
-- items, leave the stock balanced.
pub start_clients-IsBalanced :
    {S : Type 0} (total : ℕ) (cs : List Client) (sys : System S)
    → All (λ c. c.hit_checkout_step ≡ false) cs
    → sys.client_repo ≡ []
    → sys.driver.inventory.count ≡ pos total
    → IsBalanced total (start_clients cs sys)
start_clients-IsBalanced total cs sys h empty stock =
    let fresh = start-AreFresh cs sys h (rw empty tt) in
    let none_out = checked_out_none (start_clients cs sys).client_repo fresh in
    record {
      balance = rw (start_driver cs sys, none_out) (stock ∙ none_sold total);
      sold = rw none_out (omega arith);
      honest = fresh-AreHonest (start_clients cs sys).client_repo fresh;
    }
