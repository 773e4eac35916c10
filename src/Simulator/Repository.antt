-- ===== src/Simulator/Repository.antt =====
-- How the client repository changes when a client is written back, and which requests name a client
-- of it (internal/simulator/client_repo.go and simulator.go).
use goqueuesim.Common.{ℕ, ◌≡◌, sym, subst, some, List, [], ◌∷◌, ◌++◌, All, arith, ℤ, ==ℤ_iff}
use goqueuesim.Common.Map.{Map, int_key, lookup, insert}
use goqueuesim.Client.{Client}
use goqueuesim.Network.{MockRequest}
use goqueuesim.Polling.{Net}
use goqueuesim.Polling.Sending.{SameClient, Sends, All-append}
use goqueuesim.Simulator.{System}
use goqueuesim.Simulator.Stock.{
  IsBalanced, IsHonest, checked_out, checked_out-insert, lookup-IsHonest, insert-AreHonest,
  known_after,
}

abbrev pub Knows : Map ℤ Client → MockRequest → Type 0
Knows repo req = (c : Client) × (lookup req.client_data.id repo ≡ some c)

abbrev pub AreNamed : Map ℤ Client → Type 0
AreNamed = All (λ e. e.1.id ≡ e.0)

pub lookup-named :
    (id : ℤ) (c : Client) (repo : Map ℤ Client)
    → lookup id repo ≡ some c
    → AreNamed repo
    → c.id ≡ id
unfolding lookup
lookup-named id c [] e h = cc
lookup-named id c ((j, d) ∷ repo) e h = ground (arith, ==ℤ_iff j id, lookup-named id c repo)

pub insert-AreNamed :
    (id : ℤ) (c : Client) (repo : Map ℤ Client)
    → c.id ≡ id
    → AreNamed repo
    → AreNamed (insert id c repo)
unfolding insert
insert-AreNamed id c [] e h = (e, tt)
insert-AreNamed id c ((j, d) ∷ repo) e h = ground (arith, insert-AreNamed id c repo)

pub All-map {ℓ κ μ} :
    {A : Type ℓ} (P : A → Type κ) (Q : A → Type μ) (xs : List A)
    → ((a : A) → P a → Q a)
    → All P xs
    → All Q xs
All-map P Q [] f h = tt
All-map P Q (x ∷ xs) f h = (f x h.0, All-map P Q xs f h.1)

pub All-split {ℓ κ} :
    {A : Type ℓ} (P : A → Type κ) (xs ys : List A) → All P (xs ++ ys) → All P xs × All P ys
All-split P [] ys h = (tt, h)
All-split P (x ∷ xs) ys h = let (a, b) = All-split P xs ys h.1 in ((h.0, a), b)

pub Knows-insert :
    (id : ℤ) (c : Client) (repo : Map ℤ Client) (reqs : List MockRequest)
    → All (Knows repo) reqs
    → All (Knows (insert id c repo)) reqs
Knows-insert id c repo reqs =
    All-map (Knows repo) (Knows (insert id c repo)) reqs
      (λ req. known_after req.client_data.id id c repo)

-- Requests in the name of a client that stands in the repository.
known_sent :
    (id : ℤ) (c : Client) (repo : Map ℤ Client) (reqs : List MockRequest)
    → lookup id repo ≡ some c
    → All (λ r. r.client_data.id ≡ id) reqs
    → All (Knows repo) reqs
known_sent id c repo reqs e =
    All-map (λ r. r.client_data.id ≡ id) (Knows repo) reqs (λ r h. (c, rw h e))

pub Sends-Knows :
    (id : ℤ) (c : Client) (repo : Map ℤ Client) (net net' : Net)
    → lookup id repo ≡ some c
    → Sends id net net'
    → All (Knows repo) net.requests
    → All (Knows repo) net'.requests
Sends-Knows id c repo net net' there (sent, e, h) known =
    subst (All (Knows repo)) (sym e)
      (All-append (Knows repo) net.requests sent known (known_sent id c repo sent there h))

-- A client that is written back by a step of its own side.
module _ {S : Type 0} (total : ℕ) (id : ℤ) (c c' : Client) (sys : System S)
    (there : lookup id sys.client_repo ≡ some c) (same : SameClient c c') where
  unfoldable pub written : Map ℤ Client
  written = insert id c' sys.client_repo

  same_count : checked_out written ≡ checked_out sys.client_repo
  unfolding written
  same_count = ground (arith, same, checked_out-insert id c c' sys.client_repo there)

  still-IsHonest : IsHonest c → IsHonest c'
  still-IsHonest h = ground (arith, same)

  pub written-IsBalanced :
      IsBalanced total sys → IsBalanced total (record sys { client_repo = written })
  written-IsBalanced h = record {
    balance = rw same_count h.balance;
    sold = rw same_count h.sold;
    honest =
        unfold written in
        insert-AreHonest id c' sys.client_repo
          (still-IsHonest (lookup-IsHonest id c sys.client_repo there h.honest)) h.honest;
  }
