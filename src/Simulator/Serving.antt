-- ===== src/Simulator/Serving.antt =====
-- The calls of the server workers and the clients whose locks they hold (internal/simulator/simulator.go):
-- what a change of one client means for the calls, and what the step of a call means for the stock.
use goqueuesim.Common.{
  [], ℕ, suc, ◌≡◌, sym, ◌∙◌, subst, ◌⊎◌, inl, inr, true, false, some, arith, Bool-cases, ℤ, ◌==ℤ◌,
  ==ℤ_iff,
}
use goqueuesim.Common.Map.{Map, int_key, lookup, insert, lookup-insert}
use goqueuesim.Client.{Client, queued}
use goqueuesim.Driver.{Driver}
use goqueuesim.Driver.Phases.{Phase}
use goqueuesim.Driver.Selling.{HasProceeded, HasSold, HasKept, awaits}
use goqueuesim.Simulator.{System}
use goqueuesim.Simulator.Stock.{
  IsBalanced, IsHonest, checked_out, checked_out-insert, lookup-IsHonest, insert-AreHonest,
  passed_balance,
}
use goqueuesim.Simulator.Workers.{Call, no_call, in_call}

-- A call runs under its client's lock, and until it takes its item the client is queued.
abbrev pub Serves : Map ℤ Client → ℤ → Call → Type 0
Serves repo id no_call = Unit
Serves repo id (in_call p) =
    (c : Client) × (lookup id repo ≡ some c)
    × (c.is_locked ≡ true)
    × (awaits p ≡ true → c.state ≡ queued)

abbrev pub AreServed : Map ℤ Client → Map ℤ Call → Type 0
AreServed repo calls = (id : ℤ) (call : Call) → lookup id calls ≡ some call → Serves repo id call

pub some_inj {ℓ} : {A : Type ℓ} {a b : A} → some a ≡ some b → a ≡ b
some_inj e = cc e

pub lock_held :
    (id : ℤ) (c : Client) (p : Phase) (repo : Map ℤ Client)
    → lookup id repo ≡ some c
    → Serves repo id (in_call p)
    → (c.is_locked ≡ true) × (awaits p ≡ true → c.state ≡ queued)
lock_held id c p repo there (d, e, locked, waits) =
    let one : c ≡ d = some_inj (sym there ∙ e) in
    (ground (arith, one), λ w. ground (arith, one, waits w))

pub none_served : (repo : Map ℤ Client) → AreServed repo []
unfolding lookup
none_served repo id call e = cc

-- What a map holds at a key after a write there, and elsewhere.
pub found {ℓ} :
    {V : Type ℓ} (key id : ℤ) (v : V) (m : Map ℤ V)
    → ((key ≡ id) × (lookup id (insert key v m) ≡ some v))
      ⊎ ((key ==ℤ id ≡ false) × (lookup id (insert key v m) ≡ lookup id m))
found key id v m = elim (Bool-cases (key ==ℤ id)) [
  | inl same ↦ inl (ground (arith, ==ℤ_iff key id), lookup-insert key id v m ∙ rw same)
  | inr other ↦ inr (other, lookup-insert key id v m ∙ rw other)
]

Serves-elsewhere :
    (key id : ℤ) (c' : Client) (call : Call) (repo : Map ℤ Client)
    → lookup id (insert key c' repo) ≡ lookup id repo
    → Serves repo id call
    → Serves (insert key c' repo) id call
Serves-elsewhere key id c' no_call repo e h = tt
Serves-elsewhere key id c' (in_call p) repo e (c, there, locked, waits) =
    (c, e ∙ there, locked, waits)

-- A client that no worker has locked may change.
Serves-unlocked :
    (key id : ℤ) (c c' : Client) (call : Call) (repo : Map ℤ Client)
    → lookup key repo ≡ some c
    → c.is_locked ≡ false
    → key ≡ id
    → Serves repo id call
    → Serves (insert key c' repo) id call
Serves-unlocked key id c c' no_call repo there free same h = tt
Serves-unlocked key id c c' (in_call p) repo there free same (d, e, locked, _) =
    let clash : c ≡ d = some_inj (sym there ∙ subst (λ k. lookup k repo ≡ some d) (sym same) e) in
    cc

pub unlocked-AreServed :
    (key : ℤ) (c c' : Client) (repo : Map ℤ Client) (calls : Map ℤ Call)
    → lookup key repo ≡ some c
    → c.is_locked ≡ false
    → AreServed repo calls
    → AreServed (insert key c' repo) calls
unlocked-AreServed key c c' repo calls there free h id call e = elim (found key id c' repo) [
  | inl (same, _) ↦ Serves-unlocked key id c c' call repo there free same (h id call e)
  | inr (_, kept) ↦ Serves-elsewhere key id c' call repo kept (h id call e)
]

-- So may any client, in what the calls do not rely on.
Serves-same :
    (key id : ℤ) (c c' : Client) (call : Call) (repo : Map ℤ Client)
    → lookup key repo ≡ some c
    → c'.is_locked ≡ c.is_locked
    → c'.state ≡ c.state
    → key ≡ id
    → lookup id (insert key c' repo) ≡ some c'
    → Serves repo id call
    → Serves (insert key c' repo) id call
Serves-same key id c c' no_call repo there lock state same new h = tt
Serves-same key id c c' (in_call p) repo there lock state same new (d, e, locked, waits) =
    let one : c ≡ d = some_inj (sym there ∙ subst (λ k. lookup k repo ≡ some d) (sym same) e) in
    (c', new, cc, λ w. ground (arith, waits w, state, one))

pub same-AreServed :
    (key : ℤ) (c c' : Client) (repo : Map ℤ Client) (calls : Map ℤ Call)
    → lookup key repo ≡ some c
    → c'.is_locked ≡ c.is_locked
    → c'.state ≡ c.state
    → AreServed repo calls
    → AreServed (insert key c' repo) calls
same-AreServed key c c' repo calls there lock state h id call e = elim (found key id c' repo) [
  | inl (same, new) ↦ Serves-same key id c c' call repo there lock state same new (h id call e)
  | inr (_, kept) ↦ Serves-elsewhere key id c' call repo kept (h id call e)
]

-- The worker that holds a client's lock changes both.
pub own-AreServed :
    (key : ℤ) (c' : Client) (call' : Call) (repo : Map ℤ Client) (calls : Map ℤ Call)
    → Serves (insert key c' repo) key call'
    → AreServed repo calls
    → AreServed (insert key c' repo) (insert key call' calls)
own-AreServed key c' call' repo calls mine h id call e = elim (found key id call' calls) [
  | inl (same, new) ↦
      subst (λ k. Serves (insert key c' repo) k call) same
        (subst (Serves (insert key c' repo) key) (some_inj (sym new ∙ e)) mine)
  | inr (other, kept) ↦
      Serves-elsewhere key id c' call repo (lookup-insert key id c' repo ∙ rw other)
        (h id call (sym kept ∙ e))
]

module _ {S : Type 0} (total : ℕ) (key : ℤ) (sys : System S) (c : Client)
    (r : Driver S × Client × Phase) (there : lookup key sys.client_repo ≡ some c)
    (sound : IsBalanced total sys) (moved : HasProceeded sys.driver c r) where
  after-IsHonest : IsHonest r.1
  after-IsHonest =
      ground (arith, moved.stock, lookup-IsHonest key c sys.client_repo there sound.honest)

  sold_adds_one :
      HasSold sys.driver c r.0 r.1
      → checked_out (insert key r.1 sys.client_repo) ≡ suc (checked_out sys.client_repo)
  sold_adds_one h = ground (
    arith,
    lookup-IsHonest key c sys.client_repo there sound.honest,
    checked_out-insert key c r.1 sys.client_repo there,
  )

  kept_adds_none :
      HasKept sys.driver c r.0 r.1
      → checked_out (insert key r.1 sys.client_repo) ≡ checked_out sys.client_repo
  kept_adds_none h = ground (arith, checked_out-insert key c r.1 sys.client_repo there)

  pub after_step-IsBalanced :
      IsBalanced total (record sys { driver = r.0; client_repo = insert key r.1 sys.client_repo })
  after_step-IsBalanced = elim moved.stock [
    | inl h ↦
        let (balance, sold) =
          passed_balance total (checked_out sys.client_repo) sys.driver.inventory.count
            r.0.inventory.count sound.balance h.in_stock h.one_taken in
        record {
          balance = rw (sold_adds_one h) balance;
          sold = rw (sold_adds_one h) sold;
          honest = insert-AreHonest key r.1 sys.client_repo after-IsHonest sound.honest;
        }
    | inr h ↦ record {
      balance = rw (kept_adds_none h) (h.none_taken ∙ sound.balance);
      sold = rw (kept_adds_none h) sound.sold;
      honest = insert-AreHonest key r.1 sys.client_repo after-IsHonest sound.honest;
    }
  ]
