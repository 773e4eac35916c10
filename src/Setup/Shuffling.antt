-- ===== src/Setup/Shuffling.antt =====
-- The order of the clients: rand.Shuffle in makeMockCheckoutClients (cmd/goqueuesim/config.go).
use goqueuesim.Common.{
  ℕ, zero, suc, ◌+◌, ◌≡◌, refl, ◌∙◌, ap, false, Option, none, some, List, [], ◌∷◌, if◌then◌else◌,
  arith, ℤ, ◌==ℤ◌, length,
}
use goqueuesim.Client.{Client}
use goqueuesim.Setup.{get_elem?, set_elem, swap, shuffle}
use goqueuesim.Setup.Numbering.{times, AreFresh}

times-set_elem :
    (id : ℤ) (n : ℕ) (c d : Client) (cs : List Client)
    → get_elem? cs n ≡ some d
    → times id (set_elem n c cs) + (if d.id ==ℤ id then 1 else 0)
      ≡ times id cs + (if c.id ==ℤ id then 1 else 0)
unfolding times set_elem get_elem?
times-set_elem id n c d [] e = cc
times-set_elem id zero c d (x ∷ cs) e = ground arith
times-set_elem id (suc n) c d (x ∷ cs) e = ground (arith, times-set_elem id n c d cs)

length-set_elem : (n : ℕ) (c : Client) (cs : List Client) → length (set_elem n c cs) ≡ length cs
unfolding set_elem
length-set_elem n c [] = refl
length-set_elem zero c (x ∷ cs) = refl
length-set_elem (suc n) c (x ∷ cs) = ap suc (length-set_elem n c cs)

set_elem-AreFresh :
    (n : ℕ) (c : Client) (cs : List Client)
    → c.hit_checkout_step ≡ false
    → AreFresh cs
    → AreFresh (set_elem n c cs)
unfolding set_elem
set_elem-AreFresh n c [] h hs = tt
set_elem-AreFresh zero c (x ∷ cs) h hs = (h, hs.1)
set_elem-AreFresh (suc n) c (x ∷ cs) h hs = (hs.0, set_elem-AreFresh n c cs h hs.1)

get-AreFresh :
    (n : ℕ) (c : Client) (cs : List Client)
    → get_elem? cs n ≡ some c
    → AreFresh cs
    → c.hit_checkout_step ≡ false
unfolding get_elem?
get-AreFresh n c [] e h = cc
get-AreFresh zero c (x ∷ cs) e h = ground arith
get-AreFresh (suc n) c (x ∷ cs) e h = get-AreFresh n c cs e h.1

-- The other element of a swap is still there once the first is written.
get_elem?-set_elem :
    (i j : ℕ) (d : Client) (cs : List Client)
    → get_elem? cs j ≡ some d
    → get_elem? (set_elem i d cs) j ≡ some d
unfolding get_elem? set_elem
get_elem?-set_elem i j d [] e = cc
get_elem?-set_elem zero zero d (x ∷ cs) e = refl
get_elem?-set_elem zero (suc j) d (x ∷ cs) e = e
get_elem?-set_elem (suc i) zero d (x ∷ cs) e = e
get_elem?-set_elem (suc i) (suc j) d (x ∷ cs) e = get_elem?-set_elem i j d cs e

-- The same clients, as far as ids, their number and their record of checkout go.
pub record SameClients (cs cs' : List Client) : Type 0 where
  pub same_times : (id : ℤ) → times id cs' ≡ times id cs
  pub same_length : length cs' ≡ length cs
  pub same_fresh : AreFresh cs → AreFresh cs'

pub SameClients-refl : (cs : List Client) → SameClients cs cs
SameClients-refl cs = record { same_times = λ id. refl; same_length = refl; same_fresh = λ h. h }

swapped :
    (i j : ℕ) (c d : Client) (cs : List Client)
    → get_elem? cs i ≡ some c
    → get_elem? cs j ≡ some d
    → SameClients cs (set_elem j c (set_elem i d cs))
swapped i j c d cs at_i at_j = record {
  same_times = λ id. omega (
    arith,
    times-set_elem id i d c cs at_i,
    times-set_elem id j c d (set_elem i d cs) (get_elem?-set_elem i j d cs at_j),
  );
  same_length = length-set_elem j c (set_elem i d cs) ∙ length-set_elem i d cs;
  same_fresh = λ h.
      set_elem-AreFresh j c (set_elem i d cs) (get-AreFresh i c cs at_i h)
        (set_elem-AreFresh i d cs (get-AreFresh j d cs at_j h) h);
}

swap-SameClients : (i j : ℕ) (cs : List Client) → SameClients cs (swap i j cs)
unfolding swap
swap-SameClients i j cs = first (get_elem? cs i) refl
  where
    second :
        (c : Client) (o : Option Client)
        → get_elem? cs i ≡ some c
        → get_elem? cs j ≡ o
        → SameClients cs (elim o [ none ↦ cs | some d ↦ set_elem j c (set_elem i d cs) ])
    second c none at_i e = SameClients-refl cs
    second c (some d) at_i at_j = swapped i j c d cs at_i at_j

    first :
        (o : Option Client)
        → get_elem? cs i ≡ o
        → SameClients cs (elim o [
          | none ↦ cs
          | some c ↦ elim (get_elem? cs j) [ none ↦ cs | some d ↦ set_elem j c (set_elem i d cs) ]
        ])
    first none e = SameClients-refl cs
    first (some c) at_i = second c (get_elem? cs j) at_i refl

pub shuffle-SameClients :
    (swaps : List (ℕ × ℕ)) (cs : List Client) → SameClients cs (shuffle swaps cs)
unfolding shuffle
shuffle-SameClients [] cs = SameClients-refl cs
shuffle-SameClients ((i, j) ∷ swaps) cs =
    let h = swap-SameClients i j cs in
    let k = shuffle-SameClients swaps (swap i j cs) in
    record {
      same_times = λ id. k.same_times id ∙ h.same_times id;
      same_length = k.same_length ∙ h.same_length;
      same_fresh = λ f. k.same_fresh (h.same_fresh f);
    }
