-- ===== src/Queue/SortedSet/Order.antt =====
-- The sorted set queue against a list in order of arrival
-- (internal/throttle/queue/impl/redis_queue/sorted_set_queue.go).
use goqueuesim.Common.{
  String, ◌≡◌, refl, sym, ◌∙◌, ap, subst, Bool, true, false, none, some, List, [], ◌∷◌, ◌++◌, All,
  if◌then◌else◌,
}
use goqueuesim.Common.Map.{Map, string_key, ◌==◌, lookup, delete}
use goqueuesim.Common.Panic.{Outcome, ok, ◌>>=◌}
use goqueuesim.Common.Float.{Float64}
use goqueuesim.Client.{Client}
use goqueuesim.Queue.SortedSet.{SortedSets, SortedSetQueue, member, score, add, remove, clear}
use goqueuesim.Queue.SortedSet.Server.{IsSorted, Placed}

-- The calls that change the sorted set.
pub data Call : Type 0 where
  adds removes : Client → Call
  clears : Call

-- The list that the queue stands for: who arrives goes last, unless the client is there already.
unfoldable pub arrive {ℓ} : {A : Type ℓ} → String → A → Map String A → Map String A
arrive m s es = elim (lookup m es) [ none ↦ es ++ (m, s) ∷ [] | some old ↦ es ]

module _ {fl : Float64} {R : Type 0} (server : SortedSets fl R) where
  open fl use {Carrier, lt}

  unfoldable pub call : Call → SortedSetQueue R → Outcome (SortedSetQueue R)
  call (adds c) q = add server q c
  call (removes c) q = remove server q c
  call clears q = clear server q

  unfoldable pub call_all : List Call → SortedSetQueue R → Outcome (SortedSetQueue R)
  call_all [] q = ok q
  call_all (k ∷ ks) q = call k q >>= call_all ks

  unfoldable pub arrival : Call → Map String Carrier → Map String Carrier
  arrival (adds c) es = arrive (member c) (score server c) es
  arrival (removes c) es = delete (member c) es
  arrival clears es = []

  unfoldable pub arrivals : List Call → Map String Carrier → Map String Carrier
  arrivals [] es = es
  arrivals (k ∷ ks) es = arrivals ks (arrival k es)

  -- A client that is added has a higher score than all that are there.
  abbrev pub IsLater : Call → Map String Carrier → Type 0
  IsLater (adds c) es = All (λ e. lt e.1 (score server c) ≡ true) es
  IsLater (removes c) es = Unit
  IsLater clears es = Unit

  abbrev pub InOrder : List Call → Map String Carrier → Type 0
  InOrder [] es = Unit
  InOrder (k ∷ ks) es = IsLater k es × InOrder ks (arrival k es)

append_nil {ℓ} : {A : Type ℓ} (xs : List A) → xs ++ [] ≡ xs
append_nil [] = refl
append_nil (x ∷ xs) = ap (λ ys. x ∷ ys) (append_nil xs)

All-middle {ℓ κ} :
    {A : Type ℓ} (P : A → Type κ) (xs ys : List A) (y : A) → All P (xs ++ y ∷ ys) → P y
All-middle P [] ys y h = h.0
All-middle P (x ∷ xs) ys y h = All-middle P xs ys y h.1

All-if {ℓ κ} :
    {A : Type ℓ} (P : A → Type κ) (b : Bool) (xs ys : List A)
    → All P xs
    → All P ys
    → All P (if b then xs else ys)
All-if P true xs ys h k = h
All-if P false xs ys h k = k

All-delete {ℓ κ} :
    {A : Type ℓ} (P : (String × A) → Type κ) (m : String) (es : Map String A)
    → All P es
    → All P (delete m es)
unfolding delete
All-delete P m [] h = tt
All-delete P m ((k, s) ∷ es) h =
    All-if P (k == m) es ((k, s) ∷ delete m es) h.1 (h.0, All-delete P m es h.1)

module _ (fl : Float64) where
  open fl use {Carrier, lt}

  -- A member with a score above all others goes last.
  pub goes_last :
      (m : String) (s : Carrier) (es es' : Map String Carrier)
      → Placed fl m s es es'
      → All (λ e. lt e.1 s ≡ true) es
      → (es' ≡ es ++ (m, s) ∷ []) × All (λ e. lt s e.1 ≡ false) es
  goes_last m s es es' p later = go p.before p.after p.split p.placed p.below p.above
    where
      go :
          (before after : Map String Carrier)
          → es ≡ before ++ after
          → es' ≡ before ++ (m, s) ∷ after
          → All (λ e. lt s e.1 ≡ false) before
          → All (λ e. lt e.1 s ≡ false) after
          → (es' ≡ es ++ (m, s) ∷ []) × All (λ e. lt s e.1 ≡ false) es
      go before [] split placed below above =
          let same : es ≡ before = split ∙ append_nil before in
          (
            placed ∙ ap (λ x. x ++ (m, s) ∷ []) (sym same),
            subst (All (λ e. lt s e.1 ≡ false)) (sym same) below,
          )
      go before (y ∷ ys) split placed below above =
          let higher =
            All-middle (λ e. lt e.1 s ≡ true) before ys y
              (subst (All (λ e. lt e.1 s ≡ true)) split later) in
          cc (higher, above.0)

  pub append-IsSorted :
      (m : String) (s : Carrier) (es : Map String Carrier)
      → IsSorted fl es
      → All (λ e. lt s e.1 ≡ false) es
      → IsSorted fl (es ++ (m, s) ∷ [])
  append-IsSorted m s [] sorted above = (tt, tt)
  append-IsSorted m s (e ∷ es) sorted above =
      (snoc es sorted.0 above.0, append-IsSorted m s es sorted.1 above.1)
    where
      snoc :
          (ds : Map String Carrier)
          → All (λ d. lt d.1 e.1 ≡ false) ds
          → lt s e.1 ≡ false
          → All (λ d. lt d.1 e.1 ≡ false) (ds ++ (m, s) ∷ [])
      snoc [] h k = (k, tt)
      snoc (d ∷ ds) h k = (h.0, snoc ds h.1 k)

  pub delete-IsSorted :
      (m : String) (es : Map String Carrier) → IsSorted fl es → IsSorted fl (delete m es)
  unfolding delete
  delete-IsSorted m [] h = tt
  delete-IsSorted m ((k, s) ∷ es) h =
      either (k == m) h.1 (All-delete (λ d. lt d.1 s ≡ false) m es h.0, delete-IsSorted m es h.1)
    where
      either :
          (b : Bool)
          → IsSorted fl es
          → IsSorted fl ((k, s) ∷ delete m es)
          → IsSorted fl (if b then es else (k, s) ∷ delete m es)
      either true g l = g
      either false g l = l
