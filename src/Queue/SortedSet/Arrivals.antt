-- ===== src/Queue/SortedSet/Arrivals.antt =====
-- The sorted set queue over a run of calls: it keeps its clients in order of arrival
-- (internal/throttle/queue/impl/redis_queue/sorted_set_queue.go).
use goqueuesim.Common.{
  ℕ, String, ◌≡◌, refl, sym, ◌∙◌, ap, subst, Option, none, some, List, [], ◌∷◌, ◌++◌, pos, negsuc,
  ltb_ℤ,
}
use goqueuesim.Common.Map.{Map, string_key, lookup}
use goqueuesim.Common.Panic.{ok, panic, ◌>>=◌, fatal}
use goqueuesim.Common.Float.{Float64}
use goqueuesim.Client.{Client}
use goqueuesim.Queue.SortedSet.{
  Reply, replied, failed, or_panic, SortedSets, SortedSetQueue, build_sorted_set_key, member, score,
  add, remove, is_candidate_to_proceed, clear,
}
use goqueuesim.Queue.SortedSet.Server.{index_of, IsSorted, RedisLaws, IsReachable}
use goqueuesim.Queue.SortedSet.Order.{
  Call, adds, removes, clears, arrive, call, call_all, arrival, arrivals, IsLater, InOrder,
  goes_last, append-IsSorted, delete-IsSorted,
}

ok-inj {ℓ} : {A : Type ℓ} {a b : A} → ok a ≡ ok b → a ≡ b
ok-inj e = cc e

module _ {fl : Float64} {R : Type 0} (server : SortedSets fl R) (laws : RedisLaws fl server) where
  open fl use {Carrier, lt}

  -- The clients that are queued, in order.
  abbrev pub standing : SortedSetQueue R → Map String Carrier
  standing q = laws.z_range build_sorted_set_key q.redis

  abbrev Follows : Map String Carrier → SortedSetQueue R → SortedSetQueue R → Type 0
  Follows es q q' = (standing q' ≡ es) × IsSorted fl es × (q'.window_size ≡ q.window_size)

  added_last :
      (c : Client) (q q' : SortedSetQueue R)
      → IsSorted fl (standing q)
      → IsLater server (adds c) (standing q)
      → server.z_add_nx build_sorted_set_key (score server c) (member c) q.redis ≡ replied q'.redis
      → q'.window_size ≡ q.window_size
      → Follows (arrive (member c) (score server c) (standing q)) q q'
  unfolding arrive
  added_last c q q' sorted later ran window = go (lookup (member c) (standing q)) refl
    where
      go :
          (o : Option Carrier)
          → lookup (member c) (standing q) ≡ o
          → Follows
              (elim o [
                | none ↦ standing q ++ (member c, score server c) ∷ []
                | some old ↦ standing q
              ])
              q
              q'
      go (some old) e = (
        laws.present build_sorted_set_key (score server c) old (member c) q.redis q'.redis e ran,
        sorted,
        window,
      )
      go none e =
          let (last, above) =
            goes_last fl (member c) (score server c) (standing q) (standing q')
              (laws.added build_sorted_set_key (score server c) (member c) q.redis q'.redis sorted e
                ran)
              later in
          (last, append-IsSorted fl (member c) (score server c) (standing q) sorted above, window)

  call-Follows :
      (k : Call) (q : SortedSetQueue R)
      → IsReachable fl server laws
      → IsSorted fl (standing q)
      → IsLater server k (standing q)
      → (q' : SortedSetQueue R) × (call server k q ≡ ok q')
        × Follows (arrival server k (standing q)) q q'
  unfolding call arrival add remove clear or_panic
  call-Follows (adds c) q up sorted later =
      let (r, ran) = up.adds build_sorted_set_key (score server c) (member c) q.redis in
      (
        record q { redis = r },
        rw ran refl,
        added_last c q (record q { redis = r }) sorted later ran refl,
      )
  call-Follows (removes c) q up sorted later =
      let (r, ran) = up.removes build_sorted_set_key (member c) q.redis in
      (
        record q { redis = r },
        rw ran refl,
        (
          laws.removed build_sorted_set_key (member c) q.redis r ran,
          delete-IsSorted fl (member c) (standing q) sorted,
          refl,
        ),
      )
  call-Follows clears q up sorted later =
      let (r, ran) = up.empties build_sorted_set_key q.redis in
      (
        record q { redis = r },
        rw ran refl,
        (laws.emptied build_sorted_set_key q.redis r ran, tt, refl),
      )

  -- If the server is reachable and clients arrive with growing scores, a run of calls ends, and leaves
  -- the clients queued in order of arrival, in the same window.
  call_all-arrivals :
      (ks : List Call) (q : SortedSetQueue R)
      → IsReachable fl server laws
      → IsSorted fl (standing q)
      → InOrder server ks (standing q)
      → (q' : SortedSetQueue R) × (call_all server ks q ≡ ok q')
        × Follows (arrivals server ks (standing q)) q q'
  unfolding call_all arrivals
  call_all-arrivals [] q up sorted order = (q, refl, (refl, sorted, refl))
  call_all-arrivals (k ∷ ks) q up sorted order =
      let (mid, ran, (same, sorted', window)) = call-Follows k q up sorted order.0 in
      let (q', rest, (same', sorted'', window')) =
        call_all-arrivals ks mid up (subst (IsSorted fl) (sym same) sorted')
          (subst (InOrder server ks) (sym same) order.1) in
      (
        q',
        (rw ran rest),
        (
          same' ∙ ap (arrivals server ks) same,
          subst (λ es. IsSorted fl (arrivals server ks es)) same sorted'',
          window' ∙ window,
        ),
      )

  -- On a server that is reachable, a queue that starts empty and that clients enter with growing scores
  -- lets a client that stands in it proceed exactly while the client's position in order of arrival
  -- is below the window size.
  pub candidate-arrivals :
      (ks : List Call) (q : SortedSetQueue R) (c : Client) (n : ℕ)
      → IsReachable fl server laws
      → standing q ≡ []
      → InOrder server ks []
      → index_of (member c) (arrivals server ks []) ≡ some n
      → (q' : SortedSetQueue R) × (call_all server ks q ≡ ok q')
        × (is_candidate_to_proceed server q' c ≡ ok (ltb_ℤ (pos n) q.window_size))
  unfolding is_candidate_to_proceed or_panic
  candidate-arrivals ks q c n up empty order found =
      let (q', ran, (same, sorted, window)) =
        call_all-arrivals ks q up (subst (IsSorted fl) (sym empty) tt)
          (subst (InOrder server ks) (sym empty) order) in
      let at : index_of (member c) (standing q') ≡ some n =
        ap (index_of (member c)) (same ∙ ap (arrivals server ks) empty) ∙ found in
      let (rank, answered) = up.ranks build_sorted_set_key (member c) q'.redis n at in
      let right = laws.ranked build_sorted_set_key (member c) q'.redis n rank at answered in
      (q', ran, rw (answered, right, window) refl)

  cleared-empty : (q q' : SortedSetQueue R) → clear server q ≡ ok q' → standing q' ≡ []
  unfolding clear or_panic
  cleared-empty q q' ran =
      go (server.z_rem_range_by_rank build_sorted_set_key (pos 0) (negsuc 0) q.redis) refl ran
    where
      go :
          (answer : Reply R)
          → server.z_rem_range_by_rank build_sorted_set_key (pos 0) (negsuc 0) q.redis ≡ answer
          → (or_panic answer >>= λ r. ok (record q { redis = r })) ≡ ok q'
          → standing q' ≡ []
      go (failed err) answered e = cc e
      go (replied r) answered e =
          ap standing (sym (ok-inj e)) ∙ laws.emptied build_sorted_set_key q.redis r answered

  -- Once the queue is cleared, the next poll of any client panics.
  pub clear-then-poll :
      (q q' : SortedSetQueue R) (c : Client)
      → clear server q ≡ ok q'
      → (err : String) × (is_candidate_to_proceed server q' c ≡ panic (fatal err))
  unfolding is_candidate_to_proceed or_panic index_of
  clear-then-poll q q' c ran =
      let (err, answered) =
        laws.unranked build_sorted_set_key (member c) q'.redis
          (ap (index_of (member c)) (cleared-empty q q' ran)) in
      (err, rw answered refl)
