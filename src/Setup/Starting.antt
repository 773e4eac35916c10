-- ===== src/Setup/Starting.antt =====
-- When the simulation starts: cmd/goqueuesim/main.go and config.go.
use goqueuesim.Common.{
  ℕ, zero, suc, ◌≡◌, ◌⊎◌, inl, inr, refl, ap, Bool, ◌||◌, none, some, List, [], ◌∷◌, ◌++◌, All,
  if◌then◌else◌, arith, ℤ, pos, negsuc, ◌+ℤ◌, ◌-ℤ◌, ◌*ℤ◌, ◌≤ℤ◌, ltb_ℤ, pos_part,
}
use goqueuesim.Common.Map.{int_key, string_key, insert}
use goqueuesim.Common.Word.{i64}
use goqueuesim.Common.Panic.{Outcome, ok, panic, ◌>>=◌, fatal}
use goqueuesim.Common.Float.{Float64}
use goqueuesim.Client.{Client}
use goqueuesim.ClientFactory.{
  ClientConfig, make_client_from_config, make_base_client, make_fully_disappearing_client,
  make_lazy_polling_client, make_exponential_backoff_client, make_jit_greedy_poller,
}
use goqueuesim.Tracker.{FixedWindowTracker, make_fixed_window_tracker}
use goqueuesim.Polling.{Net}
use goqueuesim.Queue.{Queue}
use goqueuesim.Simulator.Workers.{Simulation}
use goqueuesim.Setup.{
  Made, Distribution, num_clients_of, actual_num_clients, target_num_clients, validate_params,
  set_logging, load_client_distribution_config, prepare_network_params, make_one, make_some,
  make_all, make_mock_checkout_clients,
}
use goqueuesim.Setup.Main.{main, make_client_repo, make_rate_tracker}

-- The five types of clients that a configuration may name.
abbrev pub IsKnown : ClientConfig → Type 0
IsKnown config =
    (config.client_type ≡ "routinely_polling_client")
    ⊎ (config.client_type ≡ "fully_disappearing_client")
    ⊎ (config.client_type ≡ "lazy_polling_client")
    ⊎ (config.client_type ≡ "exponential_backoff_client")
    ⊎ (config.client_type ≡ "jit_greedy_poller")

-- makeClientFromConfig makes a client of each of them.
known_makes :
    (config : ClientConfig) (id : ℤ)
    → IsKnown config
    → (c : Client) × (make_client_from_config config id ≡ some c)
unfolding make_client_from_config
known_makes config id (inl e) = (make_base_client config id, rw e refl)
known_makes config id (inr (inl e)) =
    (make_fully_disappearing_client config (make_base_client config id), rw e refl)
known_makes config id (inr (inr (inl e))) =
    (make_lazy_polling_client config (make_base_client config id), rw e refl)
known_makes config id (inr (inr (inr (inl e)))) =
    (make_exponential_backoff_client config (make_base_client config id), rw e refl)
known_makes config id (inr (inr (inr (inr e)))) =
    (make_jit_greedy_poller config (make_base_client config id), rw e refl)

make_one_makes :
    (config : ClientConfig) (m : Made) → IsKnown config → (m' : Made) × (make_one config m ≡ ok m')
unfolding make_one
make_one_makes config m known =
    let (c, e) = known_makes config m.next_id known in
    (
      _,
      ap
          (λ o. elim o as (λ x. Outcome Made) [
            | none ↦ panic (fatal "client type must be one of: {routinely_polling_client}")
            | some d ↦ ok (record {
              clients = m.clients ++ d ∷ [];
              response_channels = insert m.next_id [] m.response_channels;
              next_id = i64 (m.next_id +ℤ pos 1);
            })
          ])
          e,
    )

then_ok {ℓ κ} :
    {A : Type ℓ} {B : Type κ} (m : Outcome A) (a : A) (f : A → Outcome B) (b : B)
    → m ≡ ok a
    → f a ≡ ok b
    → (m >>= f) ≡ ok b
then_ok m a f b e h = rw e h

make_some_makes :
    (n : ℕ) (config : ClientConfig) (m : Made)
    → IsKnown config
    → (m' : Made) × (make_some n config m ≡ ok m')
unfolding make_some
make_some_makes zero config m known = (m, refl)
make_some_makes (suc n) config m known =
    let (mid, e) = make_one_makes config m known in
    let (end, h) = make_some_makes n config mid known in
    (end, then_ok (make_one config m) mid (make_some n config) end e h)

module _ (fl : Float64) where
  abbrev pub AreKnown : Distribution fl → Type 0
  AreKnown = All (λ s. IsKnown s.1)

  make_all_makes :
      (dist : Distribution fl) (m : Made)
      → AreKnown dist
      → (m' : Made) × (make_all fl dist m ≡ ok m')
  unfolding make_all
  make_all_makes [] m known = (m, refl)
  make_all_makes ((pct, config) ∷ rest) m known =
      let n = pos_part (num_clients_of fl pct) in
      let (mid, e) = make_some_makes n config m known.0 in
      let (end, h) = make_all_makes rest mid known.1 in
      (end, then_ok (make_some n config m) mid (make_all fl rest) end e h)

  pub make_mock_checkout_clients_makes :
      (dist : Distribution fl) (randomize : Bool) (swaps : List (ℕ × ℕ))
      → AreKnown dist
      → (m : Made) × (make_mock_checkout_clients fl dist randomize swaps ≡ ok m)
  unfolding make_mock_checkout_clients
  make_mock_checkout_clients_makes dist randomize swaps known =
      let (m, e) =
        make_all_makes dist (record { clients = []; response_channels = []; next_id = pos 1 })
          known in
      (_, then_ok _ m _ _ e refl)

  accepted_load :
      (dist : Distribution fl)
      → pos 2199 ≤ℤ actual_num_clients fl dist (pos 0)
      → actual_num_clients fl dist (pos 0) ≤ℤ pos 2200
      → load_client_distribution_config fl (ok dist) ≡ ok (dist, actual_num_clients fl dist (pos 0))
  unfolding load_client_distribution_config ◌-ℤ◌
  accepted_load dist low high = within (actual_num_clients fl dist (pos 0)) low high
    where
      within :
          (n : ℤ)
          → pos 2199 ≤ℤ n
          → n ≤ℤ pos 2200
          → (if◌then◌else◌ {A = Outcome (Distribution fl × ℤ)}
              (ltb_ℤ (pos target_num_clients) n || ltb_ℤ n (pos target_num_clients -ℤ pos 1))
              (panic (fatal "Client config representationPercent values must sum to 1.0"))
              (ok (dist, n)))
            ≡ ok (dist, n)
      within n low high = ground arith

prepared_net : (n : ℤ) → pos 0 ≤ℤ n → (net : Net) × (prepare_network_params n ≡ ok net)
unfolding prepare_network_params
prepared_net (pos n) h = (_, refl)
prepared_net (negsuc n) h = ground arith

tracker_made :
    (t : FixedWindowTracker) × (make_rate_tracker "fixed_window" (pos 2 *ℤ pos 1_000_000_000) 200
      ≡ ok t)
unfolding make_rate_tracker make_fixed_window_tracker ◌*ℤ◌
tracker_made = (_, refl)

module _ {fl : Float64} {S : Type 0} (q : Queue fl S) where
  -- The simulation starts, without a panic, where every client type is one of the five names
  -- that the factory takes and the shares of the distribution come to 2199 or 2200 clients.
  pub main-starts :
      (dist : Distribution fl) (swaps : List (ℕ × ℕ)) (s : S)
      → AreKnown fl dist
      → pos 2199 ≤ℤ actual_num_clients fl dist (pos 0)
      → actual_num_clients fl dist (pos 0) ≤ℤ pos 2200
      → (start : Simulation fl S) × (main q (ok dist) swaps s ≡ ok start)
  unfolding main validate_params set_logging make_client_repo
  main-starts dist swaps s known low high =
      let (net, prepared) =
        prepared_net (actual_num_clients fl dist (pos 0)) (omega (arith, low)) in
      let (made, makes) = make_mock_checkout_clients_makes fl dist _ swaps known in
      let (tracker, tracks) = tracker_made in
      (
        _,
        then_ok _ (dist, actual_num_clients fl dist (pos 0)) _ _ (accepted_load fl dist low high)
            (then_ok _ net _ _ prepared
              (then_ok _ made _ _ makes (then_ok _ tracker _ _ tracks refl))),
      )
