-- ===== src/Setup/Distributing.antt =====
-- How many clients a distribution makes, and what the wait group counts (cmd/goqueuesim/config.go).
use goqueuesim.Common.{
  ℕ, zero, suc, ◌+◌, ◌<◌, ◌^◌, ◌≡◌, refl, sym, ◌∙◌, ap, Bool, true, false, ◌||◌, List, [], ◌∷◌, All,
  if◌then◌else◌, arith, ℤ, pos, ◌+ℤ◌, ◌≤ℤ◌, ◌-ℤ◌, leb_ℤ, ltb_ℤ, ◌&&◌, pos_part, length,
}
use goqueuesim.Common.Word.{i64}
use goqueuesim.Common.Panic.{Outcome, ok, panic, Post, Post-bind, Post-map, Post-ok, fatal}
use goqueuesim.Common.Float.{Float64}
use goqueuesim.Client.{Client}
use goqueuesim.ClientFactory.{ClientConfig}
use goqueuesim.Polling.{Net}
use goqueuesim.Setup.{
  Made, make_one, make_some, shuffle, Distribution, num_clients_of, actual_num_clients,
  load_client_distribution_config, make_all, make_mock_checkout_clients, target_num_clients,
  prepare_network_params,
}
use goqueuesim.Setup.Numbering.{times, AreNumbered, AreFresh, IsNumbered, More, make_one-IsNumbered}
use goqueuesim.Setup.Shuffling.{SameClients, SameClients-refl, shuffle-SameClients}

ok-inj : {A : Type 0} {a b : A} → ok a ≡ ok b → a ≡ b
ok-inj e = cc e

More-trans : (a b : ℕ) (m m' m'' : Made) → More a m m' → More b m' m'' → More (a + b) m m''
More-trans a b m m' m'' h k = (k.0, omega (arith, h.1, k.1))

make_some-IsNumbered :
    (n : ℕ) (config : ClientConfig) (m : Made)
    → IsNumbered m
    → length m.clients + n + 1 < 2 ^ 63
    → Post (More n m) (make_some n config m)
unfolding make_some
make_some-IsNumbered zero config m h room = (h, omega arith)
make_some-IsNumbered (suc n) config m h room =
    Post-bind (More 1 m) (More (suc n) m) (make_one config m) _
      (make_one-IsNumbered config m h (omega arith))
      (λ m' k.
        Post-map (More n m') (More (suc n) m) (make_some n config m')
          (make_some-IsNumbered n config m' k.0 (omega (arith, k.1)))
          (λ m'' l. (l.0, omega (arith, k.1, l.1))))

module _ (fl : Float64) where
  -- The clients that the shares of a distribution come to.
  unfoldable pub total_of : Distribution fl → ℕ
  total_of [] = 0
  total_of ((pct, config) ∷ rest) = pos_part (num_clients_of fl pct) + total_of rest

  make_all-IsNumbered :
      (dist : Distribution fl) (m : Made)
      → IsNumbered m
      → length m.clients + total_of dist + 1 < 2 ^ 63
      → Post (More (total_of dist) m) (make_all fl dist m)
  unfolding make_all total_of
  make_all-IsNumbered [] m h room = (h, omega arith)
  make_all-IsNumbered ((pct, config) ∷ rest) m h room =
      let n = pos_part (num_clients_of fl pct) in
      Post-bind (More n m) (More (n + total_of rest) m) (make_some n config m) _
        (make_some-IsNumbered n config m h (omega arith))
        (λ m' k.
          Post-map (More (total_of rest) m') (More (n + total_of rest) m) (make_all fl rest m')
            (make_all-IsNumbered rest m' k.0 (omega (arith, k.1)))
            (λ m'' l. More-trans n (total_of rest) m m' m'' k l))

  -- No share is negative.
  abbrev pub AreShares : Distribution fl → Type 0
  AreShares = All (λ s. pos 0 ≤ℤ num_clients_of fl s.0)

  sum_step :
      (n : ℕ) (a : ℤ)
      → pos 0 ≤ℤ a
      → n + pos_part a < 2 ^ 63
      → i64 (pos n +ℤ a) ≡ pos (n + pos_part a)
  unfolding i64 ◌+ℤ◌
  sum_step n a h room = ground arith

  pub actual_num_clients-eq :
      (dist : Distribution fl) (n : ℕ)
      → AreShares dist
      → n + total_of dist < 2 ^ 63
      → actual_num_clients fl dist (pos n) ≡ pos (n + total_of dist)
  unfolding actual_num_clients total_of
  actual_num_clients-eq [] n h room = ap pos (omega arith)
  actual_num_clients-eq ((pct, config) ∷ rest) n h room =
      let a = num_clients_of fl pct in
      ap (actual_num_clients fl rest) (sum_step n a h.0 (omega arith))
      ∙ actual_num_clients-eq rest (n + pos_part a) h.1 (omega arith)
      ∙ ap pos (omega arith)

  SameNumbered : (cs cs' : List Client) → SameClients cs cs' → AreNumbered cs → AreNumbered cs'
  SameNumbered cs cs' same h id =
      same.same_times id
      ∙ h id
      ∙ ap (λ n. if leb_ℤ (pos 1) id && leb_ℤ id (pos n) then 1 else 0) (sym same.same_length)

  ordered :
      (b : Bool) (swaps : List (ℕ × ℕ)) (cs : List Client)
      → SameClients cs (if b then shuffle swaps cs else cs)
  ordered true swaps cs = shuffle-SameClients swaps cs
  ordered false swaps cs = SameClients-refl cs

  abbrev Distributed : Distribution fl → Made → Type 0
  Distributed dist m =
      (length m.clients ≡ total_of dist) × AreNumbered m.clients × AreFresh m.clients

  none_made : IsNumbered (record { clients = []; response_channels = []; next_id = pos 1 })
  unfolding times
  none_made = record { numbered = λ id. ground arith; fresh = tt; next = refl }

  -- The clients that are made, in whatever order: as many as the shares come to, with the ids from 1
  -- on, each once, none of which has reached checkout. Of the shares this needs that together they
  -- come to fewer than 2 ^ 63 - 1 clients.
  pub make_mock_checkout_clients-AreNumbered :
      (dist : Distribution fl) (randomize : Bool) (swaps : List (ℕ × ℕ)) (m : Made)
      → total_of dist + 1 < 2 ^ 63
      → make_mock_checkout_clients fl dist randomize swaps ≡ ok m
      → (length m.clients ≡ total_of dist) × AreNumbered m.clients × AreFresh m.clients
  unfolding make_mock_checkout_clients
  make_mock_checkout_clients-AreNumbered dist randomize swaps m room made =
      let empty : Made = record { clients = []; response_channels = []; next_id = pos 1 } in
      Post-ok (Distributed dist)
        (Post-bind (More (total_of dist) empty) (Distributed dist) (make_all fl dist empty) _
          (make_all-IsNumbered dist empty none_made (omega (arith, room)))
          (λ m' h.
            let same = ordered randomize swaps m'.clients in
            (
              omega (arith, same.same_length, h.1),
              SameNumbered m'.clients _ same h.0.numbered,
              same.same_fresh h.0.fresh,
            )))
        made

  waits : (n : ℕ) (net : Net) → prepare_network_params (pos n) ≡ ok net → net.waiting ≡ n
  unfolding prepare_network_params
  waits n net e = sym (ap (λ k. k.waiting) (ok-inj e))

  in_tolerance :
      (dist dist' : Distribution fl) (n n' : ℤ)
      → (if◌then◌else◌ {A = Outcome (Distribution fl × ℤ)}
          (ltb_ℤ (pos target_num_clients) n || ltb_ℤ n (pos target_num_clients -ℤ pos 1))
          (panic (fatal "Client config representationPercent values must sum to 1.0"))
          (ok (dist, n)))
        ≡ ok (dist', n')
      → (dist ≡ dist') × (n ≡ n')
  in_tolerance dist dist' n n' e = ground arith

  -- Where the distribution is accepted, the wait group counts exactly the clients that are made from
  -- it, if no share is negative and together they come to fewer than 2 ^ 63 - 1 clients.
  pub waiting-eq-clients :
      (dist accepted : Distribution fl) (n : ℤ) (randomize : Bool) (swaps : List (ℕ × ℕ)) (m : Made)
      (net : Net)
      → AreShares dist
      → total_of dist + 1 < 2 ^ 63
      → load_client_distribution_config fl (ok dist) ≡ ok (accepted, n)
      → prepare_network_params n ≡ ok net
      → make_mock_checkout_clients fl accepted randomize swaps ≡ ok m
      → net.waiting ≡ length m.clients
  unfolding load_client_distribution_config prepare_network_params
  waiting-eq-clients dist accepted n randomize swaps m net shares room loaded prepared made =
      let (same, count) =
        in_tolerance dist accepted (actual_num_clients fl dist (pos 0)) n loaded in
      let total : n ≡ pos (total_of dist) =
        sym count
        ∙ actual_num_clients-eq dist 0 shares (omega (arith, room))
        ∙ ap pos (omega arith) in
      let clients =
        make_mock_checkout_clients-AreNumbered dist randomize swaps m room
          (ap (λ d. make_mock_checkout_clients fl d randomize swaps) same ∙ made) in
      waits (total_of dist) net (ap prepare_network_params (sym total) ∙ prepared) ∙ sym clients.0
