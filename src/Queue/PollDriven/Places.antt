-- ===== src/Queue/PollDriven/Places.antt =====
-- Which place an arrival gets, and who may proceed:
-- internal/throttle/queue/impl/polldriven_capped_bins_queue.go.
use text.Mathlib.TextPositions.{eq_refl}
use native.Mathlib.Nat.{div-eq_of_lt-le, div-add-mod}
use native.Mathlib.Decide.{dec_lt}
use mathlib.Core.Path.{subst, subst₂}
use goqueuesim.Common.{
  ℕ, suc, String, ◌+◌, ◌*◌, ◌/◌, ◌%◌, ◌≤◌, ◌<◌, ◌^◌, ◌≡◌, refl, sym, ◌∙◌, ◌⊎◌, inl, inr, true, List,
  [], ◌∷◌, arith, pos, ◌+ℤ◌, leb_ℤ, ltb_ℤ, length,
}
use goqueuesim.Common.Map.{string_key}
use goqueuesim.Common.Word.{i64, IsI64, i64-IsI64}
use goqueuesim.Common.Text.{format_int}
use goqueuesim.Common.Text.Decimal.{parse_int-format_int}
use goqueuesim.Common.Clock.{Time, Duration, sub_time, add_time}
use goqueuesim.Common.Float.{Float64}
use goqueuesim.Client.{Client, set_throttle_cookie_val, get_throttle_cookie_val, advise_poll_after}
use goqueuesim.Client.Cookies.{get-set_throttle_cookie_val}
use goqueuesim.Queue.PollDriven.{
  PollDrivenQueue, polldriven_user_bin_key, polldriven_user_queue_pos_key, get_user_bin_idx, add,
  next_place, clear, is_candidate_to_proceed, update_polling_util, poll_delay,
}

get-advise_poll_after :
    (key : String) (t : Time) (c : Client)
    → get_throttle_cookie_val key (advise_poll_after t c).0 ≡ get_throttle_cookie_val key c
unfolding get_throttle_cookie_val advise_poll_after
get-advise_poll_after key t c = ground arith

set-is_locked :
    (key value : String) (c : Client)
    → (set_throttle_cookie_val key value c).0.is_locked ≡ c.is_locked
unfolding set_throttle_cookie_val
set-is_locked key value c = ground arith

module _ (fl : Float64) where
  -- The queue after a list of arrivals.
  unfoldable pub add_all : List (Time × Client) → PollDrivenQueue fl → PollDrivenQueue fl
  add_all [] q = q
  add_all ((now, c) ∷ cs) q = add_all cs (add fl now q c).0

  -- `k` arrivals since the first place of bin 0, with a bin size of `n`.
  record IsPlaced (n b p k : ℕ) (q : PollDrivenQueue fl) : Type 0 where
    sized : q.bin_size ≡ pos n
    in_bin : q.queue_bin ≡ pos b
    at : q.queue_bin_pos ≡ pos p
    counted : k ≡ b * suc n + p
    fits : p ≤ n

  add-IsPlaced :
      (now : Time) (q : PollDrivenQueue fl) (c : Client) (n b p k : ℕ)
      → k + n + 1 < 2 ^ 63
      → b + 1 < 2 ^ 63
      → IsPlaced n b p k q
      → (IsPlaced n b (p + 1) (k + 1) (add fl now q c).0)
        ⊎ (IsPlaced n (b + 1) 0 (k + 1) (add fl now q c).0)
  unfolding add next_place ◌+ℤ◌ i64
  add-IsPlaced now q c n b p k small small' h = elim (dec_lt p n) [
    | yes room ↦ inl (record {
      sized = h.sized;
      in_bin = ground arith;
      at = ground arith;
      counted = omega arith;
      fits = omega arith;
    })
    | no full ↦ inr (record {
      sized = h.sized;
      in_bin = ground arith;
      at = ground arith;
      counted = grind arith;
      fits = omega arith;
    })
  ]

  add_all-IsPlaced :
      (cs : List (Time × Client)) (q : PollDrivenQueue fl) (n b p k : ℕ)
      → k + length cs + n + 1 < 2 ^ 63
      → b + length cs + 1 < 2 ^ 63
      → IsPlaced n b p k q
      → (b' : ℕ) × (p' : ℕ) × IsPlaced n b' p' (k + length cs) (add_all cs q)
  unfolding add_all
  add_all-IsPlaced [] q n b p k small small' h =
      (b, p, subst (λ m. IsPlaced n b p m q) (omega arith) h)
  add_all-IsPlaced ((now, c) ∷ cs) q n b p k small small' h =
      let q' = (add fl now q c).0 in
      let (b', p', placed) : (b' : ℕ) × (p' : ℕ) × IsPlaced n b' p' (k + 1 + length cs)
            (add_all cs q') =
        elim (add-IsPlaced now q c n b p k (omega arith) (omega arith) h) [
          | inl here ↦ add_all-IsPlaced cs q' n b (p + 1) (k + 1) (omega arith) (omega arith) here
          | inr next ↦ add_all-IsPlaced cs q' n (b + 1) 0 (k + 1) (omega arith) (omega arith) next
        ] in
      (b', p', subst (λ m. IsPlaced n b' p' m (add_all cs q')) (omega arith) placed)

  IsPlaced-place :
      (n b p k : ℕ) (q : PollDrivenQueue fl)
      → IsPlaced n b p k q
      → (q.queue_bin ≡ pos (k / suc n)) × (q.queue_bin_pos ≡ pos (k % suc n))
  IsPlaced-place n b p k q h =
      let bin : k / suc n ≡ b =
        div-eq_of_lt-le (suc n) (omega (arith, h.counted)) (grind (arith, h.counted)) in
      let place : k % suc n ≡ p = grind (arith, h.counted, bin, h.fits, div-add-mod k (suc n)) in
      (rw bin h.in_bin, rw place h.at)

  -- Into a queue that was just cleared, with a bin size of `n`, `k` clients arrive, with k + n + 1
  -- below 2 ^ 63: the queue then stands in bin k / (n + 1) at position k % (n + 1).
  pub place-add_all :
      (q : PollDrivenQueue fl) (n : ℕ) (cs : List (Time × Client))
      → q.bin_size ≡ pos n
      → length cs + n + 1 < 2 ^ 63
      → let q' = add_all cs (clear fl q) in
        (q'.queue_bin ≡ pos (length cs / suc n)) × (q'.queue_bin_pos ≡ pos (length cs % suc n))
  unfolding clear
  place-add_all q n cs e small =
      let (b, p, placed) =
        add_all-IsPlaced cs (clear fl q) n 0 0 0 (omega arith) (omega arith) (record {
          sized = e;
          in_bin = refl;
          at = refl;
          counted = omega arith;
          fits = omega arith;
        }) in
      IsPlaced-place n b p (length cs) (add_all cs (clear fl q))
        (subst (λ m. IsPlaced n b p m (add_all cs (clear fl q))) (omega arith) placed)

  next_place-IsI64 : (q : PollDrivenQueue fl) → IsI64 q.queue_bin → IsI64 (next_place fl q).0
  unfolding next_place
  next_place-IsI64 q h = ground (arith, i64-IsI64 (q.queue_bin +ℤ pos 1))

  -- The bin that a locked client reads from its cookie is the one that Add wrote.
  pub get_user_bin_idx-add :
      (now : Time) (q : PollDrivenQueue fl) (c : Client)
      → c.is_locked ≡ true
      → IsI64 q.queue_bin
      → get_user_bin_idx (add fl now q c).1 ≡ ((add fl now q c).0.queue_bin, true)
  unfolding get_user_bin_idx add
  get_user_bin_idx-add now q c locked h =
      let b = format_int (next_place fl q).0 in
      let total = i64 (q.total_clients +ℤ pos 1) in
      let c₁ = (set_throttle_cookie_val polldriven_user_bin_key b c).0 in
      let c₂ = (set_throttle_cookie_val polldriven_user_queue_pos_key (format_int total) c₁).0 in
      ground (
        arith,
        get-advise_poll_after polldriven_user_bin_key
            (add_time now (poll_delay fl total q.checkouts_per_second)) c₂,
        set-is_locked polldriven_user_bin_key b c,
        get-set_throttle_cookie_val polldriven_user_queue_pos_key polldriven_user_bin_key
            (format_int total) c₁,
        get-set_throttle_cookie_val polldriven_user_bin_key polldriven_user_bin_key b c locked,
        eq_refl polldriven_user_bin_key,
        parse_int-format_int (next_place fl q).0 (next_place-IsI64 q h),
      )

  -- After Add a locked client is a candidate exactly while the working bin has reached the bin that
  -- it was put in, whatever the queue has become since.
  pub polldriven_candidate :
      (now again : Time) (q later : PollDrivenQueue fl) (c : Client)
      → c.is_locked ≡ true
      → IsI64 q.queue_bin
      → (is_candidate_to_proceed fl again later (add fl now q c).1).2
        ≡ leb_ℤ (add fl now q c).0.queue_bin later.working_bin
  unfolding is_candidate_to_proceed
  polldriven_candidate now again q later c locked h =
      ground (arith, get_user_bin_idx-add now q c locked h)

  -- The queue after rounds of the loop that updates the polling utilization.
  unfoldable pub update_all : List (Time × Time) → PollDrivenQueue fl → PollDrivenQueue fl
  update_all [] q = q
  update_all ((now, again) ∷ ts) q = update_all ts (update_polling_util fl now again q)

  -- Rounds that see less than the update interval since the working bin was last moved.
  abbrev pub AreEarly : Time → Duration → List (Time × Time) → Type 0
  AreEarly moved interval [] = Unit
  AreEarly moved interval ((now, _) ∷ ts) =
      (ltb_ℤ (sub_time now moved) interval ≡ true) × AreEarly moved interval ts

  early_round :
      (now again : Time) (q : PollDrivenQueue fl)
      → ltb_ℤ (sub_time now q.working_bin_updated) q.working_bin_update_interval ≡ true
      → let q' = update_polling_util fl now again q in
        (q'.working_bin ≡ q.working_bin)
        × (q'.working_bin_updated ≡ q.working_bin_updated)
        × (q'.working_bin_update_interval ≡ q.working_bin_update_interval)
  unfolding update_polling_util
  early_round now again q h = ground arith

  -- However often the utilization is updated, the working bin does not move before its interval has
  -- passed since it last moved.
  update_all_early :
      (ts : List (Time × Time)) (q : PollDrivenQueue fl)
      → AreEarly q.working_bin_updated q.working_bin_update_interval ts
      → (update_all ts q).working_bin ≡ q.working_bin
  unfolding update_all
  update_all_early [] q h = refl
  update_all_early ((now, again) ∷ ts) q h =
      let q' = update_polling_util fl now again q in
      let (same, at, every) = early_round now again q h.0 in
      update_all_early ts q' (subst₂ (λ t d. AreEarly t d ts) (sym at) (sym every) h.1) ∙ same
