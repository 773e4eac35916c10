-- ===== src/Polling/Alone.antt =====
-- A polling goroutine whose steps nothing interrupts runs whole rounds (internal/client/impl): Stages
-- against Rounds.
use goqueuesim.Common.{
  ℕ, zero, suc, ◌≡◌, ◌≢◌, refl, sym, ◌∙◌, ap, ◌≤◌, Bool, true, false, if◌then◌else◌, ℤ, pos, negsuc,
  ◌-ℤ◌, leb_ℤ, pos_part, arith,
}
use goqueuesim.Common.Word.{i64}
use goqueuesim.Common.Clock.{Duration, sub_time}
use goqueuesim.Common.Panic.{Outcome, ok, panic, ◌>>=◌, Post-ok, rem}
use goqueuesim.Common.Float.{Float64}
use goqueuesim.Client.{
  Client, ClientKind, routinely_polling, fully_disappearing, lazy_polling, exponential_backoff,
  jit_greedy, lock, mark_exited,
}
use goqueuesim.Polling.{Net, rand_intn, stop_polling, Loop, returned}
use goqueuesim.Polling.Rounds.{
  Tick, reset_timer, locked_poll, rearm, poll_and_rearm, base_delay, disappearing_round, lazy_round,
  do_greedy_polls, jit_round, backoff_delay, base_round, backoff_round, round_of,
}
use goqueuesim.Polling.Stages.{
  Stage, waiting, greedy, resetting, halted, stage_of, obeys_advice, poll_then, wait_for_timer,
  begin_disappearing, begin_lazy, begin_round, delay_of, polls_after, finish_round, advance, settle,
}
use goqueuesim.Polling.Pace.{SamePace, locked_poll-SamePace}

abbrev Staged : Type 0
Staged = Client × Net × Stage

-- The end of a round, as a stage.
abbrev pub whole : Client × Net × Loop → Outcome Staged
unfolding stage_of
whole r = ok (r.0, r.1, stage_of r.2)

bind_assoc :
    {A B C : Type 0} (m : Outcome A) (f : A → Outcome B) (g : B → Outcome C)
    → m >>= f >>= g ≡ m >>= (λ a. f a >>= g)
bind_assoc (ok a) f g = refl
bind_assoc (panic p) f g = refl

bind_same :
    {A B : Type 0} (m : Outcome A) (f g : A → Outcome B)
    → ((a : A) → m ≡ ok a → f a ≡ g a)
    → m >>= f ≡ m >>= g
bind_same (ok a) f g h = h a refl
bind_same (panic p) f g h = refl

bind_both :
    {A B B' C : Type 0} (m : Outcome A) (f : A → Outcome B) (f' : A → Outcome B')
    (g : B → Outcome C) (g' : B' → Outcome C)
    → ((a : A) → f a >>= g ≡ f' a >>= g')
    → m >>= f >>= g ≡ m >>= f' >>= g'
bind_both (ok a) f f' g g' h = h a
bind_both (panic p) f f' g g' h = refl

if_bind :
    {B B' C : Type 0} (b : Bool) (m n : Outcome B) (m' n' : Outcome B') (g : B → Outcome C)
    (g' : B' → Outcome C)
    → m >>= g ≡ m' >>= g'
    → n >>= g ≡ n' >>= g'
    → (if b then m else n) >>= g ≡ (if b then m' else n') >>= g'
if_bind true m n m' n' g g' h k = h
if_bind false m n m' n' g g' h k = k

-- A poll under the lock and what follows it, on both sides.
same_poll :
    {A : Type 0} (next gone : Stage) (c : Client) (net : Net) (f : Staged → Outcome A)
    (g : Client × Net × Bool → Outcome A)
    → ((r : Client × Net × Bool) → SamePace c r.0 → f (r.0, r.1, if r.2 then next else gone) ≡ g r)
    → poll_then next gone c net >>= f
      ≡ rand_intn c.max_network_jitter_ms >>= (λ u. locked_poll c net >>= g)
unfolding poll_then
same_poll next gone c net f g h =
    bind_assoc (rand_intn c.max_network_jitter_ms) _ f
    ∙ bind_same (rand_intn c.max_network_jitter_ms) _ _ (λ u e.
      bind_assoc (locked_poll c net) _ f
      ∙ bind_same (locked_poll c net) _ g
          (λ r there. h r (Post-ok (λ s. SamePace c s.0) (locked_poll-SamePace c net) there)))

-- doGreedyPolls after a poll
unfoldable go_on : Bool → ℕ → Client → Net → Outcome (Client × Net)
go_on alive n c net = elim alive [ true ↦ do_greedy_polls n c net | false ↦ ok (c, net) ]

greedy_step :
    {A : Type 0} (n : ℕ) (c : Client) (net : Net) (g : Client × Net → Outcome A)
    → do_greedy_polls (suc n) c net >>= g
      ≡ rand_intn c.max_network_jitter_ms
        >>= (λ u. locked_poll c net >>= (λ r. go_on r.2 n r.0 r.1 >>= g))
unfolding do_greedy_polls go_on
greedy_step n c net g =
    bind_assoc (rand_intn c.max_network_jitter_ms)
      (λ u. locked_poll c net >>= (λ r. go_on r.2 n r.0 r.1)) g
    ∙ bind_same (rand_intn c.max_network_jitter_ms) _ _
        (λ u e. bind_assoc (locked_poll c net) (λ r. go_on r.2 n r.0 r.1) g)

module _ (fl : Float64) where
  settled :
      (n : ℕ) (k : ClientKind) (t : Tick) (p : ℤ) (c : Client) (net : Net)
      → settle fl n k t (c, net, waiting p) ≡ ok (c, net, waiting p)
  unfolding settle
  settled zero k t p c net = refl
  settled (suc n) k t p c net = refl

  settled_halted :
      (n : ℕ) (k : ClientKind) (t : Tick) (c : Client) (net : Net)
      → settle fl n k t (c, net, halted) ≡ ok (c, net, halted)
  unfolding settle
  settled_halted zero k t c net = refl
  settled_halted (suc n) k t c net = refl

  waits :
      (n : ℕ) (k : ClientKind) (t : Tick) (d : Duration) (p : ℤ) (c : Client) (net : Net)
      → wait_for_timer d p c net >>= settle fl n k t ≡ rearm d p c net >>= whole
  unfolding wait_for_timer rearm stage_of
  waits n k t d p c net =
      bind_assoc (reset_timer d c.poll_timer) _ (settle fl n k t)
      ∙ bind_same (reset_timer d c.poll_timer) _ _
          (λ timer e. settled n k t p (record c { poll_timer = timer }) net)
      ∙ sym (bind_assoc (reset_timer d c.poll_timer) _ whole)

  finishes_alone :
      (n : ℕ) (k : ClientKind) (t : Tick) (b : Bool) (d : Duration) (p : ℤ) (c : Client) (net : Net)
      → delay_of fl k t b p c ≡ ok d
      → settle fl (suc n) k t (c, net, resetting b p) ≡ rearm d (polls_after k p) c net >>= whole
  unfolding settle advance finish_round
  finishes_alone n k t b d p c net e =
      ap (λ m. m >>= (λ x. wait_for_timer x (polls_after k p) c net) >>= settle fl n k t) e
      ∙ waits n k t d (polls_after k p) c net

  -- What follows the poll of a round that most client types share.
  after_poll :
      (alive : Bool) (n : ℕ) (k : ClientKind) (t : Tick) (b : Bool) (d : Duration) (p : ℤ)
      (c : Client) (net : Net)
      → delay_of fl k t b p c ≡ ok d
      → settle fl (suc n) k t (c, net, if alive then resetting b p else halted)
        ≡ (if alive then rearm d (polls_after k p) c net else ok (c, net, returned)) >>= whole
  unfolding stage_of
  after_poll true n k t b d p c net e = finishes_alone n k t b d p c net e
  after_poll false n k t b d p c net e = settled_halted (suc n) k t c net

  polls_alone :
      (n : ℕ) (k : ClientKind) (t : Tick) (b : Bool) (d : Duration) (p : ℤ) (c : Client) (net : Net)
      → ((c' : Client) → SamePace c c' → delay_of fl k t b p c' ≡ ok d)
      → poll_then (resetting b p) halted c net >>= settle fl (suc n) k t
        ≡ poll_and_rearm d (polls_after k p) c net >>= whole
  unfolding poll_and_rearm
  polls_alone n k t b d p c net h =
      same_poll (resetting b p) halted c net (settle fl (suc n) k t) _
        (λ r same. after_poll r.2 n k t b d p r.0 r.1 (h r.0 same))
      ∙ sym (
          bind_assoc (rand_intn c.max_network_jitter_ms) _ whole
          ∙ bind_same (rand_intn c.max_network_jitter_ms) _ _
              (λ u e. bind_assoc (locked_poll c net) _ whole))

  base_delay_alone :
      (t : Tick) (c c' : Client)
      → SamePace c c'
      → (if obeys_advice t c
          then sub_time c'.advised_poll_after t.reset_at
          else c'.default_poll_interval)
        ≡ base_delay t c
  unfolding base_delay obeys_advice
  base_delay_alone t c c' h = rw (h.same_advice, h.same_interval) refl

  disappears_alone :
      (n : ℕ) (max p : ℤ) (t : Tick) (c : Client) (net : Net)
      → begin_disappearing max p c net >>= settle fl (suc n) (fully_disappearing max) t
        ≡ disappearing_round max p c net >>= whole
  unfolding begin_disappearing disappearing_round stage_of delay_of polls_after
  disappears_alone n max p t c net =
      if_bind (leb_ℤ max p) _ _ _ _ (settle fl (suc n) (fully_disappearing max) t) whole
        (bind_both (mark_exited (lock c) net.waiting) _ _ _ _ (λ r.
          bind_both (stop_polling r.0) _ _ _ _
            (λ s. settled_halted (suc n) (fully_disappearing max) t _ _)))
        (polls_alone n (fully_disappearing max) t false c.default_poll_interval p c net
          (λ c' same. ap ok same.same_interval))

  lazy_alone :
      (n : ℕ) (max p : ℤ) (t : Tick) (c : Client) (net : Net)
      → begin_lazy max t p c net >>= settle fl (suc n) (lazy_polling max) t
        ≡ lazy_round max t p c net >>= whole
  unfolding begin_lazy lazy_round delay_of polls_after
  lazy_alone n max p t c net =
      if_bind t.skips _ _ _ _ (settle fl (suc n) (lazy_polling max) t) whole
        (bind_both (rand_intn max) _ _ _ _ (λ u. waits (suc n) (lazy_polling max) t t.nap p c net))
        (polls_alone n (lazy_polling max) t false c.default_poll_interval p c net
          (λ c' same. ap ok same.same_interval))

  -- The rest of a greedy poller's round, after doGreedyPolls
  abbrev rest : ClientKind → Duration → ℤ → Client × Net → Outcome Staged
  rest k d p r = rearm d (polls_after k p) r.0 r.1 >>= whole

  -- What follows a greedy poll.
  after_greedy :
      (alive : Bool) (n fuel : ℕ) (k : ClientKind) (t : Tick) (d : Duration) (p : ℤ) (c : Client)
      (net : Net)
      → delay_of fl k t false p c ≡ ok d
      → settle fl (suc fuel) k t (c, net, greedy n p) ≡ do_greedy_polls n c net >>= rest k d p
      → settle fl (suc fuel) k t (c, net, if alive then greedy n p else resetting false p)
        ≡ go_on alive n c net >>= rest k d p
  unfolding go_on
  after_greedy true n fuel k t d p c net h more = more
  after_greedy false n fuel k t d p c net h more = finishes_alone fuel k t false d p c net h

  greedy_alone :
      (n fuel : ℕ) (k : ClientKind) (t : Tick) (d : Duration) (p : ℤ) (c : Client) (net : Net)
      → ((c' : Client) → delay_of fl k t false p c' ≡ ok d)
      → n ≤ fuel
      → settle fl (suc (suc fuel)) k t (c, net, greedy n p) ≡ do_greedy_polls n c net >>= rest k d p
  unfolding settle advance do_greedy_polls
  greedy_alone zero fuel k t d p c net h room = finishes_alone fuel k t false d p c net (h c)
  greedy_alone (suc n) zero k t d p c net h room = ground arith
  greedy_alone (suc n) (suc fuel) k t d p c net h room =
      same_poll (greedy n p) (resetting false p) c net (settle fl (suc (suc fuel)) k t) _ (λ r same.
        after_greedy r.2 n (suc fuel) k t d p r.0 r.1 (h r.0)
          (greedy_alone n fuel k t d p r.0 r.1 h (omega (arith, room))))
      ∙ sym (greedy_step n c net (rest k d p))

  -- What follows the first poll of a greedy poller's round.
  after_first :
      (alive : Bool) (n fuel : ℕ) (k : ClientKind) (t : Tick) (d : Duration) (p : ℤ) (c : Client)
      (net : Net)
      → ((c' : Client) → delay_of fl k t false p c' ≡ ok d)
      → n ≤ fuel
      → settle fl (suc (suc fuel)) k t (c, net, if alive then greedy n p else halted)
        ≡ elim alive [
          | true ↦ do (c', net') ← do_greedy_polls n c net; rearm d (polls_after k p) c' net'
          | false ↦ ok (c, net, returned)
        ]
          >>= whole
  unfolding stage_of
  after_first true n fuel k t d p c net h room =
      greedy_alone n fuel k t d p c net h room
      ∙ sym (bind_assoc (do_greedy_polls n c net) (λ r. rearm d (polls_after k p) r.0 r.1) whole)
  after_first false n fuel k t d p c net h room = settled_halted (suc (suc fuel)) k t c net

  jit_alone :
      (b : Bool) (count : ℤ) (lead window d p : ℤ) (fuel : ℕ) (t : Tick) (c : Client) (net : Net)
      → rem (i64 (window -ℤ lead)) window ≡ ok d
      → pos_part (count -ℤ pos 1) ≤ fuel
      → poll_then (greedy (pos_part (count -ℤ pos 1)) p) halted c net
          >>= settle fl (suc (suc fuel)) (jit_greedy b count lead window) t
        ≡ jit_round count d p c net >>= whole
  unfolding jit_round delay_of polls_after
  jit_alone b count lead window d p fuel t c net e room =
      same_poll _ halted c net (settle fl (suc (suc fuel)) (jit_greedy b count lead window) t) _
        (λ r same. after_first r.2 (pos_part (count -ℤ pos 1)) fuel _ t d p r.0 r.1 (λ c'. e) room)
      ∙ sym (
          bind_assoc (rand_intn c.max_network_jitter_ms) _ whole
          ∙ bind_same (rand_intn c.max_network_jitter_ms) _ _
              (λ u e. bind_assoc (locked_poll c net) _ whole))

-- The steps after the first that a round of the type takes at most, and what its timer needs.
abbrev pub steps_of : ClientKind → ℕ
steps_of (jit_greedy _ count _ _) = suc (suc (pos_part (count -ℤ pos 1)))
steps_of _ = 1

abbrev pub HasWindow : ClientKind → Type 0
HasWindow (jit_greedy _ _ _ window) = window ≢ pos 0
HasWindow _ = Unit

rem_ok : (a b : ℤ) → b ≢ pos 0 → (d : ℤ) × (rem a b ≡ ok d)
unfolding rem
rem_ok a (pos zero) h = elim (h refl) [ ]
rem_ok a (pos (suc n)) h = (_, refl)
rem_ok a (negsuc n) h = (_, refl)

-- With nothing in between, the steps of a polling goroutine from the firing of its timer make up the
-- whole round of its client type, panics included, once `steps_of` steps are allowed after the first.
-- The window of a greedy poller must not be zero, since its delay is a remainder by it.
pub advance-round_of :
    (fl : Float64) (k : ClientKind) (t : Tick) (polls : ℤ) (c : Client) (net : Net) (fuel : ℕ)
    → HasWindow k
    → steps_of k ≤ fuel
    → advance fl k t (waiting polls) c net >>= settle fl fuel k t
      ≡ round_of fl k t polls c net >>= whole
unfolding advance begin_round round_of base_round backoff_round delay_of polls_after
advance-round_of fl routinely_polling t p c net (suc n) h room =
    polls_alone fl n routinely_polling t (obeys_advice t c) (base_delay t c) p c net
      (λ c' same. ap ok (base_delay_alone fl t c c' same))
advance-round_of fl (fully_disappearing max) t p c net (suc n) h room =
    disappears_alone fl n max p t c net
advance-round_of fl (lazy_polling max) t p c net (suc n) h room = lazy_alone fl n max p t c net
advance-round_of fl (exponential_backoff max) t p c net (suc n) h room =
    polls_alone fl n (exponential_backoff max) t false
      (backoff_delay fl p c.default_poll_interval max) p c net
      (λ c' same. ap (λ i. ok (backoff_delay fl p i max)) same.same_interval)
advance-round_of fl (jit_greedy b count lead window) t p c net (suc (suc n)) h room =
    let (d, e) = rem_ok (i64 (window -ℤ lead)) window h in
    jit_alone fl b count lead window d p n t c net e (omega (arith, room))
    ∙ ap (λ m. m >>= (λ x. jit_round count x p c net) >>= whole) (sym e)
advance-round_of fl k t p c net n h room = ground arith
