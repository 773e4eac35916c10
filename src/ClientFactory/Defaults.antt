-- ===== src/ClientFactory/Defaults.antt =====
-- What every made client satisfies: internal/client/impl/client_factory.go.
use goqueuesim.Common.{
  ℕ, suc, ◌≤◌, String, All, Option-cases, [], ◌∷◌, ◌≡◌, ◌≢◌, refl, subst, inl, inr, Bool, true,
  false, Option, none, some, arith, ℤ, pos, ◌*ℤ◌, ◌<ℤ◌, ◌≤ℤ◌, if◌then◌else◌,
}
use goqueuesim.Common.Map.{Map, string_key, lookup}
use goqueuesim.Common.Word.{i64}
use goqueuesim.Common.Clock.{millisecond, second}
use goqueuesim.Client.{
  Client, ClientKind, routinely_polling, fully_disappearing, lazy_polling, exponential_backoff,
  jit_greedy, initial, nil_channel, nil_pointer,
}
use goqueuesim.ClientFactory.{
  ClientConfig, positive_property, make_base_client, make_client_from_config,
  make_fully_disappearing_client, make_lazy_polling_client, make_exponential_backoff_client,
  make_jit_greedy_poller, polls_before_disappearing,
}

positive_property-pos :
    (key : String) (n : ℕ) (config : ClientConfig)
    → pos 0 <ℤ positive_property key (pos (suc n)) config
unfolding positive_property
positive_property-pos key n config = ground arith

-- The integer properties are small enough for their durations to fit an int64 of nanoseconds.
abbrev pub AreSmall : ClientConfig → Type 0
AreSmall config = All (λ e. e.1 ≤ℤ pos 9_000_000_000) config.custom_int_properties

lookup-All :
    (key : String) (v : ℤ) (m : Map String ℤ)
    → All (λ e. e.1 ≤ℤ pos 9_000_000_000) m
    → lookup key m ≡ some v
    → v ≤ℤ pos 9_000_000_000
unfolding lookup
lookup-All key v [] h e = cc
lookup-All key v ((k, w) ∷ m) h e = ground (arith, lookup-All key v m)

positive_property-small :
    (key : String) (n : ℕ) (config : ClientConfig)
    → n ≤ 1_000_000
    → AreSmall config
    → positive_property key (pos (suc n)) config ≤ℤ pos 9_000_000_000
unfolding positive_property
positive_property-small key n config small h =
    elim (Option-cases (lookup key config.custom_int_properties)) [
      | inl e ↦ ground arith
      | inr (v, e) ↦ ground (arith, lookup-All key v config.custom_int_properties h e)
    ]

seconds_pos : (a : ℤ) → pos 0 <ℤ a → a ≤ℤ pos 9_000_000_000 → pos 0 <ℤ i64 (a *ℤ pos second)
unfolding i64 ◌*ℤ◌
seconds_pos a h small = ground arith

millis_pos : (a : ℤ) → pos 0 <ℤ a → a ≤ℤ pos 9_000_000_000 → pos 0 <ℤ i64 (a *ℤ pos millisecond)
unfolding i64 ◌*ℤ◌
millis_pos a h small = ground arith

-- The numbers of a client type are in range: nothing that is waited for is negative, and the window
-- of a greedy poller is not empty.
abbrev pub IsUsable : ClientKind → Type 0
IsUsable routinely_polling = Unit
IsUsable (fully_disappearing n) = pos 0 ≤ℤ n
IsUsable (lazy_polling n) = pos 0 <ℤ n
IsUsable (exponential_backoff d) = pos 0 <ℤ d
IsUsable (jit_greedy _ count lead window) = (pos 0 <ℤ count) × (pos 0 <ℤ lead) × (pos 0 <ℤ window)

-- A new client, with the given id.
pub record IsNew (id : ℤ) (c : Client) : Type 0 where
  pub named : c.id ≡ id
  pub fresh : (c.state ≡ initial) × (c.hit_checkout_step ≡ false)
  pub free : c.is_locked ≡ false
  pub idle :
      (c.started_polling ≡ false) × (c.poll_stopper ≡ nil_channel) × (c.poll_timer ≡ nil_pointer)
  pub interval : pos 0 <ℤ c.default_poll_interval
  pub usable : IsUsable c.kind

with_kind :
    (id : ℤ) (c : Client) (k : ClientKind)
    → IsNew id c
    → IsUsable k
    → IsNew id (record c { kind = k })
with_kind id c k h u = record {
  named = h.named;
  fresh = h.fresh;
  free = h.free;
  idle = h.idle;
  interval = h.interval;
  usable = u;
}

make_base_client-IsNew :
    (config : ClientConfig) (id : ℤ) → AreSmall config → IsNew id (make_base_client config id)
unfolding make_base_client
make_base_client-IsNew config id h =
    let n = positive_property-pos "dflt_poll_interval_seconds" 4 config in
    let small = positive_property-small "dflt_poll_interval_seconds" 4 config (omega arith) h in
    record {
      named = refl;
      fresh = (refl, refl);
      free = refl;
      idle = (refl, refl, refl);
      interval =
          seconds_pos (positive_property "dflt_poll_interval_seconds" (pos 5) config) n small;
      usable = tt;
    }

millis_property :
    (key : String) (config : ClientConfig)
    → AreSmall config
    → pos 0 <ℤ i64 (positive_property key (pos 1) config *ℤ pos millisecond)
millis_property key config h =
    millis_pos (positive_property key (pos 1) config) (positive_property-pos key 0 config)
      (positive_property-small key 0 config (omega arith) h)

polls_left : (config : ClientConfig) → pos 0 ≤ℤ polls_before_disappearing config
unfolding polls_before_disappearing
polls_left config = ground arith

none_is_not_some : {c : Client} → none ≢ some c
none_is_not_some e = cc e

some_inj : {c d : Client} → some c ≡ some d → c ≡ d
some_inj e = cc e

-- One branch of the choice by the type's name.
choose :
    (P : Client → Type 0) (b : Bool) (made c : Client) (rest : Option Client)
    → P made
    → (rest ≡ some c → P c)
    → (if b then some made else rest) ≡ some c
    → P c
choose P true made c rest h k e = subst P (some_inj e) h
choose P false made c rest h k e = k e

-- What holds of a new client whatever its type holds of every client that is made.
pub make_client_from_config-all :
    (P : Client → Type 0) (config : ClientConfig) (id : ℤ) (c : Client)
    → ((k : ClientKind) → P (record (make_base_client config id) { kind = k }))
    → make_client_from_config config id ≡ some c
    → P c
unfolding make_client_from_config make_fully_disappearing_client make_lazy_polling_client
    make_exponential_backoff_client make_jit_greedy_poller
make_client_from_config-all P config id c h e =
    let fresh = make_base_client config id in
    choose P _ fresh c _ (h fresh.kind)
      (choose P _ (make_fully_disappearing_client config fresh) c _ (h _) (
        choose P _ (make_lazy_polling_client config fresh) c _ (h _) (
          choose P _ (make_exponential_backoff_client config fresh) c _ (h _) (
            choose P _ (make_jit_greedy_poller config fresh) c none (h _)
              (λ n. absurd (none_is_not_some n))))))
      e

-- Every client that the factory makes is new and has the given id, its poll interval is positive, and
-- the numbers of its type are in range, whatever the configuration says, as long as its integers are
-- at most 9 * 10 ^ 9.
pub make_client_from_config-IsNew :
    (config : ClientConfig) (id : ℤ) (c : Client)
    → AreSmall config
    → make_client_from_config config id ≡ some c
    → IsNew id c
unfolding make_client_from_config make_fully_disappearing_client make_lazy_polling_client
    make_exponential_backoff_client make_jit_greedy_poller
make_client_from_config-IsNew config id c h e =
    let base = make_base_client-IsNew config id h in
    let fresh = make_base_client config id in
    let of_kind = λ (k : ClientKind). with_kind id fresh k base in
    let counts = positive_property-pos "greedy_polls_count" 0 config in
    let lead = millis_property "early_poll_lead_time_ms" config h in
    let window = millis_property "window_dur_ms" config h in
    choose (IsNew id) _ fresh c _ base
      (choose (IsNew id) _ (make_fully_disappearing_client config fresh) c _
        (of_kind _ (polls_left config))
        (choose (IsNew id) _ (make_lazy_polling_client config fresh) c _
          (of_kind _ (positive_property-pos "max_ms_sleep_dur" 9_999 config))
          (choose (IsNew id) _ (make_exponential_backoff_client config fresh) c _
            (of_kind _ (millis_property "maximum_backoff_ms" config h))
            (choose (IsNew id) _ (make_jit_greedy_poller config fresh) c none
              (of_kind (make_jit_greedy_poller config fresh).kind (counts, lead, window))
              (λ n. absurd (none_is_not_some n))))))
      e
