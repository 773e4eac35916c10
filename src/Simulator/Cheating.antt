-- ===== src/Simulator/Cheating.antt =====
-- Whom aggregateFairnessResults calls cheated, and whom unfair (internal/simulator/simulator.go).
use goqueuesim.Common.{
  ◌≡◌, refl, sym, subst, ◌↔◌, ◌⊎◌, inl, inr, Bool, true, false, Option, some, List, [], ◌∷◌,
  if◌then◌else◌, ℤ, pos, ◌<ℤ◌, ==ℤ_iff, ltb_ℤ_iff, arith,
}
use goqueuesim.Common.Map.{Map, int_key, lookup, insert, lookup_or, lookup-insert}
use goqueuesim.Common.Float.{Float64}
use goqueuesim.Client.{Client}
use goqueuesim.Simulator.Fairness.{
  overtakes, reached_checkout, Tally, compare_pair, compare_with, judge, judge_all, no_events,
}

-- A predicate that holds at some entry.
abbrev pub Some {ℓ} : {A : Type ℓ} → (A → Type 0) → List A → Type 0
Some P [] = ⊥
Some P (x ∷ xs) = P x ⊎ Some P xs

-- `cy` was queued after `cx`, and was through before it.
abbrev pub Cheats : Client → Client → Type 0
Cheats cy cx =
    (cx.queue_entry_time <ℤ cy.queue_entry_time) × (cy.queue_exit_time <ℤ cx.queue_exit_time)

overtakes-Cheats : (cy cx : Client) → (overtakes cy cx ≡ true) ↔ Cheats cy cx
unfolding overtakes
overtakes-Cheats cy cx = ground (
  arith,
  ltb_ℤ_iff cx.queue_entry_time cy.queue_entry_time,
  ltb_ℤ_iff cy.queue_exit_time cx.queue_exit_time,
)

-- The id is marked.
abbrev pub Has : ℤ → Map ℤ Bool → Type 0
Has id m = lookup_or false id m ≡ true

Has-insert : (id k : ℤ) (m : Map ℤ Bool) → Has id (insert k true m) ↔ ((Has id m) ⊎ (k ≡ id))
unfolding lookup_or
Has-insert id k m = ground (arith, lookup-insert k id true m, ==ℤ_iff k id)

-- One of the maps of the tally: it marks, where a client cheats another, the id that `who` names.
record IsMarked (fl : Float64) (marks : Tally fl → Map ℤ Bool) (who : Client → Client → ℤ)
    : Type 0 where
  pair :
      (id : ℤ) (cx cy : Client) (acc : Tally fl × fl.Carrier × Client)
      → Has id (marks (compare_pair fl cx cy acc).0)
        ↔ (Has id (marks acc.0) ⊎ (Cheats cy cx × (who cx cy ≡ id)))
  other :
      (t : Tally fl) (most : fl.Carrier) (x y : Option Client)
      → marks (record t {
        global_max_unfairness_secs = most;
        global_max_cheated_client = x;
        global_max_unfair_client = y;
      })
        ≡ marks t

cheated-IsMarked : (fl : Float64) → IsMarked fl (λ t. t.unique_cheated_clients) (λ cx cy. cx.id)
unfolding compare_pair
cheated-IsMarked fl = record {
  pair = λ id cx cy acc.
      ground (arith, overtakes-Cheats cy cx, Has-insert id cx.id acc.0.unique_cheated_clients);
  other = λ t most x y. refl;
}

unfair-IsMarked : (fl : Float64) → IsMarked fl (λ t. t.unique_unfair_clients) (λ cx cy. cy.id)
unfolding compare_pair
unfair-IsMarked fl = record {
  pair = λ id cx cy acc.
      ground (arith, overtakes-Cheats cy cx, Has-insert id cy.id acc.0.unique_unfair_clients);
  other = λ t most x y. refl;
}

module _ (fl : Float64) (marks : Tally fl → Map ℤ Bool) (who : Client → Client → ℤ)
    (marked : IsMarked fl marks who) (id : ℤ) where
  open fl use {Carrier, of_int, lt}

  abbrev Named : Client → Client → Type 0
  Named cx cy = Cheats cy cx × (who cx cy ≡ id)

  compare_with-marks :
      (cx : Client) (cys : List Client) (acc : Tally fl × Carrier × Client)
      → Has id (marks (compare_with fl cx cys acc).0) ↔ (Has id (marks acc.0) ⊎ Some (Named cx) cys)
  unfolding compare_with
  compare_with-marks cx [] acc = (λ h. inl h, λ s. elim s [ inl h ↦ h | inr e ↦ absurd e ])
  compare_with-marks cx (cy ∷ cys) acc =
      let one = marked.pair id cx cy acc in
      let rest = compare_with-marks cx cys (compare_pair fl cx cy acc) in
      (
        λ h. elim (rest.0 h) [
          | inl now ↦ elim (one.0 now) [ inl old ↦ inl old | inr new ↦ inr (inl new) ]
          | inr later ↦ inr (inr later)
        ],
        λ s. elim s [
          | inl old ↦ rest.1 (inl (one.1 (inl old)))
          | inr (inl new) ↦ rest.1 (inl (one.1 (inr new)))
          | inr (inr later) ↦ rest.1 (inr later)
        ],
      )

  judge_same :
      (all : List Client) (cx : Client) (t : Tally fl)
      → marks (judge fl all cx t) ≡ marks (compare_with fl cx all (t, of_int (pos 0), cx)).0
  unfolding judge
  judge_same all cx t =
      let (t', local_max, max_cy) = compare_with fl cx all (t, of_int (pos 0), cx) in
      either (lt t.global_max_unfairness_secs local_max) t'
        (record t' {
          global_max_unfairness_secs = local_max;
          global_max_cheated_client = some cx;
          global_max_unfair_client = some max_cy;
        })
        (marked.other t' local_max (some cx) (some max_cy))
    where
      either :
          (b : Bool) (t t' : Tally fl) → marks t' ≡ marks t → marks (if b then t' else t) ≡ marks t
      either true t t' e = e
      either false t t' e = refl

  judge_all-marks :
      (all cxs : List Client) (t : Tally fl)
      → Has id (marks (judge_all fl all cxs t))
        ↔ (Has id (marks t) ⊎ Some (λ cx. Some (Named cx) all) cxs)
  unfolding judge_all
  judge_all-marks all [] t = (λ h. inl h, λ s. elim s [ inl h ↦ h | inr e ↦ absurd e ])
  judge_all-marks all (cx ∷ cxs) t =
      let start : Tally fl × Carrier × Client = (t, of_int (pos 0), cx) in
      let one = compare_with-marks cx all start in
      let rest = judge_all-marks all cxs (judge fl all cx t) in
      let same = judge_same all cx t in
      (
        λ h. elim (rest.0 h) [
          | inl now ↦ elim (one.0 (subst (Has id) same now)) [
            | inl old ↦ inl old
            | inr new ↦ inr (inl new)
          ]
          | inr later ↦ inr (inr later)
        ],
        λ s. elim s [
          | inl old ↦ rest.1 (inl (subst (Has id) (sym same) (one.1 (inl old))))
          | inr (inl new) ↦ rest.1 (inl (subst (Has id) (sym same) (one.1 (inr new))))
          | inr (inr later) ↦ rest.1 (inr later)
        ],
      )

Some-map {ℓ} :
    {A : Type ℓ} (P Q : A → Type 0) (xs : List A) → ((x : A) → P x → Q x) → Some P xs → Some Q xs
Some-map P Q [] f e = absurd e
Some-map P Q (x ∷ xs) f s = elim s [
  | inl h ↦ inl (f x h)
  | inr later ↦ inr (Some-map P Q xs f later)
]

-- Being among those that reached checkout.
reached-Some :
    (P : Client → Type 0) (cs : List Client)
    → Some P (reached_checkout cs) ↔ Some (λ c. (c.hit_checkout_step ≡ true) × P c) cs
unfolding reached_checkout
reached-Some P [] = (λ e. e, λ e. e)
reached-Some P (c ∷ cs) =
    at c.hit_checkout_step (reached_checkout cs) (Some (λ d. (d.hit_checkout_step ≡ true) × P d) cs)
      (reached-Some P cs)
  where
    at :
        (b : Bool) (rest : List Client) (Rest : Type 0)
        → Some P rest ↔ Rest
        → Some P (if b then c ∷ rest else rest) ↔ (((b ≡ true) × P c) ⊎ Rest)
    at true rest Rest later = (
      λ s. elim s [ inl h ↦ inl (refl, h) | inr l ↦ inr (later.0 l) ],
      λ s. elim s [ inl h ↦ inl h.1 | inr l ↦ inr (later.1 l) ],
    )
    at false rest Rest later =
        (λ l. inr (later.0 l), λ s. elim s [ inl h ↦ cc | inr l ↦ later.1 l ])

-- Two clients of a list that both reached checkout, of which the second cheated the first.
abbrev pub Unfair : (Client → Client → Type 0) → List Client → Type 0
Unfair Which cs =
    Some
      (λ cx.
        (cx.hit_checkout_step ≡ true)
        × Some (λ cy. (cy.hit_checkout_step ≡ true) × (Cheats cy cx × Which cx cy)) cs)
      cs

reached-Unfair :
    (Which : Client → Client → Type 0) (cs : List Client)
    → Some
        (λ cx. Some (λ cy. Cheats cy cx × Which cx cy) (reached_checkout cs))
        (reached_checkout cs)
      ↔ Unfair Which cs
reached-Unfair Which cs =
    let inner = λ (cx : Client). reached-Some (λ cy. Cheats cy cx × Which cx cy) cs in
    let outer =
      reached-Some (λ cx. Some (λ cy. Cheats cy cx × Which cx cy) (reached_checkout cs)) cs in
    (
      λ s. Some-map _ _ cs (λ cx h. (h.0, (inner cx).0 h.1)) (outer.0 s),
      λ s. outer.1 (Some-map _ _ cs (λ cx h. (h.0, (inner cx).1 h.1)) s),
    )

marked_reached :
    (fl : Float64) (marks : Tally fl → Map ℤ Bool) (who : Client → Client → ℤ)
    → IsMarked fl marks who
    → (id : ℤ) (cs : List Client) → marks (no_events fl) ≡ []
    → Has id (marks (judge_all fl (reached_checkout cs) (reached_checkout cs) (no_events fl)))
      ↔ Unfair (λ cx cy. who cx cy ≡ id) cs
unfolding lookup_or lookup
marked_reached fl marks who marked id cs none_yet =
    let reached = reached_checkout cs in
    let found = judge_all-marks fl marks who marked id reached reached (no_events fl) in
    let named = reached-Unfair (λ cx cy. who cx cy ≡ id) cs in
    (
      λ h. elim (found.0 h) [
        | inl old ↦ absurd (not_empty (subst (Has id) none_yet old))
        | inr s ↦ named.0 s
      ],
      λ u. found.1 (inr (named.1 u)),
    )
  where
    not_empty : Has id [] → ⊥
    not_empty e = cc

-- In the fairness results of a list of clients an id is marked as cheated exactly where it is that of a
-- client that reached checkout and was queued before, and through after, another one that reached
-- checkout; and it is marked as unfair exactly where it is that of such another one.
pub judge_all_marks :
    (fl : Float64) (id : ℤ) (clients : List Client)
    → let reached = reached_checkout clients in
      let t = judge_all fl reached reached (no_events fl) in
      ((lookup_or false id t.unique_cheated_clients ≡ true) ↔ Unfair (λ cx cy. cx.id ≡ id) clients)
      × ((lookup_or false id t.unique_unfair_clients ≡ true) ↔ Unfair (λ cx cy. cy.id ≡ id) clients)
unfolding no_events
judge_all_marks fl id clients = (
  marked_reached fl (λ t. t.unique_cheated_clients) (λ cx cy. cx.id) (cheated-IsMarked fl) id
      clients refl,
  marked_reached fl (λ t. t.unique_unfair_clients) (λ cx cy. cy.id) (unfair-IsMarked fl) id clients
      refl,
)
