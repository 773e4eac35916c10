-- ===== src/Setup/Numbering.antt =====
-- Which clients makeMockCheckoutClients makes (cmd/goqueuesim/config.go).
use goqueuesim.Common.{
  ℕ, suc, ◌+◌, ◌<◌, ◌^◌, ◌≡◌, refl, ◌∙◌, ap, false, ◌&&◌, Option, none, some, List, [], ◌∷◌, ◌++◌,
  All, if◌then◌else◌, arith, ℤ, pos, ◌+ℤ◌, leb_ℤ, ◌==ℤ◌, ==ℤ_iff, length, length-append,
}
use goqueuesim.Common.Map.{int_key, insert}
use goqueuesim.Common.Word.{i64}
use goqueuesim.Common.Panic.{ok, panic, Post, fatal}
use goqueuesim.Client.{Client}
use goqueuesim.ClientFactory.{ClientConfig, make_base_client, make_client_from_config}
use goqueuesim.ClientFactory.Defaults.{make_client_from_config-all}
use goqueuesim.Setup.{Made, make_one}

-- How many clients of a list have an id.
unfoldable pub times : ℤ → List Client → ℕ
times id [] = 0
times id (c ∷ cs) = if c.id ==ℤ id then suc (times id cs) else times id cs

-- The ids of the clients are the numbers from 1 to their count, each once.
abbrev pub AreNumbered : List Client → Type 0
AreNumbered cs =
    (id : ℤ) → times id cs ≡ (if leb_ℤ (pos 1) id && leb_ℤ id (pos (length cs)) then 1 else 0)

abbrev pub AreFresh : List Client → Type 0
AreFresh = All (λ c. c.hit_checkout_step ≡ false)

pub record IsNumbered (m : Made) : Type 0 where
  pub numbered : AreNumbered m.clients
  pub fresh : AreFresh m.clients
  pub next : m.next_id ≡ pos (length m.clients + 1)

times-snoc :
    (id : ℤ) (cs : List Client) (c : Client)
    → times id (cs ++ c ∷ []) ≡ (if c.id ==ℤ id then suc (times id cs) else times id cs)
unfolding times
times-snoc id [] c = refl
times-snoc id (d ∷ cs) c = ground (arith, times-snoc id cs c)

All-snoc {ℓ κ} :
    {A : Type ℓ} (P : A → Type κ) (xs : List A) (x : A) → All P xs → P x → All P (xs ++ x ∷ [])
All-snoc P [] x h k = (k, tt)
All-snoc P (y ∷ xs) x h k = (h.0, All-snoc P xs x h.1 k)

-- A new client has the id that it is given, and has not reached checkout.
made_client :
    (config : ClientConfig) (id : ℤ) (c : Client)
    → make_client_from_config config id ≡ some c
    → (c.id ≡ id) × (c.hit_checkout_step ≡ false)
unfolding make_base_client
made_client config id c e =
    make_client_from_config-all (λ d. (d.id ≡ id) × (d.hit_checkout_step ≡ false)) config id c
      (λ k. (refl, refl)) e

next_number : (n : ℕ) → n + 2 < 2 ^ 63 → i64 (pos (n + 1) +ℤ pos 1) ≡ pos (n + 2)
unfolding i64 ◌+ℤ◌
next_number n h = ground arith

snoc_numbered :
    (cs : List Client) (c : Client)
    → AreNumbered cs
    → c.id ≡ pos (length cs + 1)
    → AreNumbered (cs ++ c ∷ [])
snoc_numbered cs c h e id =
    ground (arith, h id, times-snoc id cs c, length-append cs (c ∷ []), ==ℤ_iff c.id id)

-- A round that makes one client more.
abbrev pub More : ℕ → Made → Made → Type 0
More n m m' = IsNumbered m' × (length m'.clients ≡ length m.clients + n)

pub make_one-IsNumbered :
    (config : ClientConfig) (m : Made)
    → IsNumbered m
    → length m.clients + 2 < 2 ^ 63
    → Post (More 1 m) (make_one config m)
unfolding make_one
make_one-IsNumbered config m h room = go (make_client_from_config config m.next_id) refl
  where
    go :
        (o : Option Client)
        → make_client_from_config config m.next_id ≡ o
        → Post (More 1 m) (elim o [
          | none ↦ panic (fatal "client type must be one of: {routinely_polling_client}")
          | some c ↦ ok (record {
            clients = m.clients ++ c ∷ [];
            response_channels = insert m.next_id [] m.response_channels;
            next_id = i64 (m.next_id +ℤ pos 1);
          })
        ])
    go none e = tt
    go (some c) e =
        let (named, fresh) = made_client config m.next_id c e in
        let more = length-append m.clients (c ∷ []) in
        (
          record {
            numbered = snoc_numbered m.clients c h.numbered (named ∙ h.next);
            fresh = All-snoc (λ d. d.hit_checkout_step ≡ false) m.clients c h.fresh fresh;
            next = rw (h.next) (next_number (length m.clients) room ∙ ap pos (omega (arith, more)));
          },
          more,
        )
