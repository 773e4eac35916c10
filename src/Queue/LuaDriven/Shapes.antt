-- ===== src/Queue/LuaDriven/Shapes.antt =====
-- The types of the entries that the readers of replies assert: lua_postprocessors.go of
-- internal/throttle/queue/impl/redis_queue and the postprocessors of internal/lua_config/lua_queue.
use goqueuesim.Common.{
  ◌≡◌, refl, ◌∙◌, ap, ◌⊎◌, inl, inr, Bool, true, false, Option, some, List, [], ◌∷◌, String, ℤ, pos,
  ◌*ℤ◌,
}
use goqueuesim.Common.Map.{string_key}
use goqueuesim.Common.Clock.{Time, millisecond}
use goqueuesim.Common.Word.{i64}
use goqueuesim.Common.Panic.{Outcome, ok}
use goqueuesim.Common.Float.{Float64}
use goqueuesim.Client.{Client}
use goqueuesim.LuaConfig.{Postprocessor, default_postprocessor, minimalist, nobins}
use goqueuesim.Queue.LuaDriven.Results.{
  Scalar, int, string, nth, as_int, as_string, post_other, post_poll, post_size, PostprocessParams,
  PostprocessResult, no_result, on_client, arrived, arrived_in, wait_for, default_post_add,
  minimalist_post_add, nobins_post_add, Method, adding, polling, sizing, another, method_of,
  post_with, default_postprocess, minimalist_postprocess, nobins_postprocess,
  postprocess_lua_result,
}

-- What an entry has to be: an int64, a string, or one of the two answers to a poll.
pub data Sort : Type 0 where
  an_int a_string a_verdict : Sort

abbrev pub Has : Sort → Scalar → Type 0
Has an_int x = (n : ℤ) × (x ≡ int n)
Has a_string x = (s : String) × (x ≡ string s)
Has a_verdict x = (x ≡ string "pass") ⊎ (x ≡ string "reject")

-- The entries after the first have the sorts; further ones are not read.
abbrev pub HaveSorts : List Sort → List Scalar → Type 0
HaveSorts [] xs = Unit
HaveSorts (k ∷ ks) [] = ⊥
HaveSorts (k ∷ ks) (x ∷ xs) = Has k x × HaveSorts ks xs

abbrev pub HasShape : List Sort → List Scalar → Type 0
HasShape ks [] = ⊥
HasShape ks (code ∷ xs) = HaveSorts ks xs

-- The sorts of the entries of a reply, from the message on.
abbrev add_sorts : Postprocessor → List Sort
add_sorts default_postprocessor = a_string ∷ an_int ∷ an_int ∷ an_int ∷ []
add_sorts (minimalist _) = a_string ∷ an_int ∷ an_int ∷ []
add_sorts (nobins _) = a_string ∷ an_int ∷ []

abbrev pub sorts_of : Postprocessor → Method → List Sort
sorts_of pp adding = add_sorts pp
sorts_of pp polling = a_string ∷ a_verdict ∷ []
sorts_of pp sizing = a_string ∷ an_int ∷ []
sorts_of pp another = a_string ∷ []

-- Only `add` touches the client, so it needs one.
abbrev pub HasClient : Method → Option Client → Type 0
HasClient adding c = (d : Client) × (c ≡ some d)
HasClient _ c = Unit

-- The other methods leave it alone.
abbrev pub KeepsClient : Method → Option Client → Option Client × PostprocessResult → Type 0
KeepsClient adding c r = Unit
KeepsClient _ c r = r.0 ≡ c

abbrev Answers : Method → Option Client → Outcome (Option Client × PostprocessResult) → Type 0
Answers method c m = (r : Option Client × PostprocessResult) × (m ≡ ok r) × KeepsClient method c r

message :
    (xs : List Scalar) (ks : List Sort)
    → HasShape (a_string ∷ ks) xs
    → (s : String) × (post_other xs ≡ ok s)
unfolding post_other nth as_string
message [] ks h = elim h [ ]
message (code ∷ []) ks h = elim h [ ]
message (code ∷ x ∷ xs) ks ((s, e), _) = (s, rw e refl)

verdict :
    (xs : List Scalar)
    → HasShape (a_string ∷ a_verdict ∷ []) xs
    → (b : Bool) × (post_poll xs ≡ ok b)
unfolding post_poll post_other nth as_string
verdict [] h = elim h [ ]
verdict (code ∷ []) h = elim h [ ]
verdict (code ∷ x ∷ []) (_, h) = elim h [ ]
verdict (code ∷ x ∷ y ∷ xs) ((s, e), (inl f, _)) = (true, rw (e, f) refl)
verdict (code ∷ x ∷ y ∷ xs) ((s, e), (inr f, _)) = (false, rw (e, f) refl)

count : (xs : List Scalar) → HasShape (a_string ∷ an_int ∷ []) xs → (n : ℤ) × (post_size xs ≡ ok n)
unfolding post_size post_other nth as_int as_string
count [] h = elim h [ ]
count (code ∷ []) h = elim h [ ]
count (code ∷ x ∷ []) (_, h) = elim h [ ]
count (code ∷ x ∷ y ∷ xs) ((s, e), ((n, f), _)) = (n, rw (e, f) refl)

-- The case `add` of each postprocessor, for a client.
default_adds :
    (now : Time) (xs : List Scalar) (d : Client)
    → HasShape (add_sorts default_postprocessor) xs
    → (c : Option Client) × (default_post_add now (record { result_tuple = xs; c = some d }) ≡ ok c)
unfolding default_post_add on_client post_other nth as_int as_string
default_adds now [] d h = elim h [ ]
default_adds now (code ∷ []) d h = elim h [ ]
default_adds now (code ∷ x ∷ []) d (_, h) = elim h [ ]
default_adds now (code ∷ x ∷ y ∷ []) d (_, (_, h)) = elim h [ ]
default_adds now (code ∷ x ∷ y ∷ z ∷ []) d (_, (_, (_, h))) = elim h [ ]
default_adds now (code ∷ x ∷ y ∷ z ∷ w ∷ xs) d ((s, e), ((b, f), ((p, g), ((n, k), _)))) =
    (some (arrived_in b p now (i64 (n *ℤ pos millisecond)) d), rw (e, f, g, k) refl)

minimalist_adds :
    (fl : Float64) (max_cps : ℤ) (now : Time) (xs : List Scalar) (d : Client)
    → HasShape (add_sorts (minimalist max_cps)) xs
    → (c : Option Client) × (minimalist_post_add fl max_cps now
          (record { result_tuple = xs; c = some d })
        ≡ ok c)
unfolding minimalist_post_add on_client post_other nth as_int as_string
minimalist_adds fl m now [] d h = elim h [ ]
minimalist_adds fl m now (code ∷ []) d h = elim h [ ]
minimalist_adds fl m now (code ∷ x ∷ []) d (_, h) = elim h [ ]
minimalist_adds fl m now (code ∷ x ∷ y ∷ []) d (_, (_, h)) = elim h [ ]
minimalist_adds fl m now (code ∷ x ∷ y ∷ z ∷ xs) d ((s, e), ((b, f), ((p, g), _))) =
    (some (arrived_in b p now (wait_for fl p m) d), rw (e, f, g) refl)

nobins_adds :
    (fl : Float64) (max_cps : ℤ) (now : Time) (xs : List Scalar) (d : Client)
    → HasShape (add_sorts (nobins max_cps)) xs
    → (c : Option Client) × (nobins_post_add fl max_cps now
          (record { result_tuple = xs; c = some d })
        ≡ ok c)
unfolding nobins_post_add on_client post_other nth as_int as_string
nobins_adds fl m now [] d h = elim h [ ]
nobins_adds fl m now (code ∷ []) d h = elim h [ ]
nobins_adds fl m now (code ∷ x ∷ []) d (_, h) = elim h [ ]
nobins_adds fl m now (code ∷ x ∷ y ∷ xs) d ((s, e), ((n, f), _)) =
    (some (arrived n now (wait_for fl n m) d), rw (e, f) refl)

given :
    (p : PostprocessParams) (d : Client)
    → p.c ≡ some d
    → (add : PostprocessParams → Outcome (Option Client))
    → ((c : Option Client) × (add (record { result_tuple = p.result_tuple; c = some d }) ≡ ok c))
    → (c : Option Client) × (add p ≡ ok c)
given p d e add (c, f) = (c, ap (λ o. add (record { result_tuple = p.result_tuple; c = o })) e ∙ f)

-- Whatever the case `add` is, once it answers.
with_add :
    (add : PostprocessParams → Outcome (Option Client)) (m : Method) (pp : Postprocessor)
    (p : PostprocessParams)
    → ((d : Client)
        → HasShape (add_sorts pp) p.result_tuple
        → p.c ≡ some d
        → (c : Option Client) × (add p ≡ ok c))
    → HasShape (sorts_of pp m) p.result_tuple
    → HasClient m p.c
    → Answers m p.c (post_with add m p)
unfolding post_with
with_add add adding pp p adds h (d, e) = let (c, f) = adds d h e in ((c, no_result), rw f refl, tt)
with_add add polling pp p adds h _ =
    let (b, f) = verdict p.result_tuple h in
    ((p.c, record no_result { poll_result = b }), rw f refl, refl)
with_add add sizing pp p adds h _ =
    let (n, f) = count p.result_tuple h in
    ((p.c, record no_result { size_result = n }), rw f refl, refl)
with_add add another pp p adds h _ =
    let (s, f) = message p.result_tuple [] h in ((p.c, no_result), rw f refl, refl)

-- A reply whose entries have the sorts that the postprocessor reads for the method is processed
-- without a panic, if the method `add` is given a client: no type assertion fails, no entry is
-- missing, and no other answer to a poll is met. No method but `add` changes the client.
pub postprocess-answers :
    (fl : Float64) (pp : Postprocessor) (now : Time) (name : String) (p : PostprocessParams)
    → HasShape (sorts_of pp (method_of name)) p.result_tuple
    → HasClient (method_of name) p.c
    → (r : Option Client × PostprocessResult) × (postprocess_lua_result fl pp now name p ≡ ok r)
      × KeepsClient (method_of name) p.c r
unfolding postprocess_lua_result default_postprocess minimalist_postprocess nobins_postprocess
postprocess-answers fl default_postprocessor now name p h c =
    with_add (default_post_add now) (method_of name) default_postprocessor p
      (λ d shape e. given p d e (default_post_add now) (default_adds now p.result_tuple d shape)) h
      c
postprocess-answers fl (minimalist m) now name p h c =
    with_add (minimalist_post_add fl m now) (method_of name) (minimalist m) p
      (λ d shape e.
        given p d e (minimalist_post_add fl m now)
          (minimalist_adds fl m now p.result_tuple d shape))
      h c
postprocess-answers fl (nobins m) now name p h c =
    with_add (nobins_post_add fl m now) (method_of name) (nobins m) p
      (λ d shape e.
        given p d e (nobins_post_add fl m now) (nobins_adds fl m now p.result_tuple d shape))
      h c
