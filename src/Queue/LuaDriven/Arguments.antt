-- ===== src/Queue/LuaDriven/Arguments.antt =====
-- The keys and arguments that the Lua driven queue sends
-- (internal/throttle/queue/impl/redis_queue/lua_driven_queue.go).
use goqueuesim.Common.{
  ◌≡◌, refl, ap, ◌∙◌, Bool, true, false, List, [], ◌∷◌, ◌++◌, String, if◌then◌else◌,
}
use goqueuesim.Common.Map.{string_key, lookup_or}
use goqueuesim.Common.Float.{Float64}
use goqueuesim.Common.Slice.{Heap, Slice, read, append}
use goqueuesim.Common.Slice.Sharing.{IsValid, read-append, append-IsValid}
use goqueuesim.Client.{Client, get_throttle_cookie_val}
use goqueuesim.LuaConfig.{empty_slice}
use goqueuesim.Queue.LuaDriven.{LuaCalls, LuaDrivenQueue, append_cookie, args_with_client_data}
use goqueuesim.Queue.LuaDriven.Results.{lua_user_bin_key, lua_user_pos_key}

-- The value that a client carries under a key, if it does.
unfoldable pub carried : String → Client → List String
carried key c =
    let (value, found) = get_throttle_cookie_val key c in if found then value ∷ [] else []

append_none : (xs : List String) → xs ≡ xs ++ []
append_none [] = refl
append_none (x ∷ xs) = ap (λ r. x ∷ r) (append_none xs)

module _ {fl : Float64} {R : Type 0} (calls : LuaCalls fl R) where
  -- The slice that a step leaves is valid, and reads as what was read before with more behind it.
  abbrev Grown : List String → Heap × Slice → Heap × Slice → Type 0
  Grown more made made' =
      IsValid made'.0 made'.1 × (read made'.0 made'.1 ≡ read made.0 made.1 ++ more)

  append_cookie-Grown :
      (key : String) (c : Client) (made : Heap × Slice)
      → IsValid made.0 made.1
      → Grown (carried key c) made (append_cookie calls key c made)
  unfolding append_cookie carried
  append_cookie-Grown key c made v = go (get_throttle_cookie_val key c).1
    where
      value : String
      value = (get_throttle_cookie_val key c).0

      go :
          (found : Bool)
          → Grown
              (if found then value ∷ [] else [])
              made
              (if found then append calls.spare made.1 (value ∷ []) made.0 else made)
      go true = (
        append-IsValid calls.spare made.0 made.1 (value ∷ []) v,
        read-append calls.spare made.0 made.1 (value ∷ []) v,
      )
      go false = (v, append_none (read made.0 made.1))

  -- The arguments of a method are its constant ones, then the client's bin and its position as far as
  -- its cookie holds them, also where they are written into the array of the constant ones, if the
  -- slice of the constant ones lies in an array of the heap.
  pub args_with_client_data-eq :
      (method : String) (c : Client) (q : LuaDrivenQueue R)
      → IsValid q.heap (lookup_or empty_slice method q.params.method_to_constant_args)
      → read (args_with_client_data calls method c q).0 (args_with_client_data calls method c q).1
        ≡ (read q.heap (lookup_or empty_slice method q.params.method_to_constant_args)
            ++ carried lua_user_bin_key c)
          ++ carried lua_user_pos_key c
  unfolding args_with_client_data
  args_with_client_data-eq method c q v =
      let constants = lookup_or empty_slice method q.params.method_to_constant_args in
      let first : Heap × Slice = append_cookie calls lua_user_bin_key c (q.heap, constants) in
      let (valid, bin) = append_cookie-Grown lua_user_bin_key c (q.heap, constants) v in
      let (valid', pos) = append_cookie-Grown lua_user_pos_key c first valid in
      pos ∙ ap (λ r. r ++ carried lua_user_pos_key c) bin
