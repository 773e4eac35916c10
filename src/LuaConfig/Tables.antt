-- ===== src/LuaConfig/Tables.antt =====
-- Which keys a method of a Lua driven queue gets once its parameters are made
-- (internal/lua_config/lua_queue/params_factory.go).
use Prim.Native.String
use goqueuesim.Common.{
  ℕ, String, ◌≡◌, refl, ◌∙◌, ap, List, [], ◌∷◌, ◌++◌, arith, length, length-append,
}
use goqueuesim.Common.Map.{Map, string_key, lookup_or, lookup}
use goqueuesim.Common.Clock.{milliseconds}
use goqueuesim.Common.Text.{format_int}
use goqueuesim.Common.Panic.{ok}
use goqueuesim.Common.Float.{Float64}
use goqueuesim.Common.Slice.{
  Heap, read, range, write, append, slice_of, sub_slice, array_at, set_array,
}
use goqueuesim.Common.Slice.Writes.{array_at-set_array, array_at-last, array_at-append}
use goqueuesim.LuaConfig.{LuaQueueConstants, LuaQueueParams, prefixed_keys, empty_slice}
use goqueuesim.LuaConfig.Factory.{shop_keys, params_with, make_opt_fairness_interval_params}

-- The keys that are read for a method.
unfoldable pub keys_of : String → Heap × LuaQueueParams → List String
unfolding read lookup_or lookup
keys_of m made = read made.0 (lookup_or empty_slice m made.1.method_to_shop_scope_keys)

-- Two arrays that are added stand behind the others.
added_first :
    (xs ys : List String) (h : Heap) → array_at (length h) ((h ++ xs ∷ []) ++ ys ∷ []) ≡ xs
added_first xs ys h =
    array_at-append (length h) (h ++ xs ∷ []) (ys ∷ []) (omega (arith, length-append h (xs ∷ [])))
    ∙ array_at-last xs h

overwritten :
    (xs ys zs : List String) (h : Heap)
    → array_at (length h) (set_array (length h) zs ((h ++ xs ∷ []) ++ ys ∷ [])) ≡ zs
overwritten xs ys zs h =
    array_at-set_array (length h) zs ((h ++ xs ∷ []) ++ ys ∷ [])
      (omega (arith, length-append h (xs ∷ []), length-append (h ++ xs ∷ []) (ys ∷ [])))

-- An append of the last of four entries behind the first two overwrites the third.
shared :
    (spare : ℕ → ℕ) (a b c d : String) (args : List String) (h : Heap)
    → let arrays = (h ++ (a ∷ b ∷ c ∷ d ∷ []) ∷ []) ++ args ∷ [] in
      let last = read arrays (record { array = length h; offset = 3; len = 1; cap = 1 }) in
      let r =
        append spare (record { array = length h; offset = 0; len = 2; cap = 4 }) last arrays in
      (array_at (length h) r.0 ≡ a ∷ b ∷ d ∷ d ∷ [])
      × (r.1 ≡ record { array = length h; offset = 0; len = 3; cap = 4 })
unfolding read append range write
shared spare a b c d args h =
    let four = a ∷ b ∷ c ∷ d ∷ [] in
    rw (added_first four args h) (overwritten four args (a ∷ b ∷ d ∷ d ∷ []) h, refl)

module _ (fl : Float64) (format_float : fl.Carrier → String) where
  -- The keys of `poll` of the optimized fairness queue are appended in the array that the other
  -- methods share: `add` gets the timer of the working bin where its table names the timer of the
  -- latest bin, and `clear` gets it twice, so that the timer of the latest bin is left to no method.
  pub opt_fairness_keys :
      (spare : ℕ → ℕ) (k : LuaQueueConstants fl) (shas : Map String String) (h : Heap)
      → let prefix = prefixed_keys (String.◌++◌ k.shop_scope_prefix ":") in
        (made : Heap × LuaQueueParams) × (make_opt_fairness_interval_params fl format_float spare k
            shas h
          ≡ ok made)
        × (keys_of "add" made
            ≡ prefix ("checkout_throttle_dict" ∷ "bin_counts" ∷ "working_bin_update_timer" ∷ []))
        × (keys_of "poll" made
            ≡ prefix ("checkout_throttle_dict" ∷ "bin_counts" ∷ "working_bin_update_timer" ∷ []))
        × (keys_of "clear" made
            ≡ prefix (
                "checkout_throttle_dict" ∷ "bin_counts" ∷ "working_bin_update_timer"
                ∷ "working_bin_update_timer" ∷ []))
  unfolding make_opt_fairness_interval_params keys_of read slice_of sub_slice shop_keys params_with
      prefixed_keys range
  opt_fairness_keys spare k shas h =
      let name : String → String = λ s. String.◌++◌ (String.◌++◌ k.shop_scope_prefix ":") s in
      let (entries, polled) =
        shared spare (name "checkout_throttle_dict") (name "bin_counts")
          (name "latest_bin_update_timer") (name "working_bin_update_timer")
          ("2000"
            ∷ format_int (milliseconds k.window_duration)
            ∷ format_int k.max_checkouts_allowed_per_window
            ∷ [])
          h in
      (
        _,
        refl,
        ap (range 0 3) entries,
        ap (read _) polled ∙ ap (range 0 3) entries,
        ap (range 0 4) entries,
      )
