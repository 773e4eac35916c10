-- ===== src/LuaConfig/Loading.antt =====
-- ConfigureRedisLua of internal/lua_config/lua_queue_config.go: the scripts of a directory are loaded
-- into Redis. Reading the directory and its files, filepath.Ext and SCRIPT LOAD are parameters.
use goqueuesim.Common.{ℕ, String, not, List, [], ◌∷◌, if◌then◌else◌}
use goqueuesim.Common.Map.{Map, string_key, ◌==◌, insert}
use goqueuesim.Common.Panic.{Outcome, ok, panic, ◌>>=◌, fatal}
use goqueuesim.Common.Float.{Float64}
use goqueuesim.Common.Slice.{Heap}
use goqueuesim.LuaConfig.{LuaQueueConstants, LuaQueueParams, make_noop_queue_params}
use goqueuesim.LuaConfig.Factory.{prepare_lua_queue_params}
use goqueuesim.Queue.SortedSet.{Reply, replied, failed, or_panic}
use goqueuesim.Setup.{last_segment, trim_suffix}

-- A directory, as far as it can be read: its file names, and what reading each gives.
pub record ScriptFiles : Type 0 where
  pub ext : String → String
  pub read_dir : String → Reply (List String)
  -- ioutil.ReadFile(filepath.Join(dirpath, name))
  pub read_file : String → String → Reply String

-- SetDefaultLuaQueueParams
unfoldable pub set_default_lua_queue_params : LuaQueueParams
unfolding make_noop_queue_params
set_default_lua_queue_params = make_noop_queue_params []

-- loadFileStr
unfoldable pub load_file_str : ScriptFiles → String → String → Outcome String
load_file_str files dirpath name = elim (files.read_file dirpath name) [
  | replied text ↦ ok text
  | failed err ↦ panic (fatal "failed opening file")
]

module _ {R : Type 0} (files : ScriptFiles) (script_load : String → R → Reply (R × String)) where
  -- The loop over the files of the directory
  unfoldable pub load_scripts :
      String → List String → R → Map String String → Outcome (R × Map String String)
  load_scripts dirpath [] r shas = ok (r, shas)
  load_scripts dirpath (name ∷ names) r shas =
      let suffix = files.ext name in
      let skipped = load_scripts dirpath names r shas in
      let loaded : Outcome (R × Map String String) = do
        text ← load_file_str files dirpath name
        answer ← or_panic (script_load text r)
        load_scripts dirpath names answer.0 (insert (trim_suffix suffix name) answer.1 shas)
      in if suffix == ".lua" then loaded else skipped

  -- ConfigureRedisLua
  unfoldable pub configure_redis_lua :
      (fl : Float64)
      → (fl.Carrier → String)
      → (ℕ → ℕ)
      → String
      → LuaQueueConstants fl
      → R
      → Heap
      → Outcome (R × Heap × LuaQueueParams)
  configure_redis_lua fl format_float spare dirpath constants r h =
      if not (constants.queue_type == "lua_driven_bins_queue")
      then panic (fatal "can't configure Redis lua for non-redis queue")
      else do
        names ← or_panic (files.read_dir dirpath)
        loaded ← load_scripts dirpath names r []
        params ←
            prepare_lua_queue_params fl format_float spare (last_segment dirpath dirpath) constants
              loaded.1 h
        ok (loaded.0, params.0, params.1)
