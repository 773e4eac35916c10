-- ===== src/Tracker/Kept.antt =====
-- Calls and ticks of a fixed window tracker keep its windows within the maximum
-- (internal/throttle/tracker/impl/fixed_window_tracker.go).
use goqueuesim.Common.{◌≡◌, ◌∙◌, ℕ}
use goqueuesim.Common.Float.{Float64}
use goqueuesim.Tracker.{FixedWindowTracker, emit_feedback}
use goqueuesim.Tracker.Capacity.{IsWithin, should_proceed-max, should_proceed-IsWithin}
use goqueuesim.Simulator.Keeping.{IsTracked}

-- No window records more than `max` + 1 clients.
abbrev pub AdmitsAtMost : ℕ → FixedWindowTracker → Type 0
AdmitsAtMost max t = (t.max_checkouts_per_window ≡ max) × IsWithin t

pub window-IsTracked : (fl : Float64) (max : ℕ) → IsTracked fl (AdmitsAtMost max)
window-IsTracked fl max = record {
  on_call = λ id t (e, h). (should_proceed-max id t ∙ e, should_proceed-IsWithin id t h);
  on_tick = λ threshold skipped count t h. unfold emit_feedback in h;
}
