-- ===== src/Schedule/Generate/Windows.antt =====
-- The equal windows of a day: where they lie, and that each is at least the spacing wide.
use booksaver_agent.Base.{
  ℕ, ◌+◌, ◌*◌, ◌-◌, ◌≤◌, ◌<◌, ◌≡◌, ◌↔◌, inl, inr, arith, Bool-cases, ◌==◌, ok,
}
use booksaver_agent.Base.Round.{div_half_even, div_half_even_bounds, mul_le_cancel, mul_step}
use booksaver_agent.Schedule.Slot.{ScheduleSettings, utc_day, check_settings}
use booksaver_agent.Schedule.Generate.{window_start, window_end}

-- The k-th edge of `count` windows.
abbrev edge : ℕ → ℕ → ℕ
edge count k = div_half_even (utc_day * k) count

pub edge_le : (count k : ℕ) → 0 < count → k ≤ count → edge count k ≤ utc_day
edge_le count k pos h =
    let (_, high) = div_half_even_bounds (utc_day * k) count pos in
    mul_le_cancel count (edge count k) utc_day pos (omega arith)

pub edge_last : (count : ℕ) → 0 < count → edge count count ≡ utc_day
edge_last count pos =
    let (low, high) = div_half_even_bounds (utc_day * count) count pos in
    omega (
      arith,
      mul_le_cancel count (edge count count) utc_day pos (omega arith),
      mul_le_cancel count utc_day (edge count count) pos (omega arith),
    )

pub edge_first : (count : ℕ) → 0 < count → edge count 0 ≡ 0
edge_first count pos =
    let (low, high) = div_half_even_bounds (utc_day * 0) count pos in
    omega (arith, mul_le_cancel count (edge count 0) 0 pos (omega arith))

-- What the settings have to satisfy for a day to be plannable.
pub record IsValidSettings (s : ScheduleSettings) : Type 0 where
  pub some_check : 0 < s.checks_per_booking_per_day
  pub some_spacing : 0 < s.minimum_spacing
  pub some_grace : 0 < s.missed_run_grace
  pub some_retention : 0 < s.retention_days
  pub spacing_fits : s.minimum_spacing < div_half_even utc_day s.checks_per_booking_per_day

-- `__post_init__` accepts exactly the valid settings.
pub check_settings_iff : (s : ScheduleSettings) → (check_settings s ≡ ok tt) ↔ IsValidSettings s
unfolding check_settings
check_settings_iff s = (λ h. ground arith, λ v. ground arith)

-- However the edges are rounded, the spacing fits between two neighbours.
pub spacing_le_window :
    (count k spacing : ℕ)
    → 0 < count
    → spacing < div_half_even utc_day count
    → edge count k + spacing ≤ edge count (k + 1)
spacing_le_window count k spacing pos fits =
    let (_, here) = div_half_even_bounds (utc_day * k) count pos in
    let (next, _) = div_half_even_bounds (utc_day * (k + 1)) count pos in
    let (_, width) = div_half_even_bounds utc_day count pos in
    mul_le_cancel count (edge count k + spacing) (edge count (k + 1)) pos
      (omega (arith, here, next, width, mul_step count (div_half_even utc_day count) spacing fits))

pub window_end-eq :
    (day_start count ordinal : ℕ)
    → ordinal < count
    → window_end day_start count ordinal ≡ window_start day_start count (ordinal + 1)
unfolding window_end window_start
window_end-eq day_start count ordinal h = elim (Bool-cases (ordinal == count - 1)) [
  | inl last ↦ rw last (let e : ordinal + 1 ≡ count = ground arith in rw e (rw edge_last_at))
  | inr inner ↦ rw inner
]
  where
    edge_last_at : edge count count ≡ utc_day
    edge_last_at = edge_last count (omega arith)
