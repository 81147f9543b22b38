-- ===== src/Metrics/Weeks.antt =====
-- The weeks of apps/api/src/metrics/metrics.service.ts.
use ad_link.Common.{ℕ, ◌+◌, ◌%◌, ◌≤◌, ◌<◌, ◌≡◌, arith}
use ad_link.Metrics.Cohorts.{monday_of}

-- The Monday of a date's week is a Monday, at most six days before the date.
pub monday_of-IsMonday :
    (day : ℕ)
    → 3 < day
    → ((monday_of day + 3) % 7 ≡ 0) × (monday_of day ≤ day) × (day < monday_of day + 7)
monday_of-IsMonday day h = ground arith
