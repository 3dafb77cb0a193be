-- ===== src/BackupController/Stale.antt =====
-- How long a pass over a backup waits (controllers/backup_controller.go, `RemoveStale`).
use etcdops.Base.{String, false, ◌≡◌, arith, none, ◌⊎◌, inl, inr, Bool-cases}
use etcdops.Base.Int.{pos, +ℤ_parts, -ℤ_parts, ◌+ℤ◌, ◌≤ℤ◌, ◌<ℤ◌, ltb_ℤ}
use etcdops.Kube.{done, Frame, Time, Duration}
use etcdops.Types.Backup.{Backup}
use etcdops.Env.{Env}
use etcdops.BackupController.{retention_time, wait_until, remove_stale}
use etcdops.BackupController.Clock.{sub_time, max_duration, min_duration}

-- Every difference of instants fits a duration.
sub_time_fits : (t u : Time) → (min_duration ≤ℤ sub_time t u) × (sub_time t u ≤ℤ max_duration)
unfolding sub_time
sub_time_fits t u = let d = -ℤ_parts t u in (ground (arith, d), ground (arith, d))

-- The time from `u` to a later `t` does not lead past `t`.
sub_time_reaches : (t u : Time) → u ≤ℤ t → u +ℤ sub_time t u ≤ℤ t
unfolding sub_time
sub_time_reaches t u h =
    let d = -ℤ_parts t u in let e = +ℤ_parts u (sub_time t u) in ground (arith, d, e)

-- The time from `u` to `t` is positive, or they are the same instant and it is zero.
abbrev pub Remains : Time → Time → Duration → Type 0
Remains u t d = ((u <ℤ t) × (pos 0 <ℤ d)) ⊎ ((u ≡ t) × (d ≡ pos 0))

sub_time-Remains : (t u : Time) → u ≤ℤ t → Remains u t (sub_time t u)
unfolding sub_time
sub_time-Remains t u h =
    let d = -ℤ_parts t u in
    elim (Bool-cases (ltb_ℤ u t)) [
      | inl before ↦ inl (ground arith, ground (arith, d))
      | inr not_before ↦ inr (ground arith, ground (arith, d))
    ]

module _ (V : Env) (s3_bucket s3_prefix : String) where
  -- If the retention time of a backup is not over, at either of the two readings of the clock,
  -- `RemoveStale` does nothing but read the clock, and the delay of its result fits a duration and
  -- does not lead past the retention time. The delay is positive, which asks for another pass, if the
  -- second reading is before the retention time. At that instant itself it is zero, the empty result,
  -- which asks for none.
  pub remove_stale_waits :
      (f : Frame V.World Backup) {t u : Time} {w v : V.World}
      → V.now f.world ≡ (t, w)
      → V.now w ≡ (u, v)
      → t ≤ℤ retention_time f.self
      → u ≤ℤ retention_time f.self
      → (d : Duration) × (remove_stale V s3_bucket s3_prefix f ≡ (
        done (record { result = record { requeue = false; requeue_after = d }; error = none }),
        record f { world = v },
      ))
        × Remains u (retention_time f.self) d
        × (d ≤ℤ max_duration)
        × (u +ℤ d ≤ℤ retention_time f.self)
  unfolding remove_stale wait_until
  remove_stale_waits f {u = u} first second early still = (
    sub_time (retention_time f.self) u,
    ground arith,
    sub_time-Remains (retention_time f.self) u still,
    (sub_time_fits (retention_time f.self) u).1,
    sub_time_reaches (retention_time f.self) u still,
  )
