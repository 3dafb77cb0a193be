-- ===== src/BackupController/Clock.antt =====
-- The parts of Go's `time` that the backup controllers call.
use etcdops.Base.{◌/◌, if◌then◌else◌}
use etcdops.Base.Int.{ℤ, pos, negsuc, ltb_ℤ, ◌-ℤ◌}
use etcdops.Kube.{Time, Duration}

abbrev pub max_duration : Duration
max_duration = pos 9223372036854775807

abbrev pub min_duration : Duration
min_duration = negsuc 9223372036854775807

-- `t.Sub(u)`: a difference that fits no duration is replaced by the nearest one.
unfoldable pub sub_time : Time → Time → Duration
unfolding ◌-ℤ◌
sub_time t u =
    if ltb_ℤ max_duration (t -ℤ u)
    then max_duration
    else if ltb_ℤ (t -ℤ u) min_duration
    then min_duration
    else t -ℤ u

-- The Unix epoch, from year 1
abbrev epoch : Time
epoch = pos 62135596800000000000

whole_seconds : Duration → ℤ
whole_seconds (pos n) = pos (n / 1000000000)
whole_seconds (negsuc n) = negsuc (n / 1000000000)

-- `t.Unix()`, rounded down
unfoldable pub unix : Time → ℤ
unfolding ◌-ℤ◌ whole_seconds
unix t = whole_seconds (t -ℤ epoch)
