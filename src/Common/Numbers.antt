-- ===== src/Common/Numbers.antt =====
-- Times are milliseconds since the epoch, periods are seconds.
use Prim.Native.Nat.{ℕ, ◌+◌, ◌*◌}

-- `new Date(Date.now() + seconds * 1000)`
abbrev pub after_seconds : ℕ → ℕ → ℕ
after_seconds now seconds = now + seconds * 1000
