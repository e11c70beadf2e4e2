-- ===== src/Common/Time.antt =====
-- Python's `datetime` and `timedelta`, in whole microseconds since `datetime.min` in UTC.
use Prim.Native.Nat.{ℕ, ◌*◌}

-- A `datetime` with no `tzinfo`, or one that carries it.
pub data Datetime : Type 0 where
  naive aware : ℕ → Datetime

-- `if t.tzinfo is None: t = t.replace(tzinfo=dt.UTC)`, read as the instant that it stands for.
abbrev pub to_utc : Datetime → ℕ
to_utc (naive n) = n
to_utc (aware n) = n

-- `dt.timedelta(hours=n)`
abbrev pub hours : ℕ → ℕ
hours n = n * 3600000000

-- `dt.timedelta(days=n)`
abbrev pub days : ℕ → ℕ
days n = n * 86400000000
