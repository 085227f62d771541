-- ===== src/Deadline.antt =====
-- request_deadline.py: the budget of one request, an end point on a monotonic clock. A time is a
-- number of units of the clock, and a reading of the clock is an argument.
use route_llm.Prelude.{
  ℕ, ◌+◌, ◌-◌, ◌≤◌, ◌≡◌, ◌↔◌, Bool, true, Option, none, some, leb, ◌==◌, if◌then◌else◌, arith,
}
use Prim.Native.Nat.{min}
use route_llm.Prelude.Int.{pos}
use route_llm.Errors.{ok, err, value_error, overflow_error}
use route_llm.Models.{Result}
use route_llm.Routing.Threshold.{Value, number, too_large, finite}

pub record RequestDeadline : Type 0 where
  pub expires_at : ℕ

-- `RequestDeadline.__init__`, for a total in the units of the clock.
unfoldable pub new_deadline : ℕ → Value → Result RequestDeadline
new_deadline now (number (finite (pos n))) =
    if n == 0 then err value_error else ok (record { expires_at = now + n })
new_deadline now too_large = err overflow_error
new_deadline now _ = err value_error

-- `max(0.0, expires_at - clock())`, which is the subtraction that stops at zero.
unfoldable pub remaining_seconds : RequestDeadline → ℕ → ℕ
remaining_seconds d now = d.expires_at - now

unfoldable pub expired : RequestDeadline → ℕ → Bool
unfolding remaining_seconds
expired d now = leb (remaining_seconds d now) 0

unfoldable pub constrain_timeout : RequestDeadline → ℕ → ℕ → Option ℕ
unfolding remaining_seconds
constrain_timeout d now max_timeout =
    if leb (remaining_seconds d now) 0
    then none
    else some (min (remaining_seconds d now) max_timeout)

-- A deadline has expired exactly from its end point on, and so for good.
pub expired_iff : (d : RequestDeadline) (now : ℕ) → (expired d now ≡ true) ↔ (d.expires_at ≤ now)
unfolding expired
expired_iff d now = (λ h. ground arith, λ h. ground arith)

-- A timeout is granted exactly while the deadline has not expired. It is the largest that is within
-- the given maximum and ends by the deadline.
pub constrain_timeout_lem :
    (d : RequestDeadline) (now max_timeout : ℕ)
    → ((constrain_timeout d now max_timeout ≡ none) ↔ (expired d now ≡ true))
      × ((t : ℕ)
          → constrain_timeout d now max_timeout ≡ some t
          → (t ≤ max_timeout)
            × (now + t ≤ d.expires_at)
            × ((u : ℕ) → u ≤ max_timeout → now + u ≤ d.expires_at → u ≤ t))
unfolding constrain_timeout expired
constrain_timeout_lem d now max_timeout = (
  (λ h. ground arith, λ h. ground arith),
  λ t h. (ground arith, ground arith, λ u p q. ground arith),
)
