-- ===== src/Push/Invariant.antt =====
-- What holds of every row of the outbox of app/services/push.py, and is kept by each update.
use fofu_backend.Base.{ℕ, ◌≤◌, Uuid, Time, String, ◌≡◌, true, arith, is_some}
use fofu_backend.Push.Rows.{
  PushDevice, PushDelivery, is_processing, is_sent, is_cancelable, Settings,
}
use fofu_backend.Push.Cancel.{cancel}
use fofu_backend.Push.Enqueue.{Message, new_delivery}
use fofu_backend.Push.Claim.{ClaimedDelivery, is_exhausted, exhaust, is_available, lease}
use fofu_backend.Push.Finish.{ApnsResult, finish}

-- A lease, with its end, is there exactly while the delivery is processing, a time of sending
-- exactly when it has been sent, and the attempts stay within the limit.
pub record IsWellFormed (attempts : ℕ) (q : PushDelivery) : Type 0 where
  pub leased : is_some q.lease_id ≡ is_processing q.status
  pub timed : is_some q.lease_expires_at ≡ is_processing q.status
  pub delivered : is_some q.sent_at ≡ is_sent q.status
  pub bounded : q.attempt_count ≤ attempts

module _ {attempts : ℕ} {q : PushDelivery} (ok : IsWellFormed attempts q) where
  pub cancel-IsWellFormed :
      (reason : String) (now : Time)
      → is_cancelable q.status ≡ true
      → IsWellFormed attempts (cancel reason now q)
  cancel-IsWellFormed reason now h = ground arith

  pub exhaust-IsWellFormed :
      (now : Time) → is_exhausted attempts now q ≡ true → IsWellFormed attempts (exhaust now q)
  exhaust-IsWellFormed now h = ground arith

  pub lease-IsWellFormed :
      (lease_id : Uuid) (until now later : Time)
      → is_available attempts now q ≡ true
      → IsWellFormed attempts (lease lease_id until later q)
  lease-IsWellFormed lease_id until now later h = ground arith

  pub finish-IsWellFormed :
      (settings : Settings) (c : ClaimedDelivery) (result : ApnsResult) (now later : Time)
      → is_processing q.status ≡ true
      → IsWellFormed attempts (finish settings c result now later q)
  unfolding finish
  finish-IsWellFormed settings c result now later h = ground arith

pub new_delivery-IsWellFormed :
    (attempts : ℕ) (message : Message) (now : Time) (id : Uuid) (d : PushDevice)
    → IsWellFormed attempts (new_delivery message now id d)
new_delivery-IsWellFormed attempts message now id d = ground arith
