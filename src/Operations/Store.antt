-- ===== src/Operations/Store.antt =====
-- internal/operationstore/store.go. A transaction that fails leaves the database as it was, so a
-- call gives the database after it, or the error.
mod Rows
mod Create
mod Claim
mod Update
unfoldable pub use Rows.{
  has_event, insert_event, set_row, place, order, rows_under, count_state, recounted,
  refresh_parent, tell_parent, write_receipt_change,
}
unfoldable pub use Create.{find_key, root_for, insert_row, create_new, create}
unfoldable pub use Claim.{oldest_queued, claim, renew_lease, abandoned_rows, running_not_held_by}
unfoldable pub use Update.{released, completed, guarded, update_also, update}
pub use Rows.*
pub use Create.*
pub use Claim.*
pub use Update.*
