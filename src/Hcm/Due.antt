-- ===== src/Hcm/Due.antt =====
-- Which events one run of the worker takes (listDueOutboundSyncEvents of
-- timeoff-requests.repository.ts).
use timeoff_request.Base.{
  ℕ, ◌≡◌, ◌∙◌, refl, Bool, true, ◌&&◌, List, [], ◌∷◌, ◌++◌, arith, length, min, take, drop,
  take-append-drop, length-take, ap, sym,
}
use timeoff_request.Base.Table.{select, count_where, order_by}
use timeoff_request.Base.Sorting.{
  Sorted, count-order_by, count-select, length-count, order_by-Sorted,
}
use mathlib.Core.Path.{subst}
use timeoff_request.Domain.Errors.{ok}
use timeoff_request.Store.Rows.{SyncEventRow}
use timeoff_request.Store.World.{World}
use timeoff_request.Balances.Rows.{ticked, clock}
use timeoff_request.Requests.Repository.{is_due, oldest_first, list_due_outbound_sync_events}

-- the due events, oldest first
abbrev pub all_due : World → List SyncEventRow
all_due w = order_by oldest_first (select (is_due (clock w)) w.db.sync_events)

count-all_due :
    (w : World) (p : SyncEventRow → Bool)
    → count_where p (all_due w) ≡ count_where (λ e. is_due (clock w) e && p e) w.db.sync_events
count-all_due w p =
    count-order_by (λ e. e.created_at) p oldest_first (select (is_due (clock w)) w.db.sync_events)
    ∙ count-select (λ e. e.created_at) p (is_due (clock w)) w.db.sync_events

count-and_true :
    (p : SyncEventRow → Bool) (rows : List SyncEventRow)
    → count_where (λ e. p e && true) rows ≡ count_where p rows
unfolding count_where
count-and_true p [] = refl
count-and_true p (r ∷ rows) = ground (arith, count-and_true p rows)

length-all_due : (w : World) → length (all_due w) ≡ count_where (is_due (clock w)) w.db.sync_events
length-all_due w =
    length-count (λ e. e.created_at) (all_due w)
    ∙ count-all_due w (λ e. true)
    ∙ count-and_true (is_due (clock w)) w.db.sync_events

-- For every limit: the list has as many events as are due, at most the limit; these and the ones
-- left out are together exactly the due events, each as often as it is in the table, and in the order
-- of their creation, the oldest first. Nothing but the clock moves.
pub list_due_lem :
    (limit : ℕ) (w : World)
    → (taken : List SyncEventRow) × (left_out : List SyncEventRow) × (list_due_outbound_sync_events
          limit w
        ≡ (ok taken, ticked w))
      × (length taken ≡ min limit (count_where (is_due (clock w)) w.db.sync_events))
      × Sorted (λ e. e.created_at) (taken ++ left_out)
      × ((p : SyncEventRow → Bool)
          → count_where p (taken ++ left_out)
            ≡ count_where (λ e. is_due (clock w) e && p e) w.db.sync_events)
unfolding list_due_outbound_sync_events
list_due_lem limit w =
    let due = all_due w in
    let whole : take limit due ++ drop limit due ≡ due = take-append-drop limit due in
    (
      take limit due,
      drop limit due,
      refl,
      length-take limit due ∙ ap (min limit) (length-all_due w),
      subst (Sorted (λ e. e.created_at)) (sym whole)
          (order_by-Sorted (λ e. e.created_at) (select (is_due (clock w)) w.db.sync_events)),
      λ p. ap (count_where p) whole ∙ count-all_due w p,
    )
