-- ===== src/Hcm/Overlapping.antt =====
-- Two runs of the outbound worker that overlap: the second reads its events while the first waits
-- for the answer of the HCM (workers/outbound-sync.worker.ts).
use timeoff_request.Base.{ℕ, ◌≡◌, ◌∙◌, refl, ap, String, some, true, List, [], ◌∷◌, ◌++◌}
use timeoff_request.Base.Int.{◌+ℤ◌}
use timeoff_request.Base.Table.{find}
use timeoff_request.Domain.Errors.{Result, ok}
use timeoff_request.Store.Rows.{Balance, RequestRow, SyncEventRow, is_request, is_balance}
use timeoff_request.Store.World.{World}
use timeoff_request.Balances.Rows.{ticked}
use timeoff_request.Requests.Repository.{list_due_outbound_sync_events}
use timeoff_request.Hcm.Client
use timeoff_request.Hcm.Worker
use timeoff_request.Hcm.Overlap
use timeoff_request.Hcm.Overlap.{Flight, Run, waiting, finished, System, Turn}
use timeoff_request.Hcm.Twice.{
  is_final, status_after, given_back, counted, IsSettled, settle_lem, start_lem, resume_lem,
  consumption, send-sent, settle-sent,
}
use timeoff_request.Invariant.Overlap.{send-db}

-- both runs begin before either has its answer
abbrev pub overlapping : ℕ → ℕ → List Turn
overlapping limit limit' =
    Turn.starts limit ∷ Turn.starts limit' ∷ Turn.resumes 0 ∷ Turn.resumes 1 ∷ []

-- the only event that a run takes
abbrev pub Takes : ℕ → SyncEventRow → World → Type 0
Takes limit event w = list_due_outbound_sync_events limit w ≡ (ok (event ∷ []), ticked w)

abbrev pub first_send : SyncEventRow → Worker.OutboundPayload → World → Flight × World
first_send event payload w = Overlap.send event payload (ticked w)

abbrev pub second_send : SyncEventRow → Worker.OutboundPayload → World → Flight × World
second_send event payload w = Overlap.send event payload (ticked (first_send event payload w).1)

abbrev pub outcome : SyncEventRow → Worker.OutboundPayload → ℕ → ℕ → World → System
outcome event payload limit limit' w =
    Overlap.play (overlapping limit limit') (record { runs = []; world = w })

module _ (event : SyncEventRow) (payload : Worker.OutboundPayload) (limit limit' : ℕ) (w : World)
    (parsed : Worker.parse_payload event.payload_hash ≡ some payload) where
  abbrev flight_a : Flight
  flight_a = (first_send event payload w).0

  abbrev flight_b : Flight
  flight_b = (second_send event payload w).0

  abbrev asked : World
  asked = (second_send event payload w).1

  abbrev settled_a : World
  settled_a = (Overlap.settle flight_a asked).1

  abbrev settled_b : World
  settled_b = (Overlap.settle flight_b settled_a).1

  asked-db : asked.db ≡ w.db
  asked-db =
      send-db event payload (ticked (first_send event payload w).1)
      ∙ send-db event payload (ticked w)

  played :
      (m n : ℕ)
      → Takes limit event w
      → Takes limit' event (first_send event payload w).1
      → (Overlap.settle flight_a asked).0 ≡ ok m
      → (Overlap.settle flight_b settled_a).0 ≡ ok n
      → Overlap.play (overlapping limit limit') (record { runs = []; world = w })
        ≡ (record { runs = finished m ∷ finished n ∷ []; world = settled_b })
  unfolding Overlap.play Overlap.turn Overlap.resume_at
  played m n due due' sm sn = rw (start_lem event payload limit w parsed due) (
      rw (start_lem event payload limit' (first_send event payload w).1 parsed due')
        (rw (resume_lem flight_a m asked sm) (rw (resume_lem flight_b n settled_a sn) refl)))

  module _ (id : String) (row : RequestRow) (b : Balance) (names : event.request_id ≡ some id)
      (found : find (is_request id) w.db.requests ≡ some row)
      (stored : find (is_balance row.employee_id row.location_id) w.db.balances ≡ some b)
      (a a' : Result Unit) where
    after_first :
        flight_a.answer ≡ a
        → is_final event a ≡ true
        → ((Overlap.settle flight_a asked).0 ≡ ok (counted a)) × IsSettled id row b a settled_a.db
    unfolding Overlap.send
    after_first answer final =
        settle_lem id row b flight_a asked names (rw asked-db found) (rw asked-db stored) a answer
          final

    after_second :
        (s : IsSettled id row b a settled_a.db)
        → flight_b.answer ≡ a'
        → is_final event a' ≡ true
        → ((Overlap.settle flight_b settled_a).0 ≡ ok (counted a'))
          × IsSettled id s.row_now s.balance_now a' settled_b.db
    unfolding Overlap.send
    after_second s answer final =
        settle_lem id s.row_now s.balance_now flight_b settled_a names s.request_found
          (rw (s.employee_kept, s.location_kept) s.balance_found) a' answer final

  settled-sent :
      Client.is_remote w.hcm.base_url ≡ true
      → settled_b.env.sent ≡ (w.env.sent ++ consumption payload ∷ []) ++ consumption payload ∷ []
  settled-sent remote =
      let (one, same) = send-sent event payload (ticked w) remote in
      let (two, _) =
        send-sent event payload (ticked (first_send event payload w).1) (rw same remote) in
      settle-sent flight_b settled_a
      ∙ settle-sent flight_a asked
      ∙ two
      ∙ ap (λ l. l ++ consumption payload ∷ []) one

-- A second run of the worker begins while the first waits for the HCM. When the first reads its due
-- events within its limit, they are exactly one event, and when the second does, they are exactly the
-- same event, since nothing marks an event that is under way. Its payload can be read, its request
-- and the balance of that are stored, the HCM is remote, and each run is told that the days are taken
-- or meets a failure that is not tried again; the answer to the first run comes first, and nothing
-- else comes in between. Then both runs come to their end, the HCM was asked to take the days twice,
-- the request has the status of the second answer, SYNCED or REVERSED, and its days are given back
-- once for each of the two that failed.
pub overlapping_runs_lem :
    (event : SyncEventRow) (payload : Worker.OutboundPayload) (limit limit' : ℕ) (w : World)
    (id : String) (row : RequestRow) (b : Balance) (a a' : Result Unit)
    → Worker.parse_payload event.payload_hash ≡ some payload
    → event.request_id ≡ some id
    → find (is_request id) w.db.requests ≡ some row
    → find (is_balance row.employee_id row.location_id) w.db.balances ≡ some b
    → Client.is_remote w.hcm.base_url ≡ true
    → Takes limit event w
    → Takes limit' event (first_send event payload w).1
    → (first_send event payload w).0.answer ≡ a
    → (second_send event payload w).0.answer ≡ a'
    → is_final event a ≡ true
    → is_final event a' ≡ true
    → let s = Overlap.play (overlapping limit limit') (record { runs = []; world = w }) in
      (s.runs ≡ finished (counted a) ∷ finished (counted a') ∷ [])
      × (s.world.env.sent ≡ (w.env.sent ++ consumption payload ∷ []) ++ consumption payload ∷ [])
      × ((r : RequestRow) × (find (is_request id) s.world.db.requests ≡ some r)
          × (r.status ≡ status_after a'))
      × ((c : Balance) × (find (is_balance row.employee_id row.location_id) s.world.db.balances
            ≡ some c)
          × (c.available_days
              ≡ (b.available_days +ℤ given_back row.days a) +ℤ given_back row.days a'))
overlapping_runs_lem event payload limit limit' w id row b a a' parsed names found stored remote due
      due' answer answer' final final' =
    let (r, s) =
      after_first event payload limit limit' w parsed id row b names found stored a a' answer
        final in
    let (r', t) =
      after_second event payload limit limit' w parsed id row b names found stored a a' s answer'
        final' in
    rw (played event payload limit limit' w parsed (counted a) (counted a') due due' r r') (
      refl,
      settled-sent event payload limit limit' w parsed remote,
      (t.row_now, t.request_found, t.status_now),
      (
        t.balance_now,
        rw (← s.employee_kept, ← s.location_kept) t.balance_found,
        rw (← s.days_now, ← s.days_kept) t.days_now,
      ),
    )
