-- ===== src/Accounts/Working.antt =====
-- A run of the outbound worker over what it owes (workers/outbound-sync.worker.ts): every account
-- stays, and it owes what is left.
use timeoff_request.Base.{
  ℕ, ◌+◌, ◌≤◌, ◌≡◌, ◌≢◌, ◌∙◌, refl, ap, sym, String, some, Bool, true, false, ◌==◌, eq_iff, ◌&&◌,
  List, [], ◌∷◌, arith, inl, inr, Bool-cases, take, and_elim,
}
use timeoff_request.Base.All.{All, All-find, All-map, All-take, All-order_by}
use timeoff_request.Base.Table.{
  find, select, update_where, count_where, count_where_pos, find-update_where,
}
use timeoff_request.Base.Sorting.{count-order_by, count-select}
use timeoff_request.Domain.Errors.{Result, ok, err}
use timeoff_request.Json.{json_eqb_sound, json_eqb_refl, json_eqb}
use timeoff_request.Store.Rows.{Db, SyncEventRow, SyncEventId, uuid, inbound_key}
use timeoff_request.Store.World.{World, Action, ◌>>=◌}
use timeoff_request.Balances.{event_id_eqb}
use timeoff_request.Balances.Rows.{clock}
use timeoff_request.Requests.Repository.{is_event, is_due, oldest_first, event_failed}
use timeoff_request.Hcm.Due.{all_due}
use timeoff_request.Hcm.Worker
use timeoff_request.Accounts.Effects.{Conserves, same-Conserves, Conserves-trans}
use timeoff_request.Accounts.Settling.{Settled, process_payload-Settled}
use timeoff_request.Accounts.Deliveries.{NamesHeld, AllApart, Settled-Conserves, some_inj}
use timeoff_request.Accounts.Tables.{count_where-take}
use timeoff_request.Accounts.Owed.{IsOwed, is_waiting, waits_for, Settled-IsOwed, All-both}

pub event_id_sound : (a b : SyncEventId) → event_id_eqb a b ≡ true → a ≡ b
event_id_sound (uuid s) (uuid t) h = ap uuid ((eq_iff s t).0 h)
event_id_sound (inbound_key s p) (inbound_key t q) h =
    let (key, same) = and_elim (s == t) (json_eqb p q) h in
    cc ((eq_iff s t).0 key, json_eqb_sound p q same)
event_id_sound _ _ h = absurd (cc)

event_id_refl : (a : SyncEventId) → event_id_eqb a a ≡ true
event_id_refl (uuid s) = (eq_iff s s).1 refl
event_id_refl (inbound_key s p) = ground (arith, eq_iff s s, json_eqb_refl p)

-- the row is the one of its key, and waits
pub record IsIn (d : Db) (event : SyncEventRow) : Type 0 where
  pub there : find (is_event event.id) d.sync_events ≡ some event
  pub waiting : is_waiting event ≡ true

later_found :
    (x r : SyncEventRow) (rows : List SyncEventRow)
    → ((id : SyncEventId) → count_where (is_event id) (x ∷ rows) ≤ 1)
    → find (is_event r.id) rows ≡ some r
    → find (is_event r.id) (x ∷ rows) ≡ some r
unfolding find count_where
later_found x r rows unique found =
    ground (arith, unique r.id, count_where_pos (is_event r.id) rows r found, found)

-- of rows with different keys, each is found by its own
own_rows :
    (rows : List SyncEventRow)
    → ((id : SyncEventId) → count_where (is_event id) rows ≤ 1)
    → All (λ r. find (is_event r.id) rows ≡ some r) rows
unfolding find count_where
own_rows [] unique = tt
own_rows (x ∷ rows) unique = (
  rw (event_id_refl x.id) refl,
  All-map (λ r. find (is_event r.id) rows ≡ some r) (λ r. find (is_event r.id) (x ∷ rows) ≡ some r)
      (λ r found. later_found x r rows unique found) rows
      (own_rows rows (λ id. omega (arith, unique id))),
)

other_row :
    (event r : SyncEventRow) (d : Db)
    → event.request_id ≢ r.request_id
    → find (is_event event.id) d.sync_events ≡ some event
    → IsIn d r
    → is_event event.id r ≡ false
other_row event r d apart there h = elim (Bool-cases (is_event event.id r)) [
  | inr other ↦ other
  | inl own ↦
      let key : r.id ≡ event.id = event_id_sound r.id event.id own in
      let same : event ≡ r =
        some_inj (sym there ∙ (ap (λ i. find (is_event i) d.sync_events) (sym key) ∙ h.there)) in
      absurd (apart (ap (λ x. x.request_id) same))
]

-- the update of one event leaves the rows that name other requests
IsIn-settled :
    (event r : SyncEventRow) (f : SyncEventRow → SyncEventRow) (d now : Db)
    → ((x : SyncEventRow) → (f x).id ≡ x.id)
    → now.sync_events ≡ update_where (is_event event.id) f d.sync_events
    → event.request_id ≢ r.request_id
    → find (is_event event.id) d.sync_events ≡ some event
    → IsIn d r
    → IsIn now r
IsIn-settled event r f d now key events apart there h = record {
  there = rw events (
      rw
        (
          find-update_where (is_event event.id) (is_event r.id) f d.sync_events
              (λ x. ap (λ i. event_id_eqb i r.id) (key x)),
          h.there,
        )
        (rw (other_row event r d apart there h) refl));
  waiting = h.waiting;
}

Settled-IsIn :
    (event r : SyncEventRow) (id : String) (d now : Db)
    → event.request_id ≢ r.request_id
    → find (is_event event.id) d.sync_events ≡ some event
    → Settled event id d now
    → IsIn d r
    → IsIn now r
Settled-IsIn event r id d now apart there (Settled.kept balances requests touched) h =
    IsIn-settled event r touched.f d now touched.key.same_id touched.events apart there h
Settled-IsIn event r id d now apart there (Settled.synced_at time balances requests touched) h =
    IsIn-settled event r touched.f d now touched.key.same_id touched.events apart there h
Settled-IsIn event r id d now apart there
      (Settled.reversed_at row time later t e found balances requests failed) h =
    IsIn-settled event r (event_failed t e) d now (λ x. refl) failed apart there h

-- accounts are kept, and what is left is owed
pub record Works (d now : Db) : Type 0 where
  pub conserved : Conserves d now
  pub still_owed : IsOwed now

continued-Works :
    {A B : Type 0} (d : Db) (r : Result A) (w : World) (f : A → Action B)
    → Works d w.db
    → ((a : A) → Works w.db (f a w).1.db)
    → Works d (((λ v. (r, w)) >>= f) w).1.db
continued-Works d (ok a) w f h k = record {
  conserved = Conserves-trans d w.db (f a w).1.db h.conserved (k a).conserved;
  still_owed = (k a).still_owed;
}
continued-Works d (err e) w f h k = h

pub events-Works :
    (due : List SyncEventRow) (n : ℕ) (w : World)
    → IsOwed w.db
    → AllApart due
    → All (IsIn w.db) due
    → Works w.db (Worker.process_events due n w).1.db
unfolding Worker.process_events Worker.process_event
events-Works [] n w owed apart there = record {
  conserved = same-Conserves w.db w.db owed.requests_unique refl refl;
  still_owed = owed;
}
events-Works (event ∷ due) n w owed apart there =
    let (r, w') = Worker.process_event event w in
    let held : NamesHeld w.db event =
      All-find (λ r. is_waiting r ≡ true → NamesHeld w.db r) (is_event event.id) w.db.sync_events
        event there.0.there owed.owed there.0.waiting in
    let settled : Settled event held.id w.db w'.db =
      process_payload-Settled event held.id held.names (Worker.parse_payload event.payload_hash)
        w in
    let works : Works w.db w'.db = record {
      conserved = Settled-Conserves event held.id w.db w'.db owed.requests_unique held.held settled;
      still_owed =
          Settled-IsOwed event held.id w.db w'.db held.names there.0.there there.0.waiting held.held
            owed settled;
    } in
    continued-Works w.db r w' (λ one. Worker.process_events due (n + one)) works
      (λ one. events-Works due (n + one) w' works.still_owed apart.1 (
        All-both (λ later. event.request_id ≢ later.request_id) (IsIn w.db) (IsIn w'.db) due
          (λ later other h.
            Settled-IsIn event later held.id w.db w'.db other there.0.there settled h)
          apart.0 there.1))

All-selected :
    (P Q : SyncEventRow → Type 0) (p : SyncEventRow → Bool) (rows : List SyncEventRow)
    → ((r : SyncEventRow) → p r ≡ true → P r → Q r)
    → All P rows
    → All Q (select p rows)
unfolding select
All-selected P Q p [] keep h = tt
All-selected P Q p (r ∷ rows) keep h = elim (Bool-cases (p r)) [
  | inl fits ↦ rw fits (keep r fits h.0, All-selected P Q p rows keep h.1)
  | inr skips ↦ rw skips (All-selected P Q p rows keep h.1)
]

count_where-and :
    (p q : SyncEventRow → Bool) (rows : List SyncEventRow)
    → count_where (λ r. p r && q r) rows ≤ count_where q rows
unfolding count_where
count_where-and p q [] = omega arith
count_where-and p q (r ∷ rows) = ground (arith, count_where-and p q rows)

pub waits_once :
    (limit : ℕ) (w : World) (j : String)
    → IsOwed w.db
    → count_where (waits_for j) (take limit (all_due w)) ≤ 1
waits_once limit w j owed = omega (
  arith,
  count_where-take (waits_for j) limit (all_due w),
  count-order_by (λ e. e.created_at) (waits_for j) oldest_first
      (select (is_due (clock w)) w.db.sync_events),
  count-select (λ e. e.created_at) (waits_for j) (is_due (clock w)) w.db.sync_events,
  count_where-and (is_due (clock w)) (waits_for j) w.db.sync_events,
  owed.once j,
)

due_waits : (t : ℕ) (r : SyncEventRow) → is_due t r ≡ true → is_waiting r ≡ true
due_waits t r h = ground (arith, h)

pub known_due :
    (limit : ℕ) (w : World)
    → IsOwed w.db
    → All (λ r. IsIn w.db r × NamesHeld w.db r) (take limit (all_due w))
known_due limit w owed =
    let K : SyncEventRow → Type 0 = λ r. IsIn w.db r × NamesHeld w.db r in
    let F : SyncEventRow → Type 0 = λ r.
      (find (is_event r.id) w.db.sync_events ≡ some r) × (is_waiting r ≡ true → NamesHeld w.db r) in
    All-take K limit (all_due w) (
      All-order_by K oldest_first (select (is_due (clock w)) w.db.sync_events) (
        All-selected F K (is_due (clock w)) w.db.sync_events
          (λ r due k. (
            record { there = k.0; waiting = due_waits (clock w) r due },
            k.1 (due_waits (clock w) r due),
          ))
          (All-both (λ r. find (is_event r.id) w.db.sync_events ≡ some r)
            (λ r. is_waiting r ≡ true → NamesHeld w.db r) F w.db.sync_events (λ r a b. (a, b))
            (own_rows w.db.sync_events owed.events_unique) owed.owed)))
