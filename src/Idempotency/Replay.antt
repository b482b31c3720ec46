-- ===== src/Idempotency/Replay.antt =====
-- What the interceptor (idempotency.interceptor.ts) does with a key that it has seen, and with one
-- that it has not.
use timeoff_request.Base.{
  ℕ, suc, ◌+◌, ◌*◌, ◌≤◌, ◌≡◌, ◌∙◌, refl, ap, String, Option, none, some, Bool, true, false, not,
  ◌==◌, List, [], ◌∷◌, arith, eq_refl,
}
use timeoff_request.Base.Table.{find, select, find-append}
use timeoff_request.Json.{Json, json_eqb, json_eqb_refl}
use timeoff_request.Domain.Errors.{Error, ok, err, domain, idempotency_key_conflict}
use timeoff_request.Store.Rows.{IdempotencyRow}
use timeoff_request.Store.World.{World, Action}
use timeoff_request.Balances.Rows.{ticked, clock}
use timeoff_request.Idempotency.Service.{
  idempotency_ttl_sec, HttpRequest, is_record, is_alive, get, replace_record, set, fingerprint_of,
  run_and_store, replay_or_run, intercept,
}

-- the world after `cleanupExpired`
abbrev pub cleaned : World → World
cleaned w = record (ticked w) {
  db = record w.db { idempotency = select (is_alive (clock w)) w.db.idempotency };
}

-- the record of a key that has not expired
abbrev pub live_record : String → World → Option IdempotencyRow
live_record key w = find (is_record key) (cleaned w).db.idempotency

-- a POST request with a key
abbrev pub IsGuarded : HttpRequest → Type 0
IsGuarded request = ((request.method == "POST") ≡ true) × ((request.idempotency_key == "") ≡ false)

intercept_lem :
    (request : HttpRequest) (status_code : ℕ) (handler : Action Json) (w : World)
    → IsGuarded request
    → intercept request status_code handler w
      ≡ replay_or_run request status_code handler
          (live_record request.idempotency_key w)
          (cleaned w)
unfolding intercept get
intercept_lem request status_code handler w guarded = ground (arith, guarded)

find-select :
    (p q : IdempotencyRow → Bool) (rows : List IdempotencyRow) (r : IdempotencyRow)
    → find p rows ≡ some r
    → q r ≡ true
    → find p (select q rows) ≡ some r
unfolding find select
find-select p q [] r h alive = h
find-select p q (x ∷ rows) r h alive = ground (arith, find-select p q rows r)

select_keeps_none :
    (p q : IdempotencyRow → Bool) (rows : List IdempotencyRow)
    → find p rows ≡ none
    → find p (select q rows) ≡ none
unfolding find select
select_keeps_none p q [] h = refl
select_keeps_none p q (x ∷ rows) h = ground (arith, select_keeps_none p q rows)

find-select-not :
    (p : IdempotencyRow → Bool) (rows : List IdempotencyRow)
    → find p (select (λ r. not (p r)) rows) ≡ none
unfolding find select
find-select-not p [] = refl
find-select-not p (x ∷ rows) = ground (arith, find-select-not p rows)

find-replace_record :
    (r : IdempotencyRow) (rows : List IdempotencyRow)
    → find (is_record r.key) (replace_record r rows) ≡ some r
unfolding replace_record
find-replace_record r rows = ground (
  arith,
  find-append (is_record r.key) (select (λ s. not (is_record r.key s)) rows) r,
  find-select-not (is_record r.key) rows,
  eq_refl r.key,
)

-- the record that a success leaves, in the world that the handler left
abbrev pub kept_record : HttpRequest → ℕ → Json → World → IdempotencyRow
kept_record request status_code body w = record {
  key = request.idempotency_key;
  fingerprint = fingerprint_of request;
  response_body = body;
  status_code = status_code;
  created_at = clock w;
  expires_at = w.env.times (w.env.time_reads + 1) + idempotency_ttl_sec * 1000;
}

module _ (request : HttpRequest) (status_code : ℕ) (handler : Action Json) (w : World)
    (guarded : IsGuarded request) (new : live_record request.idempotency_key w ≡ none) where
  first_run :
      intercept request status_code handler w
      ≡ run_and_store request status_code handler (cleaned w)
  unfolding replay_or_run
  first_run = rw (intercept_lem request status_code handler w guarded) (rw new)

  success_is_kept :
      (body : Json) (v : World)
      → handler (cleaned w) ≡ (ok body, v)
      → let (r, w') = intercept request status_code handler w in
        (r ≡ ok body)
        × (find (is_record request.idempotency_key) w'.db.idempotency
            ≡ some (kept_record request status_code body v))
  unfolding run_and_store set
  success_is_kept body v run = (
    ground (arith, first_run, run),
    ground (
      arith,
      first_run,
      run,
      find-replace_record (kept_record request status_code body v) v.db.idempotency,
    ),
  )

-- A POST request with a key that has no unexpired record runs its handler. If the handler returns,
-- its body is returned and kept: in every world in which the key has the record that this call left,
-- whatever other keys have, and the record has not expired, the same request again returns the same
-- body, whatever its handler, and a POST request of that key with another fingerprint is refused with
-- IDEMPOTENCY_KEY_CONFLICT; neither runs its handler.
pub repeat_is_replayed :
    (request other : HttpRequest) (status_code : ℕ) (handler again : Action Json) (w v w₂ : World)
    (body : Json)
    → IsGuarded request
    → live_record request.idempotency_key w ≡ none
    → handler (cleaned w) ≡ (ok body, v)
    → find (is_record request.idempotency_key) w₂.db.idempotency
      ≡ find
          (is_record request.idempotency_key)
          (intercept request status_code handler w).1.db.idempotency
    → suc (clock w₂) ≤ v.env.times (v.env.time_reads + 1) + idempotency_ttl_sec * 1000
    → IsGuarded other
    → other.idempotency_key ≡ request.idempotency_key
    → json_eqb (fingerprint_of request) (fingerprint_of other) ≡ false
    → ((intercept request status_code handler w).0 ≡ ok body)
      × (intercept request status_code again w₂ ≡ (ok body, cleaned w₂))
      × (intercept other status_code again w₂ ≡ (err (domain idempotency_key_conflict), cleaned w₂))
unfolding replay_or_run
repeat_is_replayed request other status_code handler again w v w₂ body guarded new run later soon
      guarded_other same_key differs =
    let (first, kept) = success_is_kept request status_code handler w guarded new body v run in
    let r = kept_record request status_code body v in
    let live : live_record request.idempotency_key w₂ ≡ some r =
      find-select (is_record request.idempotency_key) (is_alive (clock w₂)) w₂.db.idempotency r
        (later ∙ kept) (ground arith) in
    (
      first,
      rw (intercept_lem request status_code again w₂ guarded)
          (rw live (rw (json_eqb_refl (fingerprint_of request)) refl)),
      rw (intercept_lem other status_code again w₂ guarded_other)
          (rw same_key (rw live (rw differs refl))),
    )

-- A POST request with a key that has no unexpired record, whose handler throws: the interceptor
-- throws the same and leaves the world that the handler left. If the handler has made no record of
-- the key, then in every world in which the key has what this call left, whatever other keys have,
-- the request that is tried again runs its handler again.
pub failure_is_not_kept :
    (request : HttpRequest) (status_code : ℕ) (handler again : Action Json) (w v w₂ : World)
    (e : Error)
    → IsGuarded request
    → live_record request.idempotency_key w ≡ none
    → handler (cleaned w) ≡ (err e, v)
    → find (is_record request.idempotency_key) v.db.idempotency ≡ none
    → find (is_record request.idempotency_key) w₂.db.idempotency
      ≡ find
          (is_record request.idempotency_key)
          (intercept request status_code handler w).1.db.idempotency
    → (intercept request status_code handler w ≡ (err e, v))
      × (intercept request status_code again w₂
          ≡ run_and_store request status_code again (cleaned w₂))
unfolding run_and_store
failure_is_not_kept request status_code handler again w v w₂ e guarded new run untouched later =
    let failed : intercept request status_code handler w ≡ (err e, v) =
      ground (arith, first_run request status_code handler w guarded new, run) in
    let left = ap (λ r. find (is_record request.idempotency_key) r.1.db.idempotency) failed in
    (
      failed,
      first_run request status_code again w₂ guarded (
          select_keeps_none (is_record request.idempotency_key) (is_alive (clock w₂))
            w₂.db.idempotency (later ∙ (left ∙ untouched))),
    )
