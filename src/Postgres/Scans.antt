-- ===== src/Postgres/Scans.antt =====
-- The statements on `scan_events` and `scan_events_outbox`: internal/pipeline/handler.go and
-- internal/postgres/repository.go.
use theme_park_nftengine.Prelude.{
  ℕ, ◌+◌, String, Bool, Option, none, some, List, [], ◌∷◌, ◌++◌, str_eq, find_by, update_where,
  delete_where, take,
}
use theme_park_nftengine.Models.{ScanEvent, ScanRecord, OutboxRow, User}
use theme_park_nftengine.World.{State, Result, ok, M, Backend, call, wrapping}

abbrev pub names_scan : String → ScanRecord → Bool
names_scan trace_id r = str_eq r.trace_id trace_id

abbrev pub names_parked : String → OutboxRow → Bool
names_parked trace_id r = str_eq r.trace_id trace_id

abbrev user_id_of : String → List User → Option ℕ
user_id_of email users = elim (find_by (λ (u : User). str_eq u.email email) users) [
  | none ↦ none
  | some u ↦ some u.id
]

abbrev pub scan_row : ScanEvent → List User → ScanRecord
scan_row e users = record {
  trace_id = e.trace_id;
  user_id = user_id_of e.user_id users;
  ticket_id = e.ticket_id;
  ride_id = e.ride_id;
  scanned_at = e.timestamp;
}

-- A row at the end of a table, unless a row of that name is there.
abbrev pub insert_new {ℓ} : {A : Type ℓ} → (A → Bool) → A → List A → List A
insert_new named row rows = elim (find_by named rows) [ none ↦ rows ++ row ∷ [] | some _ ↦ rows ]

-- INSERT INTO scan_events … ON CONFLICT (trace_id) DO NOTHING.
unfoldable pub insert_scan : ScanEvent → State → Result (Unit {0}) × State
insert_scan e s = (
  ok tt,
  record s {
    tables = record s.tables {
      scan_events =
          insert_new (names_scan e.trace_id) (scan_row e s.tables.users) s.tables.scan_events;
    };
  },
)

abbrev pub with_outbox : State → List OutboxRow → State
with_outbox s rows = record s { tables = record s.tables { outbox = rows } }

-- INSERT INTO scan_events_outbox … ON CONFLICT (trace_id) DO NOTHING.
unfoldable pub insert_parked : OutboxRow → State → Result (Unit {0}) × State
insert_parked row s =
    (ok tt, with_outbox s (insert_new (names_parked row.trace_id) row s.tables.outbox))

unfoldable pub insert_outbox : String → String → String → ℕ → M (Unit {0})
insert_outbox trace_id user_email ride_id scanned_at = wrapping "insert outbox" (
    call Backend.postgres (
      insert_parked (record {
        trace_id = trace_id;
        user_email = user_email;
        ride_id = ride_id;
        scanned_at = scanned_at;
        attempts = 0;
      })))

-- The oldest rows; every row of the table is PENDING, since no statement writes another status.
unfoldable pub list_pending_outbox : ℕ → M (List OutboxRow)
list_pending_outbox limit =
    wrapping "list pending outbox"
      (call Backend.postgres (λ s. (ok (take limit s.tables.outbox), s)))

unfoldable pub bump_outbox_attempts : String → M (Unit {0})
bump_outbox_attempts trace_id = wrapping "bump outbox attempts" (
    call Backend.postgres λ s. (
      ok tt,
      with_outbox s (
          update_where (names_parked trace_id) (λ r. record r { attempts = r.attempts + 1 })
            s.tables.outbox),
    ))

unfoldable pub delete_outbox : String → M (Unit {0})
delete_outbox trace_id = wrapping "delete outbox" (
    call Backend.postgres
      λ s. (ok tt, with_outbox s (delete_where (names_parked trace_id) s.tables.outbox)))
