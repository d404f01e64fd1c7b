-- ===== src/Pipeline/Stored.antt =====
-- What the handler of internal/pipeline/handler.go leaves behind of an event.
use theme_park_nftengine.Prelude.{
  String, ◌≡◌, ◌≢◌, refl, Bool, true, false, Option, none, ◌⊎◌, inl, inr, eq_refl, arith,
  Option-cases,
}
use theme_park_nftengine.Models.{ScanEvent}
use theme_park_nftengine.Errors.{Error}
use theme_park_nftengine.Config.{RedisConfig}
use theme_park_nftengine.Keyspace.{Entry}
use theme_park_nftengine.Keyspace.Keys.{dedup}
use theme_park_nftengine.World.{State, Backend, call}
use theme_park_nftengine.World.Hoare.{
  Hoare, Hoare-bind, Hoare-call, Hoare-catch, Hoare-pure, Hoare-raise, Hoare-wrapping, Hoare-weaken,
  Hoare-consequence, Hoare-any,
}
use theme_park_nftengine.Redis.Commands.{get, set_nx}
use theme_park_nftengine.Redis.Client.{is_duplicate}
use theme_park_nftengine.Postgres.Scans.{
  names_scan, names_parked, insert_scan, insert_parked, insert_outbox,
}
use theme_park_nftengine.Pipeline.Handler.{
  handle, process, aggregate, park, compensated, unless_duplicate,
}
use theme_park_nftengine.Pipeline.Rows.{
  HasRow, Aggregated, HasParked, find_by-insert_new, add_ride-Aggregated,
}

-- Rows of the event's trace are there; a handler that has no outbox parks nothing.
abbrev pub Stored : Bool → ScanEvent → State → Type 0
Stored armed e s = HasRow e s × (Aggregated e s ⊎ (armed ≡ true) × HasParked e s)

park-Stored :
    (cfg : RedisConfig) (armed : Bool) (e : ScanEvent) (cause : Error)
    → Hoare (HasRow e) (park cfg armed e cause) (λ _. Stored armed e) (λ _ _. Unit {0})
unfolding park insert_outbox insert_parked
park-Stored cfg false e cause = Hoare-raise _ (λ _ _. tt)
park-Stored cfg true e cause = Hoare-wrapping {E = λ _. Unit {0}} _ _ (
    Hoare-wrapping {E = λ _. Unit {0}} _ _ (
      Hoare-call Backend.postgres _
        (λ s p. (
          p,
          inr (
            refl,
            find_by-insert_new (names_parked e.trace_id) _ s.tables.outbox (eq_refl e.trace_id),
          ),
        ))
        (λ _ _ _. tt) (λ _ _ _. tt)))

aggregate-Stored :
    (cfg : RedisConfig) (armed : Bool) (e : ScanEvent)
    → Hoare (HasRow e) (aggregate cfg armed e) (λ _. Stored armed e) (λ _ _. Unit {0})
unfolding aggregate
aggregate-Stored cfg armed e =
    Hoare-catch _ _ _ (add_ride-Aggregated cfg e) (λ _. Hoare-pure tt (λ s h. (h.0, inl h.1)))
      (λ cause. park-Stored cfg armed e cause)

insert-HasRow :
    (e : ScanEvent)
    → Hoare
        (λ _. Unit {0})
        (call Backend.postgres (insert_scan e))
        (λ _. HasRow e)
        (λ _ _. Unit {0})
unfolding insert_scan
insert-HasRow e =
    Hoare-call Backend.postgres _
      (λ s _.
        find_by-insert_new (names_scan e.trace_id) _ s.tables.scan_events (eq_refl e.trace_id))
      (λ _ _ _. tt) (λ _ _ _. tt)

process-Stored :
    (cfg : RedisConfig) (armed : Bool) (e : ScanEvent)
    → Hoare (λ _. Unit {0}) (process cfg armed e) (λ _. Stored armed e) (λ _ _. Unit {0})
unfolding process
process-Stored cfg armed e =
    Hoare-bind _ _ (Hoare-wrapping {E = λ _. Unit {0}} _ _ (insert-HasRow e))
      (λ _. aggregate-Stored cfg armed e)

compensated-Stored :
    (cfg : RedisConfig) (armed : Bool) (e : ScanEvent)
    → Hoare
        (λ _. Unit {0})
        (compensated cfg e (process cfg armed e))
        (λ _. Stored armed e)
        (λ _ _. Unit {0})
unfolding compensated
compensated-Stored cfg armed e =
    Hoare-catch _ _ _ (process-Stored cfg armed e) (λ _. Hoare-pure tt (λ s h. h))
      (λ cause. Hoare-bind _ _ (Hoare-any _) (λ _. Hoare-raise _ (λ _ _. tt)))

abbrev pub HasMarker : String → State → Type 0
HasMarker id s = get s (dedup id) ≢ none

-- A trace that passes for a duplicate had its marker.
is_duplicate-Marked :
    (cfg : RedisConfig) (id : String) (o : Option Entry)
    → Hoare
        (λ s. get s (dedup id) ≡ o)
        (is_duplicate cfg id)
        (λ dup s. dup ≡ true → (o ≢ none) × HasMarker id s)
        (λ _ _. Unit {0})
unfolding is_duplicate set_nx
is_duplicate-Marked cfg id o =
    Hoare-bind _ _
      (Hoare-wrapping {E = λ _. Unit {0}} _ _ (
        Hoare-call {Q = λ set s. set ≡ false → (o ≢ none) × HasMarker id s} Backend.redis _
          (λ s h. elim (Option-cases (get s (dedup id))) [
            | inl absent ↦ rw (absent, set_nx) (λ f. cc)
            | inr (e, present) ↦ rw (present, set_nx) (λ _. ((λ n. cc), (λ n. cc)))
          ])
          (λ _ _ _. tt) (λ _ _ _. tt)))
      (λ set. Hoare-pure _ (λ s h d. h (ground arith)))

pub handle-Hoare :
    (cfg : RedisConfig) (armed : Bool) (e : ScanEvent) (o : Option Entry)
    → Hoare
        (λ s. get s (dedup e.trace_id) ≡ o)
        (handle cfg armed e)
        (λ _ s. (o ≢ none) × HasMarker e.trace_id s ⊎ Stored armed e s)
        (λ _ _. Unit {0})
unfolding handle
handle-Hoare cfg armed e o = Hoare-bind _ _ (is_duplicate-Marked cfg e.trace_id o) after
  where
    after :
        (dup : Bool)
        → Hoare
            (λ s. dup ≡ true → (o ≢ none) × HasMarker e.trace_id s)
            (unless_duplicate cfg armed e dup)
            (λ _ s. (o ≢ none) × HasMarker e.trace_id s ⊎ Stored armed e s)
            (λ _ _. Unit {0})
    after true = Hoare-pure tt (λ s h. inl (h refl))
    after false =
        Hoare-consequence _ (Hoare-weaken _ (compensated-Stored cfg armed e) (λ s h. tt))
          (λ _ s h. inr h) (λ _ _ _. tt)
