-- ===== src/Pipeline/Faithful.antt =====
-- The rows of an event that internal/pipeline/handler.go writes, against those that were there before.
use theme_park_nftengine.Prelude.{
  ◌≡◌, refl, Bool, true, some, ◌⊎◌, inl, inr, List, arith, Option-cases, find_by, find_by-append,
  eq_refl,
}
use theme_park_nftengine.Models.{ScanEvent}
use theme_park_nftengine.Config.{RedisConfig}
use theme_park_nftengine.World.{State}
use theme_park_nftengine.World.Hoare.{Keeps}
use theme_park_nftengine.Postgres.Scans.{
  names_scan, names_parked, scan_row, insert_new, insert_scan, insert_parked,
}
use theme_park_nftengine.Pipeline.Handler.{handle}
use theme_park_nftengine.Pipeline.TopicsKept.{parked_row, handle-Kept}

-- The row of a name was there before, or is this one.
abbrev pub Written : {A : Type 0} → (A → Bool) → List A → A → List A → Type 0
Written {A} named before row rows =
    (r : A) → find_by named rows ≡ some r → (find_by named before ≡ some r) ⊎ (r ≡ row)

insert_new-Written :
    {A : Type 0} (named : A → Bool) (before : List A) (row : A) (rows : List A)
    → named row ≡ true
    → Written named before row rows
    → Written named before row (insert_new named row rows)
insert_new-Written named before row rows name h r e = elim (Option-cases (find_by named rows)) [
  | inr (x, present) ↦ h r (ground arith)
  | inl absent ↦ inr (ground (arith, find_by-append named rows row absent name))
]

-- The rows of the event are those of a first state, or the ones that the handler writes.
pub record IsFaithful (s₀ : State) (e : ScanEvent) (s : State) : Type 0 where
  pub same_users : s.tables.users ≡ s₀.tables.users
  pub scan :
      Written
        (names_scan e.trace_id)
        s₀.tables.scan_events
        (scan_row e s₀.tables.users)
        s.tables.scan_events
  pub parked : Written (names_parked e.trace_id) s₀.tables.outbox (parked_row e) s.tables.outbox

pub start-IsFaithful : (s : State) (e : ScanEvent) → IsFaithful s e s
start-IsFaithful s e = record { same_users = refl; scan = λ r h. inl h; parked = λ r h. inl h }

pub handle-IsFaithful :
    (s₀ : State) (cfg : RedisConfig) (armed : Bool) (e : ScanEvent)
    → Keeps (IsFaithful s₀ e) (handle cfg armed e)
unfolding insert_scan insert_parked
handle-IsFaithful s₀ cfg armed e =
    handle-Kept (IsFaithful s₀ e) e
      (λ s ks h. record { same_users = h.same_users; scan = h.scan; parked = h.parked })
      (λ s h. record {
        same_users = h.same_users;
        scan = rw h.same_users (
            insert_new-Written (names_scan e.trace_id) s₀.tables.scan_events
              (scan_row e s₀.tables.users) s.tables.scan_events (eq_refl e.trace_id) h.scan);
        parked = h.parked;
      })
      (λ s h. record {
        same_users = h.same_users;
        scan = h.scan;
        parked =
            insert_new-Written (names_parked e.trace_id) s₀.tables.outbox (parked_row e)
              s.tables.outbox (eq_refl e.trace_id) h.parked;
      })
      cfg armed
