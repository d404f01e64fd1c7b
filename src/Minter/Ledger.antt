-- ===== src/Minter/Ledger.antt =====
-- The ledger of pending mints: internal/minter/resolver.go and internal/voucher/voucher.go.
use theme_park_nftengine.Prelude.{
  ℕ, String, ◌≡◌, refl, Bool, Option, some, List, [], ◌∷◌, arith, Option-cases, inl, inr, find_by,
  eq_refl, find_by-append, find_by-append_found, find_by-update_where, find_by-update_other,
}
use theme_park_nftengine.Models.{PendingMint, Participant, RecordPendingMintRequest}
use theme_park_nftengine.World.{State}
use theme_park_nftengine.World.Hoare.{Keeps}
use theme_park_nftengine.Postgres.Mints.{names_pending, upsert, replaced, put_pending}
use theme_park_nftengine.Minter.Resolver.{resolve_each}
use theme_park_nftengine.Minter.Passes.{resolve_each-Kept}

abbrev pub row_of : ℕ → String → State → Option PendingMint
row_of pid date s = find_by (names_pending pid date) s.tables.pending_mints

-- The ledger has a row of a participant and a date.
abbrev pub HasPending : ℕ → String → State → Type 0
HasPending pid date s = (pm : PendingMint) × (row_of pid date s ≡ some pm)

-- The row of a request holds its rides and times.
abbrev pub Recorded : RecordPendingMintRequest → State → Type 0
Recorded req s =
    (pm : PendingMint) × (row_of req.participant_id req.mint_date s ≡ some pm)
    × (pm.ride_ids ≡ req.ride_ids)
    × (pm.scanned_ats ≡ req.scanned_ats)

abbrev pub named : PendingMint → PendingMint → Bool
named pm = names_pending pm.participant_id pm.mint_date

pub put_found :
    (pm : PendingMint) (rows : List PendingMint)
    → (x : PendingMint) × (find_by (named pm) (upsert (named pm) (replaced pm) pm rows) ≡ some x)
      × (x.ride_ids ≡ pm.ride_ids)
      × (x.scanned_ats ≡ pm.scanned_ats)
put_found pm rows = elim (Option-cases (find_by (named pm) rows)) [
  | inl absent ↦ (
    pm,
    rw (absent, upsert)
        (find_by-append (named pm) rows pm absent (ground (arith, eq_refl pm.mint_date))),
    refl,
    refl,
  )
  | inr (old, present) ↦ (
    replaced pm old,
    rw (present, upsert)
        (rw (find_by-update_where (named pm) (replaced pm) rows (λ _. refl), present) refl),
    refl,
    refl,
  )
]

put_kept :
    (p : PendingMint → Bool) (pm : PendingMint) (rows : List PendingMint) (a : PendingMint)
    → ((x : PendingMint) → p (replaced pm x) ≡ p x)
    → find_by p rows ≡ some a
    → (x : PendingMint) × (find_by p (upsert (named pm) (replaced pm) pm rows) ≡ some x)
put_kept p pm rows a same h = elim (Option-cases (find_by (named pm) rows)) [
  | inl absent ↦ (a, rw (absent, upsert) (find_by-append_found p rows (pm ∷ []) a h))
  | inr (old, present) ↦
      let (x, found) = find_by-update_other p (named pm) (replaced pm) rows a same h in
      (x, rw (present, upsert) found)
]

pub put-HasPending :
    (pid : ℕ) (date : String) (pm : PendingMint) (s : State)
    → HasPending pid date s
    → HasPending pid date (put_pending pm s).1
unfolding put_pending
put-HasPending pid date pm s (a, h) =
    put_kept (names_pending pid date) pm s.tables.pending_mints a (λ _. refl) h

pub resolve_each-HasPending :
    (pid : ℕ) (date d : String) (ps : List Participant)
    → Keeps (HasPending pid date) (resolve_each d ps)
resolve_each-HasPending pid date d ps =
    resolve_each-Kept (HasPending pid date) (put-HasPending pid date) d ps
