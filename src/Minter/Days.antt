-- ===== src/Minter/Days.antt =====
-- What a pass writes to the ledger of pending mints: internal/minter/resolver.go and internal/voucher/voucher.go.
use theme_park_nftengine.Prelude.{ℕ, String, ◌≡◌, Option, none, some, List, [], ◌∷◌}
use theme_park_nftengine.Models.{Participant, RecordPendingMintRequest}
use theme_park_nftengine.Errors.{Error}
use theme_park_nftengine.World.{State, World, M, Backend, ok}
use theme_park_nftengine.World.Hoare.{
  Keeps, Hoare, Hoare-bind, Hoare-call, Hoare-catch, Hoare-pure, Hoare-raise, Hoare-if,
  Hoare-wrapping, Hoare-any, Hoare-and, Hoare-consequence, Hoare-value, Hoare-weaken,
}
use theme_park_nftengine.Postgres.Mints.{put_pending, upsert_pending_mint}
use theme_park_nftengine.Postgres.Rides.{RideScan}
use theme_park_nftengine.Voucher.Service.{
  pending_of, record_for, record_pending_mint, resolve_mint_wallet,
}
use theme_park_nftengine.Minter.Resolver.{
  Outcome, pending, mint_ready, Resolution, pending_request, resolve_with, resolve_one,
  with_resolution, resolve_each, resolve_day,
}
use theme_park_nftengine.Minter.Ledger.{HasPending, Recorded, put_found, resolve_each-HasPending}

record_for-Recorded :
    (req : RecordPendingMintRequest) (o : Option Participant)
    → Hoare (λ _. Unit {0}) (record_for req o) (λ _. Recorded req) (λ _ _. Unit {0})
unfolding upsert_pending_mint put_pending
record_for-Recorded req none = Hoare-raise _ (λ _ _. tt)
record_for-Recorded req (some p) = Hoare-wrapping {E = λ _. Unit {0}} _ _ (
    Hoare-call Backend.postgres _ (λ s _. put_found (pending_of req p) s.tables.pending_mints)
      (λ _ _ _. tt) (λ _ _ _. tt))

pub record_pending_mint-Recorded :
    (req : RecordPendingMintRequest)
    → Hoare (λ _. Unit {0}) (record_pending_mint req) (λ _. Recorded req) (λ _ _. Unit {0})
unfolding record_pending_mint
record_pending_mint-Recorded req =
    Hoare-bind {R = λ _ _. Unit {0}} _ _ (Hoare-any _) (λ o. record_for-Recorded req o)

-- A pending resolution has its row.
abbrev pub IsLedgered : Outcome → Resolution → State → Type 0
IsLedgered pending r = HasPending r.participant_id r.mint_date
IsLedgered mint_ready r = λ _. Unit {0}

abbrev pub AllLedgered : List Resolution → State → Type 0
AllLedgered [] s = Unit {0}
AllLedgered (r ∷ rs) s = IsLedgered r.outcome r s × AllLedgered rs s

abbrev OptLedgered : Option Resolution → State → Type 0
OptLedgered none s = Unit {0}
OptLedgered (some r) s = IsLedgered r.outcome r s

resolve_with-Ledgered :
    (p : Participant) (date : String) (rides : List RideScan)
    → Hoare (λ _. Unit {0}) (resolve_with p date rides) OptLedgered (λ _ _. Unit {0})
resolve_with-Ledgered p date [] = Hoare-pure none (λ s h. h)
resolve_with-Ledgered p date (r ∷ rs) =
    Hoare-if (resolve_mint_wallet p).pending _ _
      (λ _.
        Hoare-bind _ _
          (Hoare-wrapping {E = λ _. Unit {0}} _ _
            (record_pending_mint-Recorded (pending_request p date (r ∷ rs))))
          (λ _. Hoare-pure _ (λ s (pm, found, _, _). (pm, found))))
      (λ _. Hoare-pure _ (λ s h. tt))

pub opt_kept :
    {A : Type 0} (o : Option Resolution) (m : M A)
    → ((pid : ℕ) (date : String) → Keeps (HasPending pid date) m)
    → Keeps (OptLedgered o) m
opt_kept none m h = record { at = λ w p. p }
opt_kept (some r) m h = by_outcome r.outcome
  where
    by_outcome : (outcome : Outcome) → Keeps (IsLedgered outcome r) m
    by_outcome pending = h r.participant_id r.mint_date
    by_outcome mint_ready = record { at = λ w p. p }

joined :
    (o : Option Resolution) (rs : List Resolution) (s : State)
    → OptLedgered o s
    → AllLedgered rs s
    → AllLedgered (with_resolution o rs) s
joined none rs s h hs = hs
joined (some r) rs s h hs = (h, hs)

resolve_each-Ledgered :
    (date : String) (ps : List Participant)
    → Hoare (λ _. Unit {0}) (resolve_each date ps) (λ res. AllLedgered res.0) (λ _ _. Unit {0})
unfolding resolve_each resolve_one
resolve_each-Ledgered date [] = Hoare-pure _ (λ s h. tt)
resolve_each-Ledgered date (p ∷ ps) =
    Hoare-catch {F = λ _ _. Unit {0}} _ _ _
      (Hoare-bind {R = λ _ _. Unit {0}} _ _ (Hoare-any _)
        (λ rides. resolve_with-Ledgered p date rides))
      (λ o.
        Hoare-bind _ _
          (Hoare-consequence _
            (Hoare-weaken _
              (Hoare-and _ (opt_kept o _ (λ pid d. resolve_each-HasPending pid d date ps))
                (resolve_each-Ledgered date ps))
              (λ s h. (h, tt)))
            (λ _ _ h. h) (λ _ _ _. tt))
          (λ rest. Hoare-pure _ (λ s h. joined o rest.0 s h.0 h.1)))
      (λ e. Hoare-pure _ (λ s h. tt))

pub resolve_day-Ledgered :
    (date : String)
    → Hoare (λ _. Unit {0}) (resolve_day date) (λ res. AllLedgered res.0) (λ _ _. Unit {0})
unfolding resolve_day
resolve_day-Ledgered date =
    Hoare-bind {R = λ _ _. Unit {0}} _ _ (Hoare-any _) (λ ps. resolve_each-Ledgered date ps)

-- A pending mint that was recorded is read back with its rides and times, whatever row of the
-- participant and the date was there before.
record_pending_mint_lem :
    (req : RecordPendingMintRequest) (w : World)
    → (record_pending_mint req w).0 ≡ ok tt
    → Recorded req (record_pending_mint req w).1.st
record_pending_mint_lem req w done = Hoare-value _ (record_pending_mint-Recorded req) w tt tt done

-- Every resolution that a day's pass reports as pending, even of a pass that an error ended, has a row of
-- its participant and date in the ledger, whatever calls fail before or after their effect.
pub resolve_day_ledgers :
    (date : String) (w : World) (rs : List Resolution) (failure : Option Error)
    → (resolve_day date w).0 ≡ ok (rs, failure)
    → AllLedgered rs (resolve_day date w).1.st
resolve_day_ledgers date w rs failure done =
    Hoare-value _ (resolve_day-Ledgered date) w (rs, failure) tt done
