-- ===== src/Postgres/Rides.antt =====
-- internal/minter/pg_ride_source.go: the rides of a participant on a date, from `scan_events`.
use theme_park_nftengine.Prelude.{
  ℕ, String, Bool, false, none, some, List, [], ◌∷◌, ◌==◌, ◌&&◌, leb, str_eq, if◌then◌else◌,
}
use theme_park_nftengine.Models.{User, TicketVoucher, Participant, ScanRecord}
use theme_park_nftengine.Calendar.{date_of}
use theme_park_nftengine.World.{State, ok, M, Backend, call, wrapping}
use theme_park_nftengine.Postgres.Accounts.{has_row}

-- A row of the result: a ride, and the time of the scan.
pub record RideScan : Type 0 where
  pub ride_id : String
  pub scanned_at : ℕ

abbrev pub same_row : RideScan → RideScan → Bool
same_row a b = str_eq a.ride_id b.ride_id && a.scanned_at == b.scanned_at

abbrev has_same : RideScan → List RideScan → Bool
has_same r rows = has_row (same_row r) rows

-- SELECT ride_id, scanned_at … WHERE … AND scanned_at::date = $2::date. The date is a text YYYY-MM-DD: the
-- other spellings that the cast accepts, and the error for a text that is no date, are left out.
unfoldable pub selected : (ScanRecord → Bool) → String → List ScanRecord → List RideScan
selected joined date [] = []
selected joined date (r ∷ rs) =
    let rest = selected joined date rs in
    if joined r && str_eq (date_of r.scanned_at) date
    then record { ride_id = r.ride_id; scanned_at = r.scanned_at } ∷ rest
    else rest

-- DISTINCT.
unfoldable pub distinct : List RideScan → List RideScan
distinct [] = []
distinct (r ∷ rs) = let rest = distinct rs in if has_same r rest then rest else r ∷ rest

unfoldable pub placed : RideScan → List RideScan → List RideScan
placed r [] = r ∷ []
placed r (x ∷ xs) =
    let rest = placed r xs in if leb r.scanned_at x.scanned_at then r ∷ (x ∷ xs) else x ∷ rest

-- ORDER BY scanned_at.
unfoldable pub in_order : List RideScan → List RideScan
in_order [] = []
in_order (r ∷ rs) = placed r (in_order rs)

-- JOIN users u ON u.id = se.user_id … WHERE u.email = …
abbrev pub joins_user : List User → String → ScanRecord → Bool
joins_user users email r = elim r.user_id [
  | none ↦ false
  | some id ↦ has_row (λ (u : User). u.id == id && str_eq u.email email) users
]

-- JOIN ticket_vouchers tv ON tv.voucher_id = se.ticket_id AND tv.participant_id = …
abbrev pub joins_voucher : List TicketVoucher → ℕ → ScanRecord → Bool
joins_voucher vs participant_id r =
    has_row
      (λ (v : TicketVoucher).
        str_eq v.voucher_id r.ticket_id
        && elim v.participant_id [ none ↦ false | some p ↦ p == participant_id ])
      vs

abbrev pub rides_where : (State → ScanRecord → Bool) → String → State → List RideScan
rides_where joined date s = in_order (distinct (selected (joined s) date s.tables.scan_events))

unfoldable pub by_email : String → String → M (List RideScan)
by_email email date =
    wrapping "query scan_events by email" (
      call Backend.postgres
        λ s. (ok (rides_where (λ s. joins_user s.tables.users email) date s), s))

unfoldable pub by_participant_id : ℕ → String → M (List RideScan)
by_participant_id id date = wrapping "query scan_events by participant" (
    call Backend.postgres
      λ s. (ok (rides_where (λ s. joins_voucher s.tables.ticket_vouchers id) date s), s))

unfoldable pub rides_for_participant : Participant → String → M (List RideScan)
rides_for_participant p date = elim p.account_email [
  | none ↦ by_participant_id p.id date
  | some email ↦ if str_eq email "" then by_participant_id p.id date else by_email email date
]
