-- ===== src/Postgres/Mints.antt =====
-- The statements on `ticket_vouchers`, `pending_mints` and `mint_logs`:
-- internal/postgres/repository.go, under the constraints of migrations/.
use Prim.Native.String.{◌++◌ as str_append}
use theme_park_nftengine.Prelude.{
  ℕ, zero, suc, ◌+◌, String, Bool, true, false, Option, none, some, List, [], ◌∷◌, ◌++◌, ◌==◌, ◌&&◌,
  str_eq, if◌then◌else◌, find_by, update_where,
}
use theme_park_nftengine.Models.{
  TicketVoucher, TicketStatus, unclaimed, claimed, PendingMint, MintLog, confirmed,
}
use theme_park_nftengine.Errors.{Error, driver, message, wrap, already_allocated}
use theme_park_nftengine.Text.{itoa}
use theme_park_nftengine.World.{
  State, Result, ok, err, M, Backend, call, pure, raise, catch, wrapping, ◌>>=◌,
}
use theme_park_nftengine.Postgres.Accounts.{has_row, owner_user_id_for_participant}

abbrev pub names_voucher : String → TicketVoucher → Bool
names_voucher voucher_id v = str_eq v.voucher_id voucher_id

abbrev pub with_vouchers : State → List TicketVoucher → State
with_vouchers s vs = record s { tables = record s.tables { ticket_vouchers = vs } }

-- `fmt.Sprintf("voucher-%d-%d", purchaserID, i)`.
unfoldable pub voucher_name : ℕ → ℕ → String
voucher_name purchaser_id i =
    str_append "voucher-" (str_append (itoa purchaser_id) (str_append "-" (itoa i)))

abbrev pub new_voucher : String → ℕ → TicketVoucher
new_voucher voucher_id purchaser_id = record {
  voucher_id = voucher_id;
  purchaser_id = purchaser_id;
  owner_id = none;
  participant_id = none;
  status = unclaimed;
}

-- INSERT INTO ticket_vouchers …: the id of a voucher is unique.
unfoldable pub insert_voucher : String → ℕ → State → Result (Unit {0}) × State
insert_voucher voucher_id purchaser_id s =
    if has_row (names_voucher voucher_id) s.tables.ticket_vouchers
    then (err (driver "duplicate key value violates unique constraint"), s)
    else (
      ok tt,
      with_vouchers s (s.tables.ticket_vouchers ++ new_voucher voucher_id purchaser_id ∷ []),
    )

-- The ids created from index `i` on, and the error that ended the loop, if one did.
unfoldable pub create_from : ℕ → ℕ → ℕ → M (List String × Option Error)
create_from purchaser_id i zero = pure ([], none)
create_from purchaser_id i (suc left) =
    let vid = voucher_name purchaser_id i in
    catch (call Backend.postgres (insert_voucher vid purchaser_id))
      (λ _. do rest ← create_from purchaser_id (i + 1) left; pure (vid ∷ rest.0, rest.1))
      (λ e. pure ([], some (wrap (str_append "create voucher " vid) e)))

unfoldable pub create_vouchers : ℕ → ℕ → M (List String × Option Error)
create_vouchers purchaser_id quantity = create_from purchaser_id 0 quantity

abbrev pub is_unclaimed : TicketStatus → Bool
is_unclaimed unclaimed = true
is_unclaimed _ = false

abbrev pub is_claimable : String → TicketVoucher → Bool
is_claimable voucher_id v = names_voucher voucher_id v && is_unclaimed v.status

-- UPDATE … AND status='UNCLAIMED': false where no row was affected.
unfoldable pub update_vouchers :
    (TicketVoucher → Bool) → (TicketVoucher → TicketVoucher) → State → Result Bool × State
update_vouchers where_ change s = (
  ok (has_row where_ s.tables.ticket_vouchers),
  with_vouchers s (update_where where_ change s.tables.ticket_vouchers),
)

-- `if n == 0 { return … }`.
abbrev pub require_affected : Error → Bool → M (Unit {0})
require_affected e affected = if affected then pure tt else raise e

unfoldable pub claim_voucher : String → ℕ → M (Unit {0})
claim_voucher voucher_id owner_id =
    call Backend.postgres (
      update_vouchers (is_claimable voucher_id)
        (λ v. record v { owner_id = some owner_id; status = claimed }))
    >>= require_affected
        (message (str_append "voucher " (str_append voucher_id " not found or already claimed")))

abbrev is_unassigned : Option ℕ → Bool
is_unassigned none = true
is_unassigned (some _) = false

-- `status='UNCLAIMED' AND participant_id IS NULL`.
abbrev pub is_open : String → TicketVoucher → Bool
is_open voucher_id v =
    names_voucher voucher_id v && (is_unclaimed v.status && is_unassigned v.participant_id)

abbrev pub given_to : ℕ → TicketVoucher → TicketVoucher
given_to participant_id v = record v { participant_id = some participant_id }

unfoldable pub delegate_voucher : String → ℕ → M (Unit {0})
delegate_voucher voucher_id participant_id =
    wrapping "delegate voucher"
      (call Backend.postgres (update_vouchers (is_open voucher_id) (given_to participant_id)))
    >>= require_affected (wrap (str_append "voucher " voucher_id) already_allocated)

abbrev pub names_pending : ℕ → String → PendingMint → Bool
names_pending participant_id mint_date pm =
    pm.participant_id == participant_id && str_eq pm.mint_date mint_date

-- A row at the end of a table, or in place of the row of its name.
abbrev pub upsert {ℓ} : {A : Type ℓ} → (A → Bool) → (A → A) → A → List A → List A
upsert named change row rows = elim (find_by named rows) [
  | none ↦ rows ++ row ∷ []
  | some _ ↦ update_where named change rows
]

abbrev pub replaced : PendingMint → PendingMint → PendingMint
replaced pm old = record old {
  ride_ids = pm.ride_ids;
  scanned_ats = pm.scanned_ats;
  wallet_state = pm.wallet_state;
}

unfoldable pub put_pending : PendingMint → State → Result (Unit {0}) × State
put_pending pm s = (
  ok tt,
  record s {
    tables = record s.tables {
      pending_mints =
          upsert (names_pending pm.participant_id pm.mint_date) (replaced pm) pm
            s.tables.pending_mints;
    };
  },
)

unfoldable pub upsert_pending_mint : PendingMint → M (Unit {0})
upsert_pending_mint pm = wrapping "upsert pending mint" (call Backend.postgres (put_pending pm))

unfoldable pub get_pending_mint : ℕ → String → M (Option PendingMint)
get_pending_mint participant_id mint_date = wrapping "get pending mint" (
    call Backend.postgres
      λ s. (ok (find_by (names_pending participant_id mint_date) s.tables.pending_mints), s))

abbrev pub names_log : ℕ → String → String → MintLog → Bool
names_log user_id ride_id mint_date l =
    l.user_id == user_id && (str_eq l.ride_id ride_id && str_eq l.mint_date mint_date)

abbrev pub mint_log : ℕ → Option ℕ → String → String → String → ℕ → MintLog
mint_log user_id participant_id ride_id date digest gas = record {
  user_id = user_id;
  participant_id = participant_id;
  ride_id = ride_id;
  mint_date = date;
  tx_digest = digest;
  status = confirmed;
  gas_used = gas;
}

-- INSERT INTO mint_logs … ON CONFLICT (user_id, ride_id, mint_date) DO UPDATE.
unfoldable pub put_log : MintLog → State → Result (Unit {0}) × State
put_log row s = (
  ok tt,
  record s {
    tables = record s.tables {
      mint_logs =
          upsert (names_log row.user_id row.ride_id row.mint_date)
            (λ l. record l {
              tx_digest = row.tx_digest;
              status = confirmed;
              gas_used = row.gas_used;
            })
            row s.tables.mint_logs;
    };
  },
)

unfoldable pub record_mint : ℕ → Option ℕ → String → String → String → ℕ → M (Unit {0})
record_mint user_id participant_id ride_id date digest gas =
    call Backend.postgres (put_log (mint_log user_id participant_id ride_id date digest gas))

abbrev pub record_for_owner : ℕ → String → String → String → ℕ → M (Unit {0})
record_for_owner participant_id ride_id date digest owner =
    if owner == 0
    then raise (
        message
          (str_append "record mint: no owning account user for participant " (itoa participant_id)))
    else record_mint owner (some participant_id) ride_id date digest 0

unfoldable pub record_mint_for_participant : ℕ → String → String → String → M (Unit {0})
record_mint_for_participant participant_id ride_id date digest =
    owner_user_id_for_participant participant_id
    >>= record_for_owner participant_id ride_id date digest
