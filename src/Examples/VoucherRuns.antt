-- ===== src/Examples/VoucherRuns.antt =====
-- Runs of the voucher service.
use theme_park_nftengine.Prelude.{
  arith, length, find_by, ◌+◌, ℕ, ◌≡◌, ◌≢◌, refl, Bool, true, false, not, none, some, List, [], ◌∷◌,
  ◌&&◌, str_eq, String,
}
use theme_park_nftengine.Models.{
  DelegateRequest, DelegateResponse, account, dependent, none_yet, custodial_proxy,
}
use theme_park_nftengine.World.{State, calm, err, ok, call, ◌>>=◌, catch}
use theme_park_nftengine.Voucher.Service.{
  delegate, resolve_mint_wallet, is_custodial, record_pending_mint,
}
use theme_park_nftengine.Postgres.Accounts.{
  has_id, owner_user_id_for_participant, insert_participant,
}
use theme_park_nftengine.Postgres.Guardians.{
  Guarded, Settles, owner_lem, insert_participant-Guarded,
}
use theme_park_nftengine.Voucher.Refused.{refused_leaves_participant}
use theme_park_nftengine.Errors.{voucher_error, voucher_allocated}
use theme_park_nftengine.Postgres.Mints.{is_open}
use theme_park_nftengine.Voucher.History.{claims, history}
use theme_park_nftengine.Voucher.Once.{IsGiven, delegate_gives, delegate_once}
use theme_park_nftengine.Examples.Fixtures.{world, participant_row}

abbrev request : DelegateRequest
request = record {
  voucher_id = "v1";
  mode = account;
  account_email = "ana@park";
  name = "";
  guardian_id = 0;
}

abbrev pub for_child : DelegateRequest
for_child = record {
  voucher_id = "v1";
  mode = dependent;
  account_email = "";
  name = "Bo";
  guardian_id = 1;
}

abbrev given : DelegateResponse
given = record {
  participant_id = 1;
  voucher_id = "v1";
  mode = account;
  wallet_state = none_yet;
  wallet_address = "";
  pending = true;
}

abbrev pub child_given : DelegateResponse
child_given = record {
  participant_id = 2;
  voucher_id = "v1";
  mode = dependent;
  wallet_state = custodial_proxy;
  wallet_address = "0xguardian-custodial-2";
  pending = false;
}

delegate_runs : (delegate request world).0 ≡ ok given
unfolding delegate ◌>>=◌ theme_park_nftengine.Voucher.Service.participant_of
    theme_park_nftengine.Voucher.Service.account_participant
    theme_park_nftengine.Postgres.Accounts.get_participant_by_email catch call
    theme_park_nftengine.Prelude.find_by theme_park_nftengine.Postgres.Mints.delegate_voucher
    theme_park_nftengine.Postgres.Mints.update_vouchers resolve_mint_wallet
delegate_runs = refl

child_runs : (delegate for_child world).0 ≡ ok child_given
unfolding delegate ◌>>=◌ theme_park_nftengine.Voucher.Service.participant_of
    theme_park_nftengine.Voucher.Service.dependent_participant
    theme_park_nftengine.Postgres.Accounts.get_participant catch call
    theme_park_nftengine.Prelude.find_by theme_park_nftengine.Postgres.Accounts.create_participant
    theme_park_nftengine.Postgres.Accounts.insert_participant
    theme_park_nftengine.Postgres.Accounts.set_participant_wallet
    theme_park_nftengine.Postgres.Accounts.update_wallet
    theme_park_nftengine.Postgres.Mints.delegate_voucher
    theme_park_nftengine.Postgres.Mints.update_vouchers resolve_mint_wallet
    theme_park_nftengine.Voucher.Service.custodial_wallet_for theme_park_nftengine.Text.itoa
child_runs = refl

delegate_gives_example : IsGiven "v1" 2 (delegate for_child world).1.st.tables.ticket_vouchers
delegate_gives_example = delegate_gives for_child child_given world child_runs

delegate_once_example :
    (delegate for_child (history (claims "v1" 1 ∷ []) (delegate request world).1)).0
    ≢ ok child_given
delegate_once_example =
    delegate_once request for_child given child_given (claims "v1" 1 ∷ []) world delegate_runs refl

one-Guarded : Guarded world.st
unfolding theme_park_nftengine.Prelude.find_by
one-Guarded = record {
  below = λ id p h. ground arith;
  older = λ id g p h up. absurd (ground arith);
}

owner_lem_example :
    Settles world.st.tables.users world.st.tables.participants 1
      (owner_user_id_for_participant 1 (calm world.st)).0
      (ok 0)
      ok
owner_lem_example = owner_lem 1 world.st one-Guarded

insert_participant-Guarded_example : Guarded (insert_participant "Bo" none (some 1) world.st).1
insert_participant-Guarded_example =
    insert_participant-Guarded "Bo" none (some 1) world.st one-Guarded

abbrev voucherless : State
voucherless = record world.st { tables = record world.st.tables { ticket_vouchers = [] } }

guardian_found : find_by (has_id 1) voucherless.tables.participants ≡ some participant_row
unfolding find_by
guardian_found = refl

none_open : find_by (is_open "v1") voucherless.tables.ticket_vouchers ≡ none
unfolding find_by
none_open = refl

refused_leaves_participant_example :
    ((delegate for_child (calm voucherless)).0 ≡ err (voucher_error voucher_allocated))
    × (length (delegate for_child (calm voucherless)).1.st.tables.participants ≡ 1 + 1)
refused_leaves_participant_example =
    refused_leaves_participant for_child voucherless participant_row refl refl guardian_found
      none_open
