-- ===== src/Postgres/Accounts.antt =====
-- The statements on `users`, `tickets` and `participants`: internal/postgres/repository.go, under the
-- constraints of migrations/. A row that a constraint refuses uses up a value of its sequence.
use theme_park_nftengine.Prelude.{
  ℕ, zero, suc, ◌+◌, String, Bool, true, false, Option, none, some, List, [], ◌∷◌, ◌++◌, ◌==◌,
  str_eq, if◌then◌else◌, find_by, update_where,
}
use theme_park_nftengine.Models.{
  User, Ticket, active, Participant, ParticipantWalletState, none_yet,
}
use theme_park_nftengine.Errors.{driver, no_rows}
use theme_park_nftengine.World.{State, Result, ok, err, M, Backend, call, wrapping}

abbrev pub has_row {ℓ} : {A : Type ℓ} → (A → Bool) → List A → Bool
has_row named rows = elim (find_by named rows) [ none ↦ false | some _ ↦ true ]

abbrev pub has_email : String → User → Bool
has_email email u = str_eq u.email email

abbrev new_user : ℕ → String → User
new_user id email = record {
  id = id;
  email = email;
  sui_address = none;
  ephemeral_key = none;
  zklogin_proof = none;
}

-- INSERT INTO users … ON CONFLICT (email) DO UPDATE … RETURNING *.
unfoldable pub upsert_user : String → State → Result User × State
upsert_user email s = elim (find_by (has_email email) s.tables.users) [
  | some u ↦ (ok u, record s { tables = record s.tables { next_user = s.tables.next_user + 1 } })
  | none ↦ (
    ok (new_user s.tables.next_user email),
    record s {
      tables = record s.tables {
        next_user = s.tables.next_user + 1;
        users = s.tables.users ++ new_user s.tables.next_user email ∷ [];
      };
    },
  )
]

unfoldable pub create_user : String → M User
create_user email = wrapping "create user" (call Backend.postgres (upsert_user email))

unfoldable pub get_user_by_email : String → M User
get_user_by_email email = call Backend.postgres λ s.
    elim (find_by (has_email email) s.tables.users) [ none ↦ (err no_rows, s) | some u ↦ (ok u, s) ]

unfoldable pub update_sui_account : ℕ → String → String → String → M (Unit {0})
update_sui_account user_id address key proof = call Backend.postgres λ s. (
  ok tt,
  record s {
    tables = record s.tables {
      users =
          update_where (λ (u : User). u.id == user_id)
            (λ u. record u {
              sui_address = some address;
              ephemeral_key = some key;
              zklogin_proof = some proof;
            })
            s.tables.users;
    };
  },
)

-- INSERT INTO tickets …: the id of a ticket is unique.
unfoldable pub create_ticket : String → Option ℕ → Option ℕ → M (Unit {0})
create_ticket ticket_id user_id purchaser_id = call Backend.postgres λ s.
    if has_row (λ (t : Ticket). str_eq t.ticket_id ticket_id) s.tables.tickets
    then (err (driver "duplicate key value violates unique constraint"), s)
    else (
      ok tt,
      record s {
        tables = record s.tables {
          tickets =
              s.tables.tickets
              ++ record {
                ticket_id = ticket_id;
                user_id = user_id;
                status = active;
                purchased_by = purchaser_id;
              }
                ∷ [];
        };
      },
    )

abbrev pub has_id : ℕ → Participant → Bool
has_id id p = p.id == id

abbrev pub has_account : String → Participant → Bool
has_account email p = elim p.account_email [ none ↦ false | some a ↦ str_eq a email ]

abbrev pub taken : Option String → List Participant → Bool
taken none ps = false
taken (some email) ps = has_row (has_account email) ps

abbrev pub missing : Option ℕ → List Participant → Bool
missing none ps = false
missing (some id) ps = if has_row (has_id id) ps then false else true

abbrev pub new_participant : ℕ → String → Option String → Option ℕ → Participant
new_participant id name email guardian = record {
  id = id;
  name = name;
  account_email = email;
  guardian_id = guardian;
  wallet_state = none_yet;
  custodial_wallet_address = none;
}

abbrev pub with_participants : State → ℕ → List Participant → State
with_participants s next ps = record s {
  tables = record s.tables { participants = ps; next_participant = next };
}

-- INSERT INTO participants … RETURNING *: an account email is unique, and a guardian exists.
unfoldable pub insert_participant :
    String → Option String → Option ℕ → State → Result Participant × State
insert_participant name email guardian s =
    let next = s.tables.next_participant in
    let ps = s.tables.participants in
    if taken email ps
    then (
      err (driver "duplicate key value violates unique constraint"),
      with_participants s (next + 1) ps,
    )
    else if missing guardian ps
    then (err (driver "insert violates foreign key constraint"), with_participants s (next + 1) ps)
    else (
      ok (new_participant next name email guardian),
      with_participants s (next + 1) (ps ++ new_participant next name email guardian ∷ []),
    )

unfoldable pub create_participant : String → Option String → Option ℕ → M Participant
create_participant name email guardian =
    wrapping "create participant" (call Backend.postgres (insert_participant name email guardian))

-- A query of one row: no row is no error.
abbrev pub select_participant : (Participant → Bool) → State → Result (Option Participant) × State
select_participant named s = (ok (find_by named s.tables.participants), s)

unfoldable pub get_participant : ℕ → M (Option Participant)
get_participant id =
    wrapping "get participant" (call Backend.postgres (select_participant (has_id id)))

unfoldable pub get_participant_by_email : String → M (Option Participant)
get_participant_by_email email =
    wrapping "get participant by email"
      (call Backend.postgres (select_participant (has_account email)))

-- SELECT * FROM participants ORDER BY id: ids grow with the order of insertion.
unfoldable pub list_participants : M (List Participant)
list_participants =
    wrapping "list participants" (call Backend.postgres (λ s. (ok s.tables.participants, s)))

abbrev pub with_wallet : ParticipantWalletState → String → Participant → Participant
with_wallet state addr p = record p { wallet_state = state; custodial_wallet_address = some addr }

unfoldable pub update_wallet :
    ℕ → ParticipantWalletState → String → State → Result (Unit {0}) × State
update_wallet id state addr s = (
  ok tt,
  with_participants s s.tables.next_participant
      (update_where (has_id id) (with_wallet state addr) s.tables.participants),
)

unfoldable pub set_participant_wallet : ℕ → ParticipantWalletState → String → M (Unit {0})
set_participant_wallet id state addr =
    wrapping "set participant wallet" (call Backend.postgres (update_wallet id state addr))

abbrev pub account_user : List User → Participant → Option User
account_user users p = elim p.account_email [
  | none ↦ none
  | some email ↦ find_by (has_email email) users
]

-- The owner of a participant: the user of the first account email up the chain of guardians that
-- belongs to a user. A guardian was there before its dependents, so `suc id` steps reach the head.
unfoldable pub owner_up : ℕ → List User → List Participant → ℕ → Option ℕ
owner_up zero users ps id = none
owner_up (suc fuel) users ps id = elim (find_by (has_id id) ps) [
  | none ↦ none
  | some p ↦ elim (account_user users p) [
    | some u ↦ some u.id
    | none ↦ elim p.guardian_id [ none ↦ none | some g ↦ owner_up fuel users ps g ]
  ]
]

-- 0 stands for no owner.
abbrev owner_or_zero : Option ℕ → ℕ
owner_or_zero none = 0
owner_or_zero (some id) = id

unfoldable pub owner_user_id_for_participant : ℕ → M ℕ
owner_user_id_for_participant id = wrapping "resolve owner user" (
    call Backend.postgres
      λ s. (ok (owner_or_zero (owner_up (suc id) s.tables.users s.tables.participants id)), s))
