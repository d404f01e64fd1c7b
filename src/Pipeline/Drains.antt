-- ===== src/Pipeline/Drains.antt =====
-- The passes over the outbox: `DrainOutbox` of internal/pipeline/handler.go.
use theme_park_nftengine.Prelude.{
  ℕ, zero, suc, String, ◌≡◌, refl, subst, ◌∙◌, delete_where, true, some, List, [], ◌∷◌, take,
  find_by, find_by-update_kept, find_by-delete_other, ◌⊎◌, inl, inr, str_eq, eq_iff, Bool-cases,
  arith,
}
use theme_park_nftengine.Models.{OutboxRow}
use theme_park_nftengine.Config.{RedisConfig}
use theme_park_nftengine.Calendar.{date_of}
use theme_park_nftengine.Keyspace.Keys.{user_rides}
use theme_park_nftengine.World.{State, World, Backend}
use theme_park_nftengine.World.Hoare.{
  Hoare, Hoare-bind, Hoare-call, Hoare-catch, Hoare-pure, Hoare-and, Hoare-consequence,
  Hoare-weaken, Hoare-wrapping, Keeps, Keeps-of, Keeps-call, Keeps-bind, Keeps-catch, Keeps-pure,
  Keeps-raise, of_Keeps, Hoare-fact, Post-both,
}
use theme_park_nftengine.Redis.Client.{add_ride_to_user_set}
use theme_park_nftengine.Postgres.Scans.{
  names_parked, list_pending_outbox, bump_outbox_attempts, delete_outbox, with_outbox,
}
use theme_park_nftengine.Pipeline.Handler.{drain_row, drain_rows, drain_outbox}
use theme_park_nftengine.Pipeline.Rows.{HasMember, add_ride-HasMember}
use theme_park_nftengine.Pipeline.Sets.{add_ride-Kept}

-- What a row asks for: a visitor, a ride and a time.
abbrev pub addition : OutboxRow → String × String × ℕ
addition r = (r.user_email, r.ride_id, r.scanned_at)

-- The ride stands in the visitor's set of the day.
abbrev pub Added : String × String × ℕ → State → Type 0
Added (email, ride, at) = HasMember (user_rides email (date_of at)) ride

-- A row of the same name asks for the same.
abbrev pub StillParked : OutboxRow → State → Type 0
StillParked row s =
    (r : OutboxRow) × (find_by (names_parked row.trace_id) s.tables.outbox ≡ some r)
    × (addition r ≡ addition row)

abbrev pub Safe : OutboxRow → State → Type 0
Safe row s = StillParked row s ⊎ Added (addition row) s

-- Rows of the same name ask for the same.
abbrev Agrees : OutboxRow → OutboxRow → Type 0
Agrees row y = str_eq y.trace_id row.trace_id ≡ true → addition y ≡ addition row

abbrev pub AllAgree : OutboxRow → List OutboxRow → Type 0
AllAgree row [] = Unit {0}
AllAgree row (y ∷ ys) = Agrees row y × AllAgree row ys

take-AllAgree :
    (row : OutboxRow) (n : ℕ) (ys : List OutboxRow) → AllAgree row ys → AllAgree row (take n ys)
unfolding take
take-AllAgree row zero ys h = tt
take-AllAgree row (suc n) [] h = tt
take-AllAgree row (suc n) (y ∷ ys) (h, hs) = (h, take-AllAgree row n ys hs)

module _ (cfg : RedisConfig) (row : OutboxRow) where
  add_ride-Safe :
      (user ride date : String) → Keeps (Safe row) (add_ride_to_user_set cfg user ride date)
  add_ride-Safe user ride date = record {
    at = λ w h. elim h [
      | inl parked ↦ inl (parked_kept.at w parked)
      | inr added ↦ inr ((add_ride-Kept _ _ cfg user ride date).at w added)
    ];
  }
    where
      parked_kept : Keeps (StillParked row) (add_ride_to_user_set cfg user ride date)
      parked_kept = Keeps-of _ (
          Hoare-consequence _
            (add_ride-HasMember cfg user ride date (StillParked row) (λ s o k p. p)) (λ _ s h. h.0)
            (λ _ s h. h))

  add_ride-Added :
      (y : OutboxRow)
      → Hoare
          (Safe row)
          (add_ride_to_user_set cfg y.user_email y.ride_id (date_of y.scanned_at))
          (λ _ s. Safe row s × Added (addition y) s)
          (λ _. Safe row)
  add_ride-Added y =
      Hoare-consequence _
        (Hoare-weaken _
          (Hoare-and _ (add_ride-Safe y.user_email y.ride_id (date_of y.scanned_at)) (
            add_ride-HasMember cfg y.user_email y.ride_id (date_of y.scanned_at) (λ _. Unit {0})
              (λ s o k p. p)))
          (λ s h. (h, tt)))
        (λ _ s h. (h.0, h.1.1)) (λ _ s h. h.0)

  bump-Safe : (trace_id : String) → Keeps (Safe row) (bump_outbox_attempts trace_id)
  unfolding bump_outbox_attempts
  bump-Safe trace_id =
      Keeps-catch _ _ _
        (Keeps-call Backend.postgres _ λ s h. elim h [
          | inl (r, found, same) ↦
              let (b, found', kept) =
                find_by-update_kept (names_parked row.trace_id) (names_parked trace_id) _ addition
                  s.tables.outbox r (λ _. refl) (λ _. refl) found in
              inl (b, found', kept ∙ same)
          | inr added ↦ inr added
        ])
        (λ a. Keeps-pure a) (λ e. Keeps-raise _)

  deleted :
      (y : OutboxRow) (s : State)
      → Agrees row y
      → Safe row s × Added (addition y) s
      → Safe row (with_outbox s (delete_where (names_parked y.trace_id) s.tables.outbox))
  deleted y s agrees (safe, added) = elim (Bool-cases (str_eq y.trace_id row.trace_id)) [
    | inl same ↦ inr (subst (λ a. Added a s) (agrees same) added)
    | inr other ↦ elim safe [
      | inl (r, found, same) ↦ inl (
        r,
        find_by-delete_other (names_parked row.trace_id) (names_parked y.trace_id) s.tables.outbox
              (λ x named. ground (
                arith,
                eq_iff x.trace_id row.trace_id,
                eq_iff x.trace_id y.trace_id,
                eq_iff y.trace_id row.trace_id,
              ))
            ∙ found,
        same,
      )
      | inr before ↦ inr before
    ]
  ]

  delete-Safe :
      (y : OutboxRow)
      → Agrees row y
      → Hoare
          (λ s. Safe row s × Added (addition y) s)
          (delete_outbox y.trace_id)
          (λ _. Safe row)
          (λ _. Safe row)
  unfolding delete_outbox
  delete-Safe y agrees = Hoare-wrapping {E = Safe row} _ _ (
      Hoare-call Backend.postgres _ (λ s h. deleted y s agrees h) (λ s _ h. h.0)
        (λ s _ h. deleted y s agrees h))

  drain_row-Safe : (y : OutboxRow) → Agrees row y → Keeps (Safe row) (drain_row cfg y)
  unfolding drain_row
  drain_row-Safe y agrees = Keeps-of _ (
      Hoare-catch _ _ _ (add_ride-Added y)
        (λ _. Hoare-bind _ _ (delete-Safe y agrees) (λ _. Hoare-pure _ (λ s h. h)))
        (λ _. of_Keeps _ (
          Keeps-bind _ _
            (Keeps-catch _ _ _ (bump-Safe y.trace_id) (λ _. Keeps-pure _) (λ _. Keeps-pure _))
            (λ _. Keeps-pure _))))

  drain_rows-Safe :
      (ys : List OutboxRow) (drained : ℕ)
      → AllAgree row ys
      → Keeps (Safe row) (drain_rows cfg ys drained)
  unfolding drain_rows
  drain_rows-Safe [] drained h = Keeps-pure _
  drain_rows-Safe (y ∷ ys) drained (h, hs) =
      Keeps-bind _ _ (drain_row-Safe y h) (λ done. drain_rows-Safe ys _ hs)

  drain_outbox-Safe :
      (batch : ℕ)
      → Hoare
          (λ s. Safe row s × AllAgree row s.tables.outbox)
          (drain_outbox cfg batch)
          (λ _. Safe row)
          (λ _. Safe row)
  unfolding drain_outbox list_pending_outbox
  drain_outbox-Safe batch =
      Hoare-bind {R = λ rows s. AllAgree row rows × Safe row s} _ _
        (Hoare-wrapping {E = Safe row} _ _ (
          Hoare-call Backend.postgres _ (λ s h. (take-AllAgree row batch s.tables.outbox h.1, h.0))
            (λ s _ h. h.0) (λ s _ h. h.0)))
        (λ rows. Hoare-fact _ (λ agree. of_Keeps _ (drain_rows-Safe rows 0 agree)))

  -- A pass over the outbox, of whatever batch, loses no ride, whatever calls of Redis and Postgres fail
  -- before or after their effect, and also where an error ends the pass: a row that was parked is parked
  -- still, for the same visitor, ride and time, or its ride stands in the visitor's set of the day. Rows
  -- with the trace id of the row must ask for the same, as the primary key sees to.
  pub drain_loses_nothing :
      (batch : ℕ) (w : World)
      → find_by (names_parked row.trace_id) w.st.tables.outbox ≡ some row
      → AllAgree row w.st.tables.outbox
      → Safe row (drain_outbox cfg batch w).1.st
  drain_loses_nothing batch w found agree =
      Post-both (Safe row) (drain_outbox cfg batch w).1.st (drain_outbox cfg batch w).0
        ((drain_outbox-Safe batch).run w (inl (row, found, refl), agree))
