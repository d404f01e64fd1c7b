-- ===== src/Postgres/Guardians.antt =====
-- The chains of guardians that `OwnerUserIDForParticipant` of internal/postgres/repository.go walks.
use theme_park_nftengine.Prelude.{
  ℕ, zero, suc, ◌<◌, ◌+◌, ◌++◌, ◌∷◌, [], String, ◌≡◌, refl, subst, ◌⊎◌, false, Option, none, some,
  List, arith, Bool-cases, Option-cases, inl, inr, find_by, find_by-append, find_by-append_found,
  find_by-append_other,
}
use theme_park_nftengine.Models.{User, Participant}
use theme_park_nftengine.World.{State, ok, calm, catch, call}
use theme_park_nftengine.Postgres.Accounts.{
  has_id, account_user, owner_up, owner_user_id_for_participant, taken, missing, new_participant,
  insert_participant,
}

-- Ids are below the next of the sequence, and a guardian's id is below that of its dependent.
pub record IsGuarded (next : ℕ) (ps : List Participant) : Type 0 where
  pub below : (id : ℕ) (p : Participant) → find_by (has_id id) ps ≡ some p → id < next
  pub older :
      (id g : ℕ) (p : Participant)
      → find_by (has_id id) ps ≡ some p
      → p.guardian_id ≡ some g
      → g < id

-- The owner of a participant: the user of its account email, or else the owner of its guardian.
module _ (users : List User) (ps : List Participant) where
  pub data OwnedBy : ℕ → User → Type 0 where
    holds :
        (id : ℕ) (p : Participant) (u : User)
        → find_by (has_id id) ps ≡ some p
        → account_user users p ≡ some u
        → OwnedBy id u
    climbs :
        (id g : ℕ) (p : Participant) (u : User)
        → find_by (has_id id) ps ≡ some p
        → account_user users p ≡ none
        → p.guardian_id ≡ some g
        → OwnedBy g u
        → OwnedBy id u

  absent_unowned : (id : ℕ) (u : User) → find_by (has_id id) ps ≡ none → OwnedBy id u → ⊥
  absent_unowned id u absent (holds _ p _ found _) = absurd (cc (absent, found))
  absent_unowned id u absent (climbs _ _ p _ found _ _ _) = absurd (cc (absent, found))

  head_unowned :
      (id : ℕ) (p : Participant) (u : User)
      → find_by (has_id id) ps ≡ some p
      → account_user users p ≡ none
      → p.guardian_id ≡ none
      → OwnedBy id u
      → ⊥
  head_unowned id p u here nobody head (holds _ q _ found owner) =
      absurd (cc (here, found, nobody, owner))
  head_unowned id p u here nobody head (climbs _ g q _ found _ up _) =
      absurd (cc (here, found, head, up))

  dependent_unowned :
      (id g : ℕ) (p : Participant) (u : User)
      → find_by (has_id id) ps ≡ some p
      → account_user users p ≡ none
      → p.guardian_id ≡ some g
      → (OwnedBy g u → ⊥)
      → OwnedBy id u
      → ⊥
  dependent_unowned id g p u here nobody up unowned (holds _ q _ found owner) =
      absurd (cc (here, found, nobody, owner))
  dependent_unowned id g p u here nobody up unowned (climbs _ h q _ found _ up' owned) =
      unowned (subst (λ x. OwnedBy x u) same owned)
    where
      same : h ≡ g
      same = cc (here, found, up, up')

  -- The owner, with the answer, or that there is none.
  abbrev pub Settles : {A : Type 0} → ℕ → A → A → (ℕ → A) → Type 0
  Settles id answer nobody owner =
      ((u : User) × OwnedBy id u × (answer ≡ owner u.id))
      ⊎ ((u : User) → OwnedBy id u → ⊥) × (answer ≡ nobody)

  walk :
      (fuel next id : ℕ)
      → IsGuarded next ps
      → id < fuel
      → Settles id (owner_up fuel users ps id) none some
  unfolding owner_up
  walk zero next id guarded h = absurd (ground arith)
  walk (suc fuel) next id guarded h = elim (Option-cases (find_by (has_id id) ps)) [
    | inl absent ↦ inr ((λ u. absent_unowned id u absent), rw (absent, owner_up) refl)
    | inr (p, present) ↦ elim (Option-cases (account_user users p)) [
      | inr (u, found) ↦ inl (u, holds id p u present found, rw (present, found, owner_up) refl)
      | inl nobody ↦ elim (Option-cases p.guardian_id) [
        | inl head ↦ inr (
          (λ u. head_unowned id p u present nobody head),
          rw (present, nobody, head, owner_up) refl,
        )
        | inr (g, up) ↦
            let older = guarded.older id g p present up in
            elim (walk fuel next g guarded (omega (arith, h, older))) [
              | inl (u, owned, same) ↦ inl (
                u,
                climbs id g p u present nobody up owned,
                rw (present, nobody, up, owner_up) same,
              )
              | inr (unowned, same) ↦ inr (
                (λ u. dependent_unowned id g p u present nobody up (unowned u)),
                rw (present, nobody, up, owner_up) same,
              )
            ]
      ]
    ]
  ]

module _ (name : String) (email : Option String) (guardian : Option ℕ) (next : ℕ)
    (ps : List Participant) (guarded : IsGuarded next ps) where
  abbrev row : Participant
  row = new_participant next name email guardian

  -- A row of the longer table is an old row, or the new one.
  new_below :
      (id : ℕ) (p : Participant) → find_by (has_id id) (ps ++ row ∷ []) ≡ some p → id < next + 1
  new_below id p h = elim (Option-cases (find_by (has_id id) ps)) [
    | inr (q, present) ↦ ground (arith, guarded.below id q present)
    | inl absent ↦ elim (Bool-cases (has_id id row)) [
      | inl new ↦ ground arith
      | inr other ↦ absurd (ground (arith, find_by-append_other (has_id id) ps row other))
    ]
  ]

  new_older :
      (id g : ℕ) (p : Participant)
      → ((g : ℕ) → guardian ≡ some g → (q : Participant) × (find_by (has_id g) ps ≡ some q))
      → find_by (has_id id) (ps ++ row ∷ []) ≡ some p
      → p.guardian_id ≡ some g
      → g < id
  new_older id g p there h up = elim (Option-cases (find_by (has_id id) ps)) [
    | inr (q, present) ↦
        guarded.older id g q present
          (ground (arith, find_by-append_found (has_id id) ps (row ∷ []) q present))
    | inl absent ↦ elim (Bool-cases (has_id id row)) [
      | inl new ↦
          let found = find_by-append (has_id id) ps row absent new in
          let (q, present) = there g (ground (arith, found)) in
          let small = guarded.below g q present in ground (arith, small)
      | inr other ↦ absurd (ground (arith, find_by-append_other (has_id id) ps row other))
    ]
  ]

guardian_there :
    (guardian : Option ℕ) (ps : List Participant)
    → missing guardian ps ≡ false
    → (g : ℕ) → guardian ≡ some g
    → (q : Participant) × (find_by (has_id g) ps ≡ some q)
guardian_there none ps h g e = absurd (cc e)
guardian_there (some x) ps h g e = elim (Option-cases (find_by (has_id g) ps)) [
  | inr (q, present) ↦ (q, present)
  | inl absent ↦ absurd (ground arith)
]

abbrev pub Guarded : State → Type 0
Guarded s = IsGuarded s.tables.next_participant s.tables.participants

-- A sequence may skip values.
skipped : (next : ℕ) (ps : List Participant) → IsGuarded next ps → IsGuarded (next + 1) ps
skipped next ps h = record {
  below = λ id p e. let b = h.below id p e in omega (arith, b);
  older = h.older;
}

-- An insertion of a participant, one that a constraint refuses too, leaves every id below the next value of
-- the sequence, and every guardian older than its dependents: the guardians have no cycle.
pub insert_participant-Guarded :
    (name : String) (email : Option String) (guardian : Option ℕ) (s : State)
    → Guarded s
    → Guarded (insert_participant name email guardian s).1
unfolding insert_participant
insert_participant-Guarded name email guardian s h =
    elim (Bool-cases (taken email s.tables.participants)) [
      | inl dup ↦ rw (dup, insert_participant) (skipped _ _ h)
      | inr free ↦ elim (Bool-cases (missing guardian s.tables.participants)) [
        | inl orphan ↦ rw (free, orphan, insert_participant) (skipped _ _ h)
        | inr there ↦
            rw (free, there, insert_participant)
              (record {
                below =
                    new_below name email guardian s.tables.next_participant s.tables.participants h;
                older = λ id g p.
                    new_older name email guardian s.tables.next_participant s.tables.participants h
                      id g p (guardian_there guardian s.tables.participants there);
              })
      ]
    ]

-- The owner of a participant, where no call fails: the answer is the user of the nearest account email up
-- its guardians that belongs to a user, however many guardians there are, and 0 exactly where there is no
-- such user. Guardians must be older than their dependents.
pub owner_lem :
    (id : ℕ) (s : State)
    → Guarded s
    → Settles s.tables.users s.tables.participants id
        (owner_user_id_for_participant id (calm s)).0
        (ok 0)
        ok
unfolding owner_user_id_for_participant catch call
owner_lem id s guarded =
    elim (walk s.tables.users s.tables.participants (suc id) s.tables.next_participant id guarded
      (omega arith)) [
        | inl (u, owned, found) ↦ inl (u, owned, rw found refl)
        | inr (unowned, nobody) ↦ inr (unowned, rw nobody refl)
      ]
