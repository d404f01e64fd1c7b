-- ===== src/Gate/LinkMoves.antt =====
-- What the scripts and writes of internal/redis/client.go do to the links of wristbands and tickets.
use theme_park_nftengine.Prelude.{
  ℕ, ◌*◌, String, ◌≡◌, refl, Bool, true, false, Option, none, some, ◌⊎◌, inl, inr, str_eq, eq_iff,
  ap, fun_ext, subst, ◌∙◌, Bool-cases, Option-cases, if◌then◌else◌,
}
use theme_park_nftengine.Models.{WristbandBinding, BindingStatus}
use theme_park_nftengine.Keyspace.{
  Entry, binding_json, assign, peek-assign, lives, live_entry, peek-lives,
}
use theme_park_nftengine.Keyspace.Keys.{Key, bind_wristband}
use theme_park_nftengine.World.{State, call, calm}
use theme_park_nftengine.Redis.Commands.{set_keep_ttl, bind_script, delete_binding_script}
use theme_park_nftengine.Redis.Keeps.{
  HasLinks, wristbands, tickets, Apart, assign-HasLinks, bind_script-HasLinks,
  delete_binding_script-HasLinks,
}
use theme_park_nftengine.Redis.Methods.{Held, with_status}
use theme_park_nftengine.Gate.Abstract.{LinkMap, set_link}

-- The ticket of a wristband's entry.
abbrev pub ticket_in : Option Entry → Option String
ticket_in none = none
ticket_in (some e) = elim e.value [ binding_json b ↦ some b.ticket_id | _ ↦ none ]

-- The links of a state.
abbrev pub links_of : State → LinkMap
links_of s uid = ticket_in (wristbands s uid)

-- The ticket of a link is in the index of tickets.
linked_ticket :
    (s : State) (v t : String) → HasLinks s → tickets s t ≡ none → links_of s v ≡ some t → ⊥
linked_ticket s v t h free p = elim (Option-cases (wristbands s v)) [
  | inl absent ↦ absurd (cc (ap ticket_in absent))
  | inr (e, present) ↦
      let (b, value, _, back) = h.forward v e present in absurd (cc (ap ticket_in present, value))
]

ticket_in-if :
    (b : Bool) (x y : Option Entry)
    → (if b then ticket_in x else ticket_in y) ≡ ticket_in (if b then x else y)
ticket_in-if true x y = refl
ticket_in-if false x y = refl

pub later_ticket :
    (later : ℕ) (o : Option Entry)
    → (ticket_in (live_entry later o) ≡ ticket_in o) ⊎ (ticket_in (live_entry later o) ≡ none)
later_ticket later none = inr refl
later_ticket later (some e) = elim (Bool-cases (lives later e)) [
  | inl alive ↦ inl (rw alive refl)
  | inr over ↦ inr (rw over refl)
]

pub ticket_of_value :
    (e : Entry) (b : WristbandBinding)
    → e.value ≡ binding_json b
    → ticket_in (some e) ≡ some b.ticket_id
ticket_of_value e b q = rw q refl

pub script-HasLinks :
    (s : State) (b : WristbandBinding) (exp : ℕ)
    → HasLinks s
    → HasLinks (bind_script b.wristband_uid b.ticket_id b exp s).1
unfolding call
script-HasLinks s b exp h = (bind_script-HasLinks b exp).at (calm s) h

pub delete-HasLinks :
    (s : State) (uid : String) → HasLinks s → HasLinks (delete_binding_script uid s).1
unfolding call
delete-HasLinks s uid h = (delete_binding_script-HasLinks uid).at (calm s) h

-- A wristband that has no link has none without it.
unchanged :
    (s : State) (uid : String)
    → wristbands s uid ≡ none
    → (u : String) → links_of s u ≡ ticket_in (if str_eq uid u then none else wristbands s u)
unchanged s uid idle u = elim (Bool-cases (str_eq uid u)) [
  | inl hit ↦ rw hit (subst (λ j. links_of s j ≡ none) ((eq_iff uid u).0 hit) (ap ticket_in idle))
  | inr miss ↦ rw miss refl
]

-- A statement about the links that the scripts keep.
module _ (P : LinkMap → Type 0) where
  -- The indices agree, and the links are as stated.
  abbrev pub Refined : State → Type 0
  Refined s = HasLinks s × P (links_of s)

  -- The statement allows a link of this wristband and this ticket, where both have none.
  abbrev pub Grows : String → String → Type 0
  Grows uid ticket_id =
      (n : LinkMap)
      → P n
      → n uid ≡ none
      → ((v : String) → n v ≡ some ticket_id → ⊥)
      → P (set_link n uid (some ticket_id))

  -- It allows the end of the link of this wristband.
  abbrev pub Shrinks : String → Type 0
  Shrinks uid = (n : LinkMap) → P n → P (set_link n uid none)

  pub assign-Refined :
      (s : State) (k : Key) (e : Option Entry)
      → Apart k
      → Refined s
      → Refined (record s { redis = assign s.redis k e })
  assign-Refined s k e apart h = (
    assign-HasLinks s k e apart h.0,
    subst P (fun_ext (λ u. ap ticket_in (rw (peek-assign, apart.0 u)))) h.1,
  )

  -- Both keys of a new link are written, and it may be past its time.
  linked :
      (s : State) (b : WristbandBinding) (t : ℕ)
      → Grows b.wristband_uid b.ticket_id
      → HasLinks s
      → wristbands s b.wristband_uid ≡ none
      → tickets s b.ticket_id ≡ none
      → P (links_of s)
      → P (λ u. ticket_in (
          if str_eq b.wristband_uid u
          then live_entry s.now (some (record { value = binding_json b; expires = some t }))
          else wristbands s u))
  linked s b t grow h idle free here =
      elim (Bool-cases (lives s.now (record { value = binding_json b; expires = some t }))) [
        | inl alive ↦
            subst P (fun_ext (λ u. rw alive (ticket_in-if (str_eq b.wristband_uid u) _ _))) (
              grow (links_of s) here (ap ticket_in idle)
                (λ v p. linked_ticket s v b.ticket_id h free p))
        | inr over ↦ subst P (fun_ext (λ u. rw over (unchanged s b.wristband_uid idle u))) here
      ]

  pub script-links :
      (s : State) (b : WristbandBinding) (exp : ℕ)
      → Grows b.wristband_uid b.ticket_id
      → HasLinks s
      → P (links_of s)
      → P (links_of (bind_script b.wristband_uid b.ticket_id b exp s).1)
  unfolding bind_script
  script-links s b exp grow h here = elim (Option-cases (tickets s b.ticket_id)) [
    | inr (e, present) ↦ rw (present, bind_script) here
    | inl free ↦
        rw (free, bind_script)
          (elim (Option-cases (wristbands s b.wristband_uid)) [
            | inr (e, present) ↦ rw present here
            | inl idle ↦ rw idle (
                subst P (fun_ext (λ u. ap ticket_in (rw (peek-assign, peek-assign) refl)))
                  (linked s b (exp * 1000) grow h idle free here))
          ])
  ]

  unlinked :
      (s : State) (uid : String)
      → Shrinks uid
      → P (links_of s)
      → P (λ u. ticket_in (if str_eq uid u then none else wristbands s u))
  unlinked s uid shrink here =
      subst P (fun_ext (λ u. ticket_in-if (str_eq uid u) none (wristbands s u)))
        (shrink (links_of s) here)

  pub delete-links :
      (s : State) (uid : String)
      → Shrinks uid
      → HasLinks s
      → P (links_of s)
      → P (links_of (delete_binding_script uid s).1)
  unfolding delete_binding_script
  delete-links s uid shrink h here = elim (Option-cases (wristbands s uid)) [
    | inl absent ↦
        rw (absent, delete_binding_script)
          (subst P (fun_ext (λ u. ap ticket_in (rw peek-assign refl))) (unlinked s uid shrink here))
    | inr (e, present) ↦
        let (b, v, _, _) = h.forward uid e present in
        rw (present, delete_binding_script)
          (rw v (
            subst P (fun_ext (λ u. ap ticket_in (rw (peek-assign, peek-assign) refl)))
              (unlinked s uid shrink here)))
  ]

  -- The binding is written anew, with the ticket that it had.
  pub status-links :
      (s : State) (uid : String) (status : BindingStatus) (b : WristbandBinding)
      → Held uid b s
      → P (links_of s)
      → P (links_of (with_status uid status b s))
  unfolding set_keep_ttl
  status-links s uid status b (e, p, v) here =
      subst P
        (fun_ext (λ u.
          same_ticket u
          ∙ ap ticket_in
              (rw (peek-assign, p, peek-lives s.now s.redis (bind_wristband uid) e p) refl)))
        here
    where
      same_ticket :
          (u : String)
          → links_of s u
            ≡ ticket_in (
                if str_eq uid u
                then some (record e { value = binding_json (record b { status = status }) })
                else wristbands s u)
      same_ticket u = elim (Bool-cases (str_eq uid u)) [
        | inl hit ↦ rw hit (
            subst (λ j. links_of s j ≡ some b.ticket_id) ((eq_iff uid u).0 hit)
              (ap ticket_in p ∙ ticket_of_value e b v))
        | inr miss ↦ rw miss refl
      ]
