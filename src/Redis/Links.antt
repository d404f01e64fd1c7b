-- ===== src/Redis/Links.antt =====
-- The two indices of the wristband bindings: wristband to binding, and ticket to wristband. What it is for them
-- to agree.
use theme_park_nftengine.Prelude.{
  ℕ, String, ◌≡◌, false, Option, none, some, str_eq, eq_iff, eq_refl, if◌then◌else◌, arith,
  Bool-cases, fun_ext, ◌⊎◌, inl, inr, ◌∙◌,
}
use theme_park_nftengine.Models.{WristbandBinding}
use theme_park_nftengine.Keyspace.{plain, binding_json, Entry, live_entry, lives}

-- The entries of an index, by wristband or by ticket.
abbrev pub Index : Type 0
Index = String → Option Entry

abbrev pub update : Index → String → Option Entry → Index
update f k e j = if str_eq k j then e else f j

abbrev pub reverse_of : String → Entry → Entry
reverse_of uid e = record { value = plain uid; expires = e.expires }

pub record Linked (f g : Index) : Type 0 where
  pub forward :
      (uid : String) (e : Entry)
      → f uid ≡ some e
      → (b : WristbandBinding) × (e.value ≡ binding_json b)
        × (b.wristband_uid ≡ uid)
        × (g b.ticket_id ≡ some (reverse_of uid e))
  pub backward :
      (ticket_id : String) (r : Entry)
      → g ticket_id ≡ some r
      → (uid : String) × (b : WristbandBinding) × (r.value ≡ plain uid)
        × (f uid ≡ some (record { value = binding_json b; expires = r.expires }))
        × (b.ticket_id ≡ ticket_id)

-- A ticket is linked to one wristband at most.
pub Linked-unique :
    {f g : Index}
    → Linked f g
    → (u v : String) (d e : Entry) (b c : WristbandBinding) → f u ≡ some d
    → f v ≡ some e
    → d.value ≡ binding_json b
    → e.value ≡ binding_json c
    → b.ticket_id ≡ c.ticket_id
    → u ≡ v
Linked-unique l u v d e b c p q bd ce same = grind (arith, l.forward u d p, l.forward v e q)

-- The entry of a changed index is the new one, or an old one at another name.
update-cases :
    (f : Index) (k : String) (e : Option Entry) (j : String) (d : Entry)
    → update f k e j ≡ some d
    → ((k ≡ j) × (e ≡ some d)) ⊎ ((str_eq k j ≡ false) × (f j ≡ some d))
update-cases f k e j d p = elim (Bool-cases (str_eq k j)) [
  | inl same ↦ inl ((eq_iff k j).0 same, ground arith)
  | inr other ↦ inr (other, ground arith)
]

update_self : (f : Index) (k : String) (e : Option Entry) → update f k e k ≡ e
update_self f k e = rw (eq_refl k)

-- An entry under a name where another index has none stays.
update_kept :
    (f : Index) (k : String) (e : Option Entry) (j : String) (d : Entry)
    → f k ≡ none
    → f j ≡ some d
    → update f k e j ≡ some d
update_kept f k e j d p q = ground (arith, eq_iff k j)

-- A new link, of a wristband and a ticket that have none.
pub add-Linked :
    {f g : Index} (b : WristbandBinding) (t : Option ℕ)
    → f b.wristband_uid ≡ none
    → g b.ticket_id ≡ none
    → Linked f g
    → Linked
        (update f b.wristband_uid (some (record { value = binding_json b; expires = t })))
        (update g b.ticket_id (some (record { value = plain b.wristband_uid; expires = t })))
add-Linked {f} {g} b t nf ng l = record {
  forward = λ u e p. elim (update-cases f b.wristband_uid (some new) u e p) [
    | inl (same, q) ↦ (b, ground arith, same, update_self g b.ticket_id _ ∙ ground arith)
    | inr (_, q) ↦
        let (c, v, w, r) = l.forward u e q in (c, v, w, update_kept g b.ticket_id _ _ _ ng r)
  ];
  backward = λ k r p. elim (update-cases g b.ticket_id (some back) k r p) [
    | inl (same, q) ↦
        (b.wristband_uid, b, ground arith, update_self f b.wristband_uid _ ∙ ground arith, same)
    | inr (_, q) ↦
        let (u, c, v, w, e) = l.backward k r q in
        (u, c, v, update_kept f b.wristband_uid _ _ _ nf w, e)
  ];
}
  where
    new : Entry
    new = record { value = binding_json b; expires = t }

    back : Entry
    back = record { value = plain b.wristband_uid; expires = t }

pub update_absent : (f : Index) (k : String) → f k ≡ none → update f k none ≡ f
update_absent f k p = fun_ext λ j. ground (arith, eq_iff k j)

-- The same where the new keys may be past their time already.
pub add_live-Linked :
    {f g : Index} (now : ℕ) (b : WristbandBinding) (t : Option ℕ)
    → f b.wristband_uid ≡ none
    → g b.ticket_id ≡ none
    → Linked f g
    → Linked
        (update f b.wristband_uid
          (live_entry now (some (record { value = binding_json b; expires = t }))))
        (update g b.ticket_id
          (live_entry now (some (record { value = plain b.wristband_uid; expires = t }))))
add_live-Linked {f} {g} now b t nf ng l =
    elim (Bool-cases (lives now (record { value = binding_json b; expires = t }))) [
      | inl alive ↦ rw alive (add-Linked b t nf ng l)
      | inr over ↦ rw (over, update_absent f b.wristband_uid nf, update_absent g b.ticket_id ng) l
    ]

-- A link is taken out of both indices.
pub remove-Linked :
    {f g : Index} (uid : String) (e : Entry) (b : WristbandBinding)
    → f uid ≡ some e
    → e.value ≡ binding_json b
    → Linked f g
    → Linked (update f uid none) (update g b.ticket_id none)
remove-Linked {f} {g} uid e b p v l = record {
  forward = λ u d q. elim (update-cases f uid none u d q) [
    | inl (_, n) ↦ cc
    | inr (other, q') ↦
        let (c, v', w, r) = l.forward u d q' in
        (c, v', w, ground (arith, l.forward uid e p, eq_iff b.ticket_id c.ticket_id, eq_iff uid u))
  ];
  backward = λ k r q. elim (update-cases g b.ticket_id none k r q) [
    | inl (_, n) ↦ cc
    | inr (other, q') ↦
        let (u, c, v', w, same) = l.backward k r q' in
        (u, c, v', ground (arith, eq_iff uid u, eq_iff b.ticket_id k), same)
  ];
}

-- A binding is written anew, for the same ticket and the same time.
pub rewrite-Linked :
    {f g : Index} (uid : String) (e : Entry) (b c : WristbandBinding)
    → f uid ≡ some e
    → e.value ≡ binding_json b
    → c.wristband_uid ≡ b.wristband_uid
    → c.ticket_id ≡ b.ticket_id
    → Linked f g
    → Linked (update f uid (some (record e { value = binding_json c }))) g
rewrite-Linked {f} {g} uid e b c p v su st l = record {
  forward = λ u d q. elim (update-cases f uid (some (record e { value = binding_json c })) u d q) [
    | inl (same, n) ↦
        (c, ground arith, ground (arith, l.forward uid e p), ground (arith, l.forward uid e p))
    | inr (_, q') ↦ l.forward u d q'
  ];
  backward = λ k r q.
      let (u, b', v', w, same) = l.backward k r q in
      elim (Bool-cases (str_eq uid u)) [
        | inl hit ↦ (u, c, v', ground (arith, eq_iff uid u), ground (arith, eq_iff uid u))
        | inr miss ↦ (u, b', v', ground arith, same)
      ];
}

-- The entries of an index that live at a later time.
abbrev pub later_index : ℕ → Index → Index
later_index later f k = live_entry later (f k)

-- The two keys of a link expire together.
pub later-Linked :
    {f g : Index} (later : ℕ) → Linked f g → Linked (later_index later f) (later_index later g)
later-Linked {f} {g} later l = record {
  forward = λ u e q. let (b, v, w, r) = l.forward u e (ground arith) in (b, v, w, ground arith);
  backward = λ k r q.
      let (u, b, v, w, same) = l.backward k r (ground arith) in (u, b, v, ground arith, same);
}
