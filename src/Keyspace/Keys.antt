-- ===== src/Keyspace/Keys.antt =====
-- internal/redis/client.go: the names of the keys in the Redis key space, one prefix for each family
-- of keys. A name is the text that the client sends.
use Prim.Native.Char.{code}
use Prim.Native.String.{◌++◌ as ◌⁀◌}
use text.Mathlib.TextLemmas.{nil-append, cons-append, append_cancel_left}
use theme_park_nftengine.Prelude.{
  ℕ, String, ◌≡◌, refl, ap, ◌≢◌, Bool, false, true, List, [], ◌∷◌, ◌++◌, ◌||◌, str_eq, eq_iff,
  str_ne, arith, eq_refl, ◌==◌, not, Bool-cases, inl, inr,
}

-- The keys that the client builds.
pub data Key : Type 0 where
  dedup : String → Key
  grace : String → Key
  user_rides : String → String → Key
  bind_wristband : String → Key
  bind_ticket : String → Key
  qr : String → Key
  gracewb : String → Key

-- The name of a key, as the client sends it.
unfoldable pub key_name : Key → String
key_name (dedup trace_id) = "dedup:" ⁀ trace_id
key_name (grace ticket_id) = "grace:" ⁀ ticket_id
key_name (user_rides user_id date) = "user:" ⁀ (user_id ⁀ (":rides:" ⁀ date))
key_name (bind_wristband uid) = "bind:wristband:" ⁀ uid
key_name (bind_ticket ticket_id) = "bind:ticket:" ⁀ ticket_id
key_name (qr uuid) = "qr:" ⁀ uuid
key_name (gracewb uid) = "gracewb:" ⁀ uid

abbrev codes : String → List ℕ
codes String.[] = []
codes (String.◌∷◌ c s) = code c ∷ codes s

codes-append : (s t : String) → codes (s ⁀ t) ≡ codes s ++ codes t
codes-append String.[] t = rw nil-append
codes-append (String.◌∷◌ c s) t = rw cons-append (ap (◌∷◌ (code c)) (codes-append s t))

-- Two lists that come apart before either ends.
abbrev differ : List ℕ → List ℕ → Bool
differ [] ys = false
differ (x ∷ xs) [] = false
differ (x ∷ xs) (y ∷ ys) = not (x == y) || differ xs ys

differ-append : (xs ys us vs : List ℕ) → differ xs ys ≡ true → xs ++ us ≢ ys ++ vs
differ-append [] ys us vs d e = cc
differ-append (x ∷ xs) [] us vs d e = cc
differ-append (x ∷ xs) (y ∷ ys) us vs d e = ground (arith, differ-append xs ys us vs)

-- Names under prefixes that differ are different.
prefix_ne : (p q s t : String) → differ (codes p) (codes q) ≡ true → str_eq (p ⁀ s) (q ⁀ t) ≡ false
prefix_ne p q s t d = str_ne _ _ λ e.
    differ-append (codes p) (codes q) (codes s) (codes t) d
      (rw (codes-append p s, codes-append q t) at (ap codes e))

-- Names under one prefix are equal where what follows is.
prefix_eq : (p s t : String) → str_eq (p ⁀ s) (p ⁀ t) ≡ str_eq s t
prefix_eq p s t = elim (Bool-cases (str_eq s t)) [
  | inl same ↦ rw (same, (eq_iff s t).0 same) (eq_refl (p ⁀ t))
  | inr other ↦
      rw other
        (str_ne _ _ (λ (e : p ⁀ s ≡ p ⁀ t). ground (arith, eq_iff s t, append_cancel_left p s t e)))
]

-- Equality of keys, without their names.
abbrev pub key_eq : Key → Key → Bool
key_eq (dedup a) (dedup b) = str_eq a b
key_eq (grace a) (grace b) = str_eq a b
key_eq (user_rides a d) (user_rides b e) =
    str_eq ("user:" ⁀ (a ⁀ (":rides:" ⁀ d))) ("user:" ⁀ (b ⁀ (":rides:" ⁀ e)))
key_eq (bind_wristband a) (bind_wristband b) = str_eq a b
key_eq (bind_ticket a) (bind_ticket b) = str_eq a b
key_eq (qr a) (qr b) = str_eq a b
key_eq (gracewb a) (gracewb b) = str_eq a b
key_eq _ _ = false

-- Two keys have one name exactly where they are of one family and carry the same identifiers.
pub key_name_eq : (k j : Key) → str_eq (key_name k) (key_name j) ≡ key_eq k j
unfolding key_name
key_name_eq (dedup a) (dedup b) = prefix_eq "dedup:" a b
key_name_eq (grace a) (grace b) = prefix_eq "grace:" a b
key_name_eq (user_rides a d) (user_rides b e) = refl
key_name_eq (bind_wristband a) (bind_wristband b) = prefix_eq "bind:wristband:" a b
key_name_eq (bind_ticket a) (bind_ticket b) = prefix_eq "bind:ticket:" a b
key_name_eq (qr a) (qr b) = prefix_eq "qr:" a b
key_name_eq (gracewb a) (gracewb b) = prefix_eq "gracewb:" a b
key_name_eq _ _ = prefix_ne _ _ _ _ refl
