-- ===== src/Keyspace.antt =====
-- The Redis key space that internal/redis/client.go reads and writes: a value for each key name,
-- with the time in Unix milliseconds up to which it lives. A key past its time reads as absent.
pub mod Keys
use theme_park_nftengine.Prelude.{
  ℕ, String, ◌≡◌, refl, ◌≤◌, Bool, true, false, Option, none, some, List, ltb, str_eq,
  if◌then◌else◌, arith,
}
use theme_park_nftengine.Models.{WristbandBinding}
use Keys.{Key, key_name, key_eq, key_name_eq}

-- `nfcDecision` of internal/gate/binding.go, cached as JSON.
pub record NfcDecision : Type 0 where
  pub allowed : Bool
  pub reason : String

-- What a key holds: a text, a binding or a decision written as JSON, or a set of texts.
pub data Value : Type 0 where
  plain : String → Value
  binding_json : WristbandBinding → Value
  decision_json : NfcDecision → Value
  members : List String → Value

pub record Entry : Type 0 where
  pub value : Value
  pub expires : Option ℕ

abbrev pub Keyspace : Type 0
Keyspace = String → Option Entry

abbrev pub lives : ℕ → Entry → Bool
lives now e = elim e.expires [ none ↦ true | some t ↦ if ltb t now then false else true ]

abbrev pub live_entry : ℕ → Option Entry → Option Entry
live_entry now none = none
live_entry now (some e) = if lives now e then some e else none

-- What a key holds at a time.
unfoldable pub peek : ℕ → Keyspace → Key → Option Entry
peek now ks k = live_entry now (ks (key_name k))

-- The key space with a key written, or deleted.
unfoldable pub assign : Keyspace → Key → Option Entry → Keyspace
assign ks k e name = if str_eq (key_name k) name then e else ks name

abbrev pub empty : Keyspace
empty _ = none

-- A read after a write sees what was written to that key, and all other keys as they were.
pub peek-assign :
    (now : ℕ) (ks : Keyspace) (k j : Key) (e : Option Entry)
    → peek now (assign ks k e) j ≡ (if key_eq k j then live_entry now e else peek now ks j)
unfolding peek assign
peek-assign now ks k j e = rw key_name_eq (ground arith)

pub peek-empty : (now : ℕ) (k : Key) → peek now empty k ≡ none
unfolding peek
peek-empty now k = refl

-- What lives at a later time lived before, and held the same.
pub peek_earlier :
    (now later : ℕ) (ks : Keyspace) (k : Key) (e : Entry)
    → now ≤ later
    → peek later ks k ≡ some e
    → peek now ks k ≡ some e
unfolding peek
peek_earlier now later ks k e h p = ground arith

pub peek-lives :
    (now : ℕ) (ks : Keyspace) (k : Key) (e : Entry) → peek now ks k ≡ some e → lives now e ≡ true
unfolding peek
peek-lives now ks k e p = ground arith

pub peek-later :
    (now later : ℕ) (ks : Keyspace) (k : Key)
    → now ≤ later
    → peek later ks k ≡ live_entry later (peek now ks k)
unfolding peek
peek-later now later ks k h = ground arith
