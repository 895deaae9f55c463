-- ===== src/Client/Quorum.antt =====
-- client/client.go: which version a quorum read delivers, and what its repair changes.
use dynamo_db.Prelude.{
  Bool, ℕ, ◌≡◌, ◌≢◌, String, true, false, Option, none, some, List, arith, ℤ, int_key, text_key,
  ltb_ℤ, if◌then◌else◌, ◌⊎◌,
}
use dynamo_db.GoMap.{lookup}
use dynamo_db.Node.{Node, StoredItem}
use dynamo_db.Node.Storage.{Cluster, get_reply}
use dynamo_db.Node.Replication.{stored}
use dynamo_db.Client.{Outcome, output_file, save_file, downloaded}

-- The later of two versions, the first if they are of the same time.
abbrev pub freshest : Option StoredItem → Option StoredItem → Option StoredItem
freshest none y = y
freshest (some x) none = some x
freshest (some x) (some y) = if ltb_ℤ x.timestamp y.timestamp then some y else some x

abbrev pub value_of : Option StoredItem → Option (List ℕ)
value_of none = none
value_of (some item) = some item.value

abbrev pub time_of : Option StoredItem → Option ℤ
time_of none = none
time_of (some item) = some item.timestamp

-- The bytes that a command saves.
abbrev pub saved : Outcome → Option (List ℕ)
saved (downloaded id key bytes) = some bytes
saved _ = none

-- The bytes that os.WriteFile saves, if there are some and it can.
abbrev pub written : (String → List ℕ → Bool) → String → Option (List ℕ) → Option (List ℕ)
written write_file key none = none
written write_file key (some bytes) =
    if write_file (output_file key) bytes then some bytes else none

-- What a read of the key at two nodes does, `x` and `y` being what they have.
pub record IsRead (write_file : String → List ℕ → Bool) (key : String) (a b : ℤ)
    (x y : Option StoredItem) (before after : Cluster) (result : Outcome) : Type 0 where
  pub delivers : saved result ≡ written write_file key (value_of (freshest x y))
  pub first : stored after a key ≡ freshest x y
  pub second : time_of (stored after b key) ≡ time_of (freshest x y)
  pub others :
      (j : ℤ) → (stored after j key ≡ freshest x y) ⊎ (stored after j key ≡ stored before j key)
  pub frame : (j : ℤ) (k : String) → key ≢ k → stored after j k ≡ stored before j k

pub saved-save_file :
    (write_file : String → List ℕ → Bool) (id : ℤ) (key : String) (bytes : List ℕ)
    → saved (save_file write_file id key bytes) ≡ written write_file key (some bytes)
unfolding save_file
saved-save_file write_file id key bytes = ground arith

pub stored-lookup :
    (id : ℤ) (n : Node) (cluster : Cluster) (k : String)
    → lookup id cluster ≡ some n
    → stored cluster id k ≡ lookup k n.data_store
unfolding stored
stored-lookup id n cluster k e = ground (arith, e)

pub get_reply-none :
    (key : String) (n : Node)
    → lookup key n.data_store ≡ none
    → (get_reply (record { key = key }) n).found ≡ false
unfolding get_reply
get_reply-none key n e = ground (arith, e)

pub get_reply-some :
    (key : String) (n : Node) (item : StoredItem)
    → lookup key n.data_store ≡ some item
    → let r = get_reply (record { key = key }) n in
      (r.found ≡ true) × (r.timestamp ≡ item.timestamp) × (r.value ≡ item.value)
unfolding get_reply
get_reply-some key n item e = ground (arith, e)
