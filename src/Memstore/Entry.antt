-- ===== src/Memstore/Entry.antt =====
-- internal/storage/memstore/types.go: the value container of one key, and the errors of
-- internal/storage/engine.go.
use cache_pot.Prelude.{
  ℕ, Bool, true, false, Option, none, some, List, [], Bytes, codes, leb, ℤ, pos, add64,
}
use cache_pot.GoMap.{GoMap}
use cache_pot.Float.{Float64}

pub data StorageError : Type 0 where
  wrong_type not_integer not_float index_out_of_range no_such_key : StorageError

pub data Result {ℓ} (A : Type ℓ) : Type ℓ where
  ok : A → Result A
  err : StorageError → Result A

pub data Kind : Type 0 where
  kind_none kind_string kind_hash kind_list kind_set kind_zset : Kind

-- `Kind.String`
unfoldable pub kind_name : Kind → Bytes
kind_name kind_string = codes "string"
kind_name kind_hash = codes "hash"
kind_name kind_list = codes "list"
kind_name kind_set = codes "set"
kind_name kind_zset = codes "zset"
kind_name _ = codes "none"

-- The one populated field of an entry, which `Kind` selects.
pub data Value : Type 0 where
  no_val : Value
  string_val : Bytes → Value
  hash_val : GoMap Bytes → Value
  list_val : List Bytes → Value
  set_val : GoMap (Unit {0}) → Value
  zset_val : GoMap Float64 → Value

abbrev pub kind_of : Value → Kind
kind_of no_val = kind_none
kind_of (string_val _) = kind_string
kind_of (hash_val _) = kind_hash
kind_of (list_val _) = kind_list
kind_of (set_val _) = kind_set
kind_of (zset_val _) = kind_zset

abbrev pub kind_eq : Kind → Kind → Bool
kind_eq kind_none kind_none = true
kind_eq kind_string kind_string = true
kind_eq kind_hash kind_hash = true
kind_eq kind_list kind_list = true
kind_eq kind_set kind_set = true
kind_eq kind_zset kind_zset = true
kind_eq _ _ = false

-- The fields of the struct; one that `Kind` does not select is nil.
abbrev pub string_of : Value → Bytes
string_of (string_val b) = b
string_of _ = []

abbrev pub hash_of : Value → GoMap Bytes
hash_of (hash_val m) = m
hash_of _ = []

abbrev pub list_of : Value → List Bytes
list_of (list_val l) = l
list_of _ = []

abbrev pub set_of : Value → GoMap (Unit {0})
set_of (set_val m) = m
set_of _ = []

abbrev pub zset_of : Value → GoMap Float64
zset_of (zset_val m) = m
zset_of _ = []

-- Times are nanoseconds since an epoch; the access counter is an `int64`.
pub record Entry : Type 0 where
  pub value : Value
  pub expires_at : Option ℕ
  pub last_access : ℕ
  pub access_count : ℤ

abbrev pub has_kind : Kind → Entry → Bool
has_kind k e = kind_eq (kind_of e.value) k

-- Gone at the very instant of its expiry.
unfoldable pub expired : Entry → ℕ → Bool
expired e now = elim e.expires_at [ none ↦ false | some t ↦ leb t now ]

abbrev pub empty_value : Kind → Value
empty_value kind_hash = hash_val []
empty_value kind_set = set_val []
empty_value kind_zset = zset_val []
empty_value kind_list = list_val []
empty_value kind_string = string_val []
empty_value kind_none = no_val

abbrev pub new_empty_entry : Kind → ℕ → Entry
new_empty_entry kind now = record {
  value = empty_value kind;
  expires_at = none;
  last_access = now;
  access_count = pos 0;
}

-- What every reading and writing method does to the recency signals: `e.LastAccess = now` and
-- `e.AccessCount++`.
abbrev pub touch : ℕ → Entry → Entry
touch now e = record e { last_access = now; access_count = add64 e.access_count (pos 1) }

-- A write of the populated field through the pointer.
abbrev pub with_value : Value → Entry → Entry
with_value v e = record e { value = v }
