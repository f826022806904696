-- ===== src/Memstore/Method.antt =====
-- The methods on one key as one data type, for statements about all of them: an atomic step of the
-- store is one method under the lock of its key's shard.
use cache_pot.Prelude.{ℕ, List, Bytes, ℤ}
use cache_pot.Float.{Float64}
use cache_pot.Memstore.Cell.{Cell, Config}
use cache_pot.Memstore.Strings
use cache_pot.Memstore.Strings.{SetOpts}
use cache_pot.Memstore.Hash
use cache_pot.Memstore.Lists
use cache_pot.Memstore.Sets
use cache_pot.Memstore.SortedSets
use cache_pot.Memstore.SortedSets.{ZMember}

pub data Method : Type 0 where
  get del ttl persist : Method
  set : Bytes → SetOpts → Method
  expire : ℤ → Method
  hset : List (Bytes × Bytes) → Method
  hget hexists : Bytes → Method
  hget_all hkeys hvals hlen : Method
  hdel hmget : List Bytes → Method
  hincr_by : Bytes → ℤ → Method
  lpush rpush : List Bytes → Method
  lpop rpop llen : Method
  lrange : ℤ → ℤ → Method
  lindex : ℤ → Method
  lset lrem : ℤ → Bytes → Method
  sadd srem : List Bytes → Method
  smembers scard snapshot : Method
  sis_member : Bytes → Method
  zadd : List ZMember → Method
  zrem : List Bytes → Method
  zrange zrev_range : ℤ → ℤ → Method
  zscore zrank : Bytes → Method
  zcard : Method
  zincr_by : Bytes → Float64 → Method
  zrange_by_score : Float64 → Float64 → Method

-- What a method leaves in the cell.
unfoldable pub run : (Float64 → Float64 → Float64) → Config → Bytes → ℕ → Method → Cell → Cell
run fadd cfg ck now get c = (Strings.get ck now c).1
run fadd cfg ck now del c = (Strings.del_key ck now c).1
run fadd cfg ck now ttl c = (Strings.ttl ck now c).1
run fadd cfg ck now persist c = (Strings.persist ck now c).1
run fadd cfg ck now (set val opts) c = (Strings.set cfg ck now val opts c).1
run fadd cfg ck now (expire d) c = (Strings.expire ck now d c).1
run fadd cfg ck now (hset fields) c = (Hash.hset cfg ck now fields c).1
run fadd cfg ck now (hget f) c = (Hash.hget ck now f c).1
run fadd cfg ck now (hexists f) c = (Hash.hexists ck now f c).1
run fadd cfg ck now hget_all c = (Hash.hget_all ck now c).1
run fadd cfg ck now hkeys c = (Hash.hkeys ck now c).1
run fadd cfg ck now hvals c = (Hash.hvals ck now c).1
run fadd cfg ck now hlen c = (Hash.hlen ck now c).1
run fadd cfg ck now (hdel fields) c = (Hash.hdel ck now fields c).1
run fadd cfg ck now (hmget fields) c = (Hash.hmget ck now fields c).1
run fadd cfg ck now (hincr_by f d) c = (Hash.hincr_by cfg ck now f d c).1
run fadd cfg ck now (lpush vals) c = (Lists.lpush cfg ck now vals c).1
run fadd cfg ck now (rpush vals) c = (Lists.rpush cfg ck now vals c).1
run fadd cfg ck now lpop c = (Lists.lpop ck now c).1
run fadd cfg ck now rpop c = (Lists.rpop ck now c).1
run fadd cfg ck now llen c = (Lists.llen ck now c).1
run fadd cfg ck now (lrange i j) c = (Lists.lrange ck now i j c).1
run fadd cfg ck now (lindex i) c = (Lists.lindex ck now i c).1
run fadd cfg ck now (lset i v) c = (Lists.lset ck now i v c).1
run fadd cfg ck now (lrem n v) c = (Lists.lrem ck now n v c).1
run fadd cfg ck now (sadd ms) c = (Sets.sadd cfg ck now ms c).1
run fadd cfg ck now (srem ms) c = (Sets.srem ck now ms c).1
run fadd cfg ck now smembers c = (Sets.smembers ck now c).1
run fadd cfg ck now scard c = (Sets.scard ck now c).1
run fadd cfg ck now snapshot c = (Sets.set_snapshot ck now c).1
run fadd cfg ck now (sis_member m) c = (Sets.sis_member ck now m c).1
run fadd cfg ck now (zadd ms) c = (SortedSets.zadd cfg ck now ms c).1
run fadd cfg ck now (zrem ms) c = (SortedSets.zrem ck now ms c).1
run fadd cfg ck now (zrange i j) c = (SortedSets.zrange ck now i j c).1
run fadd cfg ck now (zrev_range i j) c = (SortedSets.zrev_range ck now i j c).1
run fadd cfg ck now (zscore m) c = (SortedSets.zscore ck now m c).1
run fadd cfg ck now (zrank m) c = (SortedSets.zrank ck now m c).1
run fadd cfg ck now zcard c = (SortedSets.zcard ck now c).1
run fadd cfg ck now (zincr_by m d) c = (SortedSets.zincr_by fadd cfg ck now m d c).1
run fadd cfg ck now (zrange_by_score lo hi) c = (SortedSets.zrange_by_score ck now lo hi c).1
