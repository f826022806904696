-- ===== src/Memstore/Closure/Methods.antt =====
-- Every method on one key keeps a closed family of predicates.
use cache_pot.Prelude.{ℕ, Bytes}
use cache_pot.Float.{Float64}
use cache_pot.Memstore.Cell.{Cell, Config}
use cache_pot.Memstore.Hash
use cache_pot.Memstore.Lists
use cache_pot.Memstore.Sets
use cache_pot.Memstore.SortedSets
use cache_pot.Memstore.Method.{
  Method, run, get, del, ttl, persist, set, expire, hset, hget, hexists, hget_all, hkeys, hvals,
  hlen, hdel, hmget, hincr_by, lpush, rpush, lpop, rpop, llen, lrange, lindex, lset, lrem, sadd,
  srem, smembers, scard, snapshot, sis_member, zadd, zrem, zrange, zrev_range, zscore, zrank, zcard,
  zincr_by, zrange_by_score,
}
use cache_pot.Memstore.Closure.{Closed, after_method}
use cache_pot.Memstore.Closure.Rules.{reads}
use cache_pot.Memstore.Closure.Strings.{
  get-closed, del_key-closed, ttl-closed, persist-closed, set-closed, expire-closed,
}
use cache_pot.Memstore.Closure.Collections.{
  hset-closed, hget-closed, hdel-closed, hincr_by-closed, lpush-closed, rpush-closed, lpop-closed,
  rpop-closed, lindex-closed, lset-closed, lrem-closed, sadd-closed, srem-closed, zadd-closed,
  zrem-closed, zincr_by-closed, zrank-closed,
}

module _ {P : ℕ → Cell → Type 0} {cfg : Config} {ck : Bytes} (cl : Closed P cfg ck) where
  pub run-closed :
      (fadd : Float64 → Float64 → Float64) (now : ℕ) (m : Method) (b : ℕ) (c : Cell)
      → P b c
      → P (after_method b) (run fadd cfg ck now m c)
  unfolding run Hash.hexists Hash.hget_all Hash.hkeys Hash.hvals Hash.hlen Hash.hmget Lists.llen
      Lists.lrange Sets.smembers Sets.scard Sets.set_snapshot Sets.sis_member SortedSets.zrange
      SortedSets.zrev_range SortedSets.zscore SortedSets.zcard SortedSets.zrange_by_score
  run-closed fadd now get b c h = get-closed cl now b c h
  run-closed fadd now del b c h = del_key-closed cl now b c h
  run-closed fadd now ttl b c h = ttl-closed cl now b c h
  run-closed fadd now persist b c h = persist-closed cl now b c h
  run-closed fadd now (set v o) b c h = set-closed cl now v o b c h
  run-closed fadd now (expire d) b c h = expire-closed cl d now b c h
  run-closed fadd now (hset fs) b c h = hset-closed cl now fs b c h
  run-closed fadd now (hget f) b c h = hget-closed cl now f b c h
  run-closed fadd now (hdel fs) b c h = hdel-closed cl now fs b c h
  run-closed fadd now (hincr_by f d) b c h = hincr_by-closed cl now f d b c h
  run-closed fadd now (lpush vs) b c h = lpush-closed cl now vs b c h
  run-closed fadd now (rpush vs) b c h = rpush-closed cl now vs b c h
  run-closed fadd now lpop b c h = lpop-closed cl now b c h
  run-closed fadd now rpop b c h = rpop-closed cl now b c h
  run-closed fadd now (lindex i) b c h = lindex-closed cl now i b c h
  run-closed fadd now (lset i v) b c h = lset-closed cl now i v b c h
  run-closed fadd now (lrem n v) b c h = lrem-closed cl now n v b c h
  run-closed fadd now (sadd ms) b c h = sadd-closed cl now ms b c h
  run-closed fadd now (srem ms) b c h = srem-closed cl now ms b c h
  run-closed fadd now (zadd ms) b c h = zadd-closed cl now ms b c h
  run-closed fadd now (zrem ms) b c h = zrem-closed cl now ms b c h
  run-closed fadd now (zincr_by m d) b c h = zincr_by-closed cl fadd now m d b c h
  run-closed fadd now (zrank m) b c h = zrank-closed cl now m b c h
  run-closed fadd now (hexists f) b c h = reads cl _ now _ _ b c h
  run-closed fadd now hget_all b c h = reads cl _ now _ _ b c h
  run-closed fadd now hkeys b c h = reads cl _ now _ _ b c h
  run-closed fadd now hvals b c h = reads cl _ now _ _ b c h
  run-closed fadd now hlen b c h = reads cl _ now _ _ b c h
  run-closed fadd now (hmget f) b c h = reads cl _ now _ _ b c h
  run-closed fadd now llen b c h = reads cl _ now _ _ b c h
  run-closed fadd now (lrange i j) b c h = reads cl _ now _ _ b c h
  run-closed fadd now smembers b c h = reads cl _ now _ _ b c h
  run-closed fadd now scard b c h = reads cl _ now _ _ b c h
  run-closed fadd now snapshot b c h = reads cl _ now _ _ b c h
  run-closed fadd now (sis_member f) b c h = reads cl _ now _ _ b c h
  run-closed fadd now (zrange i j) b c h = reads cl _ now _ _ b c h
  run-closed fadd now (zrev_range i j) b c h = reads cl _ now _ _ b c h
  run-closed fadd now (zscore f) b c h = reads cl _ now _ _ b c h
  run-closed fadd now zcard b c h = reads cl _ now _ _ b c h
  run-closed fadd now (zrange_by_score i j) b c h = reads cl _ now _ _ b c h
