-- ===== src/Tests/Transactions.antt =====
-- The theorems about internal/server/resp, at concrete inputs.
use cache_pot.Prelude.{
  Bool, true, false, Option, none, some, [], ◌∷◌, ◌++◌, ◌≡◌, refl, arith, codes, beq, pos,
}
use cache_pot.GoMap.{lookup, member}
use cache_pot.Memstore.Cell.{version}
use cache_pot.Memstore.Entry.{string_val}
use cache_pot.Memstore.Keyspace.{flush_db, watch_version}
use cache_pot.Memstore.Store.{Store, shard_index, cell_at}
use cache_pot.Resp.Session.{
  Client, Command, Server, exec, ordinary, ok_status, null_array, error, exec_abort, reset, handle,
  handle_exec, handle_watch,
}
use cache_pot.Resp.Queue.{LeavesQueue, handle-IsQueue}
use cache_pot.Resp.Transactions.{
  IsQueue, QueuesOrdinary, handle_exec-handle_watch, handle_fuel, handle_exec-unknown,
}
use cache_pot.Glob
use cache_pot.Resp.Patterns
use cache_pot.Resp.Patterns.{glob_match-eq}
use cache_pot.Tests.{store_of}

abbrev exec_command : Command Store
exec_command = record {
  name = codes "EXEC";
  min_args = 1;
  max_args = pos 1;
  allowed_no_auth = false;
  no_queue = true;
  handler = exec;
}

abbrev flush_command : Command Store
flush_command = record {
  name = codes "FLUSHDB";
  min_args = 1;
  max_args = pos 1;
  allowed_no_auth = false;
  no_queue = false;
  handler = ordinary (λ args cs s. (ok_status, cs, flush_db cs.workspace s));
}

abbrev pick : Bool → Bool → Option (Command Store)
pick true b = some exec_command
pick false true = some flush_command
pick false false = none

abbrev server : Server Store
server = record {
  commands = λ n. pick (beq n (codes "EXEC")) (beq n (codes "FLUSHDB"));
  auth_required = false;
  watch_version = watch_version;
}

pick-QueuesOrdinary : (a b : Bool) → QueuesOrdinary (pick a b)
pick-QueuesOrdinary true b = refl
pick-QueuesOrdinary false true = refl
pick-QueuesOrdinary false false = tt

abbrev idle : Client
idle = record {
  authenticated = false;
  workspace = codes "w";
  in_multi = false;
  multi_error = false;
  queued = [];
  watched = [];
}

abbrev one_queued : Client
one_queued = record idle { in_multi = true; queued = (codes "flushdb" ∷ []) ∷ [] }

handle_fuel_example :
    handle 3 server (codes "exec" ∷ []) one_queued (store_of (string_val []))
    ≡ handle 2 server (codes "exec" ∷ []) one_queued (store_of (string_val []))
unfolding beq
handle_fuel_example =
    handle_fuel server 1 (codes "exec" ∷ []) one_queued (store_of (string_val []))
      (λ name. pick-QueuesOrdinary (beq name (codes "EXEC")) (beq name (codes "FLUSHDB")))
      ((flush_command, refl, refl), tt)

handle_exec-unknown_example :
    handle_exec
      (handle 1 server)
      server
      (handle 2 server (codes "nope" ∷ []) one_queued (store_of (string_val []))).1
      (store_of (string_val []))
    ≡ (error exec_abort, reset one_queued, store_of (string_val []))
unfolding beq
handle_exec-unknown_example =
    handle_exec-unknown server 1 (codes "nope") [] one_queued (store_of (string_val [])) refl refl

-- The connection that has watched `a` and opened a transaction.
abbrev watching : Client
watching = record one_queued {
  watched = (handle_watch server (codes "a" ∷ []) idle (store_of (string_val []))).1.watched;
}

-- The store after another connection's FLUSHDB.
abbrev flushed : Store
flushed = record {
  shards =
      record { data_map = []; ttl_keys = []; versions = (codes "w" ++ (0 ∷ codes "a"), 1) ∷ [] }
      ∷ [];
  entry_count = 0;
  evicted = 0;
}

handle_exec-handle_watch_example :
    handle_exec (handle 1 server) server watching flushed ≡ (null_array, reset watching, flushed)
unfolding member beq watch_version version cell_at shard_index lookup
handle_exec-handle_watch_example =
    handle_exec-handle_watch (handle 1 server) server (codes "a" ∷ []) (codes "a") idle watching
      (store_of (string_val [])) flushed refl refl refl refl refl refl (λ h. ground (arith, h))

pick-LeavesQueue : (a b : Bool) → LeavesQueue (pick a b)
pick-LeavesQueue true b = tt
pick-LeavesQueue false true = λ args cs w. refl
pick-LeavesQueue false false = tt

handle-IsQueue_example :
    IsQueue server
      (handle 2 server (codes "flushdb" ∷ []) one_queued (store_of (string_val []))).1.queued
unfolding beq
handle-IsQueue_example =
    handle-IsQueue server
      (λ name. pick-LeavesQueue (beq name (codes "EXEC")) (beq name (codes "FLUSHDB"))) 2
      (codes "flushdb" ∷ []) one_queued (store_of (string_val [])) ((flush_command, refl, refl), tt)

glob_match-eq_example :
    Patterns.glob_match (codes "h[a-c]*") (codes "hbxx")
    ≡ Glob.glob_match (codes "h[a-c]*") (codes "hbxx")
glob_match-eq_example = glob_match-eq (codes "h[a-c]*") (codes "hbxx") refl
