-- ===== src/Tests/Protocol.antt =====
-- The theorems about the protocol and the commands, at concrete inputs.
use cache_pot.Prelude.{
  inl, ◌+◌, ◌≡◌, refl, arith, none, some, List, [], ◌∷◌, ◌++◌, Bytes, codes, beq, pos, negsuc,
  add64,
}
use cache_pot.Strconv.{format_int, parse_int, read_digits}
use cache_pot.GoMap.{lookup, put}
use cache_pot.Memstore.Entry.{ok, string_val, expired}
use cache_pot.Memstore.Cell.{with_live, get_for_write, live_or_drop, mutate}
use cache_pot.Memstore.Strings.{get, set, set_on, guarded_write, write_string}
use cache_pot.Memstore.Store.{on_shard, on_index, cell_at, put_back, shard_index, fnv32a}
use cache_pot.Resp.Wire.{items, encode, read_command, got}
use cache_pot.Resp.Wire.RoundTrip.{bulks, read_command-encode}
use cache_pot.Resp.Connection.{handle_auth, new_client_state}
use cache_pot.Resp.Connection.Access.{IsEntitled, connected, auth_command, ReachConn-IsEntitled}
use cache_pot.Resp.Handlers.{Env}
use cache_pot.Resp.Handlers.Strings.{engine_get, incr_by, incr_found, add_to}
use cache_pot.Resp.Handlers.Strings.Laws.{incr_by-incr_by}
use cache_pot.Tests.{uncapped, store_of, tenants}

-- An argument with a line end in it, and an empty one.
abbrev odd_args : List Bytes
odd_args = codes "GET" ∷ (13 ∷ 10 ∷ []) ∷ [] ∷ []

read_command-encode_example :
    read_command (encode (items (bulks odd_args)) ++ codes "*1") ≡ got odd_args (codes "*1")
read_command-encode_example =
    read_command-encode odd_args (codes "*1") (omega arith) (omega arith) refl

abbrev second_password : List Bytes
second_password = codes "AUTH" ∷ codes "q" ∷ []

ReachConn-IsEntitled_example :
    IsEntitled tenants
      (second_password ++ [])
      (handle_auth tenants second_password new_client_state).1
ReachConn-IsEntitled_example =
    ReachConn-IsEntitled tenants (second_password ++ [])
      (handle_auth tenants second_password new_client_state).1
      (auth_command second_password (inl refl) connected)

abbrev alone : Env
alone = record {
  cfg = uncapped;
  fadd = λ a b. a + b;
  parse_float = λ s. none;
  format_float = λ f. [];
  clock = λ n. 5 + n;
  others = λ n s. s;
}

incr_by-incr_by_example :
    ((engine_get alone 0
        (codes "w")
        (codes "a")
        (incr_by alone (codes "w") (codes "a") (pos 2) (store_of (string_val (codes "40")))).1).0
      ≡ ok (some (format_int (pos 42))))
    × ((incr_by alone
          (codes "w")
          (codes "a")
          (negsuc 1)
          (incr_by alone (codes "w") (codes "a") (pos 2) (store_of (string_val (codes "40")))).1).0
        ≡ ok (add64 (pos 42) (negsuc 1)))
unfolding incr_by incr_found add_to add64 on_shard on_index get set set_on guarded_write
    write_string with_live get_for_write live_or_drop lookup put cell_at put_back shard_index fnv32a
    beq expired parse_int read_digits mutate
incr_by-incr_by_example =
    incr_by-incr_by alone alone (codes "w") (codes "a") (λ n s. refl) (λ n s. refl) (pos 2)
      (negsuc 1) (pos 42) (store_of (string_val (codes "40"))) (omega arith) refl
